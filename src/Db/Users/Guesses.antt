-- ===== src/Db/Users/Guesses.antt =====
-- crud.py: the lockout bounds the passwords that are tried on an account in half an hour.
use kryvaracode.Common.{
  ℕ, ◌+◌, ◌-◌, ◌≤◌, ◌<◌, max, ◌≡◌, refl, sym, subst, String, true, false, not, none, some, List, [],
  ◌∷◌, arith, leb, ◌==◌, if◌then◌else◌, eq_iff, Bool-cases, inl, inr, All,
}
use kryvaracode.Core.Security.{Crypto, verify_password}
use kryvaracode.Db.Table.Laws.{IsKeyed}
use kryvaracode.Db.Models.{User, Database}
use kryvaracode.Db.Users.{
  get_user_by_username, is_locked, failed_login, authenticate_user, lock_seconds, max_attempts,
}
use kryvaracode.Db.Users.Lockout.{
  Attempt, attempted, compared, is_compared, is_compared-found, is_compared-refused,
  get_user_by_username-authenticate_user,
}

module _ (c : Crypto) where
  -- The attempts lie within the half hour from `start`, and those on the account name a wrong password.
  abbrev pub AreWrong : ℕ → String → String → List Attempt → Type 0
  AreWrong start username hashed attempts =
      All
        (λ a.
          (start ≤ a.now)
          × (a.now < start + lock_seconds)
          × ((a.username == username) ≡ true → verify_password c a.password hashed ≡ false))
        attempts

  -- How many more wrong passwords can be compared until the half hour is over.
  abbrev left_to_try : ℕ → User → ℕ
  left_to_try start user =
      if (elim user.lock_until [ none ↦ false | some until ↦ leb (start + lock_seconds) until ])
      then 0
      else max 1 (max_attempts - user.failed_login_attempts)

  left_to_try-attempted :
      (start now : ℕ) (password : String) (user : User)
      → start ≤ now
      → now < start + lock_seconds
      → verify_password c password user.hashed_password ≡ false
      → ((if not (is_locked now user) then 1 else 0)
            + left_to_try start (attempted c now password user)
          ≤ left_to_try start user)
        × ((attempted c now password user).hashed_password ≡ user.hashed_password)
  unfolding failed_login
  left_to_try-attempted start now password user h₀ h₁ wrong =
      elim (Bool-cases (is_locked now user)) [
        | inl locked ↦
            let same : attempted c now password user ≡ user = ground (arith, locked) in
            rw (same, locked) (omega arith, refl)
        | inr free ↦
            let next : attempted c now password user ≡ failed_login now user =
              ground (arith, free, wrong) in
            rw (next, free) (ground arith, refl)
      ]

  compared-le :
      (username : String) (attempts : List Attempt) (start : ℕ) (db : Database) (key : ℕ)
      (user : User)
      → IsKeyed db.users
      → get_user_by_username username db ≡ some (key, user)
      → AreWrong start username user.hashed_password attempts
      → compared c username attempts db ≤ left_to_try start user
  unfolding compared
  compared-le username [] start db key user k found wrong = omega arith
  compared-le username (a ∷ later) start db key user k found wrong =
      let (after, keyed) =
        get_user_by_username-authenticate_user c a.now a.username a.password username db k in
      let db' = (authenticate_user c a.now a.username a.password db).0 in
      elim (Bool-cases (a.username == username)) [
        | inl own ↦
            let user' = attempted c a.now a.password user in
            let (fewer, hash) =
              left_to_try-attempted start a.now a.password user wrong.0.0 wrong.0.1
                (wrong.0.2 own) in
            let there : get_user_by_username username db' ≡ some (key, user') =
              ground (arith, after, own, found) in
            let rest =
              compared-le username later start db' key user' keyed there
                (subst (λ h. AreWrong start username h later) (sym hash) wrong.1) in
            let name : a.username ≡ username = (eq_iff a.username username).0 own in
            let at_name : get_user_by_username a.username db ≡ some (key, user) = rw name found in
            rw (own, is_compared-found c a db key user at_name) (omega (arith, rest, fewer))
        | inr other ↦
            let there : get_user_by_username username db' ≡ some (key, user) =
              ground (arith, after, other, found) in
            let rest = compared-le username later start db' key user keyed there wrong.1 in
            rw other (omega (arith, rest))
      ]

  -- Whatever logins come in within half an hour, on whatever accounts and in whatever order, in a
  -- table of users with distinct keys: if none of those on an account has its password, at most five of them would have logged in had their password
  -- passed the comparison. An attempt that would not is refused, whatever its password, and leaves the
  -- database as it is.
  pub compared-le_max_attempts :
      (username : String) (attempts : List Attempt) (start : ℕ) (db : Database) (key : ℕ)
      (user : User)
      → IsKeyed db.users
      → get_user_by_username username db ≡ some (key, user)
      → AreWrong start username user.hashed_password attempts
      → (compared c username attempts db ≤ max_attempts)
        × ((a : Attempt) (db' : Database)
            → is_compared c a db' ≡ false
            → authenticate_user c a.now a.username a.password db' ≡ (db', none))
  compared-le_max_attempts username attempts start db key user k found wrong = (
    ground (arith, compared-le username attempts start db key user k found wrong),
    is_compared-refused c,
  )
