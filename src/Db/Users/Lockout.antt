-- ===== src/Db/Users/Lockout.antt =====
-- crud.py: how many passwords can be tried on an account.
use kryvaracode.Common.{
  ℕ, ◌+◌, ◌≡◌, refl, ap, ◌∙◌, sym, subst, String, Bool, true, false, not, ◌&&◌, Option, none, some,
  List, [], ◌∷◌, arith, eq_iff, eqb, ◌==◌, if◌then◌else◌, is_some, Bool-cases, Option-cases, inl,
  inr,
}
use kryvaracode.Core.Security.{Crypto, verify_password}
use kryvaracode.Db.Table.{Row, first}
use kryvaracode.Db.Table.Laws.{IsKeyed, put-IsKeyed, first-put, get-first, first_holds}
use kryvaracode.Db.Models.{User, Database}
use kryvaracode.Db.Users.{
  get_user_by_username, has_username, is_locked, failed_login, logged_in, set_user,
  authenticate_user,
}

-- A login: its time, the username and the password.
pub record Attempt : Type 0 where
  pub now : ℕ
  pub username : String
  pub password : String

-- An account that a name finds, after another content is written to it under the same name.
pub get_user_by_username-set_user :
    (name username : String) (db : Database) (key : ℕ) (user user' : User)
    → IsKeyed db.users
    → get_user_by_username name db ≡ some (key, user)
    → user'.username ≡ user.username
    → get_user_by_username username (set_user key user' db)
      ≡ (if name == username then some (key, user') else get_user_by_username username db)
unfolding get_user_by_username
get_user_by_username-set_user name username db key user user' k found same =
    let own : (user.username == name) ≡ true = first_holds (has_username name) db.users found in
    let here = get-first (has_username name) db.users k found in
    let written =
      first-put (has_username username) key user' db.users {r = (key, user)} k here
        (ap (λ n. n == username) same) in
    written ∙ elim (Bool-cases (name == username)) [
      | inl e ↦
          let at_name =
            subst (λ n. first (has_username n) db.users ≡ some (key, user))
              ((eq_iff name username).0 e) found in
          ground (arith, at_name, e)
      | inr e ↦ elim (Option-cases (first (has_username username) db.users)) [
        | inl absent ↦ ground (arith, absent, e)
        | inr (q, present) ↦
            let its : (q.1.username == username) ≡ true =
              first_holds (has_username username) db.users present in
            let there = get-first (has_username username) db.users k present in
            let apart : eqb q.0 key ≡ false = ground (
              arith,
              own,
              its,
              there,
              here,
              eq_iff name username,
              eq_iff user.username name,
              eq_iff q.1.username username,
            ) in
            ground (arith, present, e, apart)
      ]
    ]

get_user_by_username-same :
    (name username : String) (db : Database)
    → (name == username) ≡ true
    → get_user_by_username username db ≡ get_user_by_username name db
get_user_by_username-same name username db e =
    ap (λ n. get_user_by_username n db) (sym ((eq_iff name username).0 e))

module _ (c : Crypto) where
  -- What an attempt with a password leaves of a user.
  abbrev pub attempted : ℕ → String → User → User
  attempted now password user =
      if is_locked now user
      then user
      else (if verify_password c password user.hashed_password
          then logged_in user
          else failed_login now user)

  abbrev pub attempted_row : ℕ → String → Option (Row User) → Option (Row User)
  attempted_row now password none = none
  attempted_row now password (some (key, user)) = some (key, attempted now password user)

  -- The same library, with a comparison that any password passes.
  abbrev pub accepting : Crypto
  accepting = record c { checkpw = λ plain hashed. some true }

  -- The attempt would log in if its password passed the comparison, so the comparison decides it.
  unfoldable pub is_compared : Attempt → Database → Bool
  is_compared a db = is_some (authenticate_user accepting a.now a.username a.password db).1

  -- How many of the attempts on an account the comparison decides.
  unfoldable pub compared : String → List Attempt → Database → ℕ
  compared username [] db = 0
  compared username (a ∷ later) db =
      (if (a.username == username) && is_compared a db then 1 else 0)
      + compared username later (authenticate_user c a.now a.username a.password db).0

  -- What a login does with an account that its name finds.
  pub authenticate_user-found :
      (now : ℕ) (name password : String) (db : Database) (key : ℕ) (user : User)
      → get_user_by_username name db ≡ some (key, user)
      → authenticate_user c now name password db ≡ (
          if is_locked now user
          then (db, none)
          else (if verify_password c password user.hashed_password
              then (set_user key (logged_in user) db, some (key, logged_in user))
              else (set_user key (failed_login now user) db, none)))
  unfolding authenticate_user
  authenticate_user-found now name password db key user found = rw (found, authenticate_user) refl

  pub authenticate_user-absent :
      (now : ℕ) (name password : String) (db : Database)
      → get_user_by_username name db ≡ none
      → authenticate_user c now name password db ≡ (db, none)
  unfolding authenticate_user
  authenticate_user-absent now name password db absent = rw (absent, authenticate_user) refl

  failed_login-username :
      (now : ℕ) (user : User)
      → ((failed_login now user).username ≡ user.username)
        × ((failed_login now user).hashed_password ≡ user.hashed_password)
  unfolding failed_login
  failed_login-username now user = (refl, refl)

  abbrev pub Changes : ℕ → String → String → String → Database → Type 0
  Changes now name password username db =
      (get_user_by_username username (authenticate_user c now name password db).0 ≡ (
        if name == username
        then attempted_row now password (get_user_by_username username db)
        else get_user_by_username username db))
      × IsKeyed (authenticate_user c now name password db).0.users

  pub is_compared-found :
      (a : Attempt) (db : Database) (key : ℕ) (user : User)
      → get_user_by_username a.username db ≡ some (key, user)
      → is_compared a db ≡ not (is_locked a.now user)
  unfolding is_compared authenticate_user verify_password
  is_compared-found a db key user found =
      rw (found, authenticate_user)
        (elim (Bool-cases (is_locked a.now user)) [ inl e ↦ rw e refl | inr e ↦ rw e refl ])

  -- An attempt that the comparison does not decide is refused and changes nothing.
  pub is_compared-refused :
      (a : Attempt) (db : Database)
      → is_compared a db ≡ false
      → authenticate_user c a.now a.username a.password db ≡ (db, none)
  is_compared-refused a db refused = elim (Option-cases (get_user_by_username a.username db)) [
    | inl absent ↦ authenticate_user-absent a.now a.username a.password db absent
    | inr ((key, user), found) ↦
        let new = authenticate_user-found a.now a.username a.password db key user found in
        let locked = is_compared-found a db key user found in ground (arith, new, locked, refused)
  ]

  -- An attempt changes the account that it names, and no other.
  pub get_user_by_username-authenticate_user :
      (now : ℕ) (name password username : String) (db : Database)
      → IsKeyed db.users
      → Changes now name password username db
  get_user_by_username-authenticate_user now name password username db k =
      elim (Option-cases (get_user_by_username name db)) [
        | inl absent ↦
            let same = get_user_by_username-same name username db in
            let idle = authenticate_user-absent now name password db absent in
            rw idle (ground (arith, same, absent), k)
        | inr ((key, user), found) ↦
            let same = get_user_by_username-same name username db in
            let new = authenticate_user-found now name password db key user found in
            let set = λ (user' : User).
              get_user_by_username-set_user name username db key user user' k found in
            elim (Bool-cases (is_locked now user)) [
              | inl locked ↦
                  let idle : authenticate_user c now name password db ≡ (db, none) =
                    ground (arith, new, locked) in
                  rw idle (ground (arith, same, found, locked), k)
              | inr free ↦ elim (Bool-cases (verify_password c password user.hashed_password)) [
                | inl right ↦
                    let done : (authenticate_user c now name password db).0
                        ≡ set_user key (logged_in user) db =
                      ground (arith, new, free, right) in
                    rw done (
                      ground (arith, set (logged_in user) refl, same, found, free, right),
                      put-IsKeyed key (logged_in user) db.users k,
                    )
                | inr wrong ↦
                    let done : (authenticate_user c now name password db).0
                        ≡ set_user key (failed_login now user) db =
                      ground (arith, new, free, wrong) in
                    let kept = failed_login-username now user in
                    rw done (
                      ground (arith, set (failed_login now user) kept.0, same, found, free, wrong),
                      put-IsKeyed key (failed_login now user) db.users k,
                    )
              ]
            ]
      ]
