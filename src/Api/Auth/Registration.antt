-- ===== src/Api/Auth/Registration.antt =====
-- src/api/auth/router.py: registration meets the unique columns. The body of the handler, behind the
-- limiter.
use kryvaracode.Common.{
  ℕ, ◌≡◌, refl, String, Bool, true, false, ◌||◌, Option, none, some, [], ◌∷◌, ◌++◌, arith, eq_iff,
  eq_self, is_some, if◌then◌else◌, Option-cases, inl, inr,
}
use kryvaracode.Core.Exceptions.{Result.ok, Result.raised, raise_app, ErrorClass.conflict}
use kryvaracode.Core.Security.{Crypto, get_password_hash}
use kryvaracode.Db.Table.{Row, Table, first, add}
use kryvaracode.Db.Models.{User, Database}
use kryvaracode.Db.Users.{
  get_user, get_user_by_email, get_user_by_username, has_email, has_username, new_user, set_user,
  is_locked, failed_login, logged_in, authenticate_user,
}
use kryvaracode.Db.Users as Users
use kryvaracode.Api.Auth.{register}

-- No two rows have one email address or one user name.
abbrev pub IsUnique : Table User → Type 0
IsUnique [] = Unit
IsUnique (r ∷ rs) =
    ((first (has_email r.1.email) rs ≡ none) × (first (has_username r.1.username) rs ≡ none))
    × IsUnique rs

-- A filter finds nothing in a longer table exactly if it finds nothing before and skips the new row.
first-add :
    (p : Row User → Bool) (key : ℕ) (user : User) (rows : Table User)
    → first p rows ≡ none
    → first p (add key user rows) ≡ (if p (key, user) then some (key, user) else none)
unfolding first
first-add p key user [] h = refl
first-add p key user (r ∷ rs) h = ground (arith, first-add p key user rs)

add-IsUnique :
    (key : ℕ) (user : User) (rows : Table User)
    → first (has_email user.email) rows ≡ none
    → first (has_username user.username) rows ≡ none
    → IsUnique rows
    → IsUnique (add key user rows)
unfolding first
add-IsUnique key user [] e n h = ((refl, refl), tt)
add-IsUnique key user (r ∷ rs) e n h = ground (
  arith,
  first-add (has_email r.1.email) key user rs,
  first-add (has_username r.1.username) key user rs,
  add-IsUnique key user rs,
  eq_iff user.email r.1.email,
  eq_iff r.1.email user.email,
  eq_iff user.username r.1.username,
  eq_iff r.1.username user.username,
)

-- An account that may log in, without rights beyond that, not verified and not locked.
abbrev pub IsOrdinary : User → Type 0
IsOrdinary user =
    (user.is_active ≡ true)
    × (user.is_superuser ≡ false)
    × (user.is_verified ≡ false)
    × (user.lock_until ≡ none)

module _ (c : Crypto) where
  -- Registration of a user, where no two rows share an address or a name: the checks before it cover the
  -- unique columns, so that it never ends in the database's error. If the address or the name is taken, it
  -- reports so, the address first, and leaves the database as it is. Else it adds the user's row behind the
  -- others and leaves every other table and every other row as they are; the user, who is active, no
  -- superuser, not verified and not locked, is then found under the name, and again no row shares an
  -- address or a name with another.
  pub register-IsUnique :
      (key : ℕ) (salt email username password : String) (name : Option String) (db : Database)
      → IsUnique db.users
      → let done = register c key salt email username password name db in
        IsUnique done.0.users
        × (done.0 ≡ (
            if is_some (get_user_by_email email db) || is_some (get_user_by_username username db)
            then db
            else record db {
              users =
                  db.users
                  ++ (key, new_user email username (get_password_hash c salt password) name) ∷ [];
            }))
        × (done.1 ≡ (
            if is_some (get_user_by_email email db)
            then raised (raise_app conflict "Email already registered")
            else (if is_some (get_user_by_username username db)
                then raised (raise_app conflict "Username already taken")
                else ok (key, new_user email username (get_password_hash c salt password) name))))
        × (get_user_by_username username done.0 ≡ (
            if is_some (get_user_by_email email db) || is_some (get_user_by_username username db)
            then get_user_by_username username db
            else some (key, new_user email username (get_password_hash c salt password) name)))
        × IsOrdinary (new_user email username (get_password_hash c salt password) name)
  unfolding register Users.create_user get_user_by_email get_user_by_username new_user
  register-IsUnique key salt email username password name db unique =
      let user = new_user email username (get_password_hash c salt password) name in
      elim (Option-cases (first (has_email email) db.users)) [
        | inr (r, e) ↦
            let next : register c key salt email username password name db
                ≡ (db, raised (raise_app conflict "Email already registered")) =
              ground (arith, e) in
            rw next (
              unique,
              ground (arith, e),
              ground (arith, e),
              ground (arith, e),
              (refl, refl, refl, refl),
            )
        | inl fresh ↦ elim (Option-cases (first (has_username username) db.users)) [
          | inr (r, e) ↦
              let next : register c key salt email username password name db
                  ≡ (db, raised (raise_app conflict "Username already taken")) =
                ground (arith, fresh, e) in
              rw next (
                unique,
                ground (arith, fresh, e),
                ground (arith, fresh, e),
                ground (arith, fresh, e),
                (refl, refl, refl, refl),
              )
          | inl free ↦
              let next : register c key salt email username password name db
                  ≡ (record db { users = add key user db.users }, ok (key, user)) =
                ground (arith, fresh, free) in
              let found = first-add (has_username username) key user db.users free in
              rw next (
                add-IsUnique key user db.users fresh free unique,
                ground (arith, fresh, free),
                ground (arith, fresh, free),
                ground (arith, found, fresh, free, eq_self username),
                (refl, refl, refl, refl),
              )
        ]
      ]
