-- ===== src/Db/Users/Passwords.antt =====
-- crud.py: a new password lets its owner in, and spends the reset token.
use kryvaracode.Common.{ℕ, ◌≡◌, refl, String, false, none, some, arith, eq_self}
use kryvaracode.Core.Exceptions.{Result.ok}
use kryvaracode.Core.Security.{Crypto, IsSound, verify_password, get_password_hash}
use kryvaracode.Core.Security.Passwords.{verify_password-get_password_hash}
use kryvaracode.Db.Table.{get}
use kryvaracode.Db.Table.Laws.{IsKeyed, get-first}
use kryvaracode.Db.Models.{User, Database}
use kryvaracode.Db.Users.{
  get_user_by_username, has_username, is_locked, set_user, change_password, authenticate_user,
  without_reset_token, logged_in,
}
use kryvaracode.Db.Users.Lockout.{get_user_by_username-set_user, authenticate_user-found}

module _ (c : Crypto) where
  -- The user with a new password.
  abbrev pub renewed : String → String → User → User
  renewed salt password user = record (without_reset_token user) {
    hashed_password = get_password_hash c salt password;
  }

  pub change_password-accepts :
      (salt password : String) (db : Database) (key : ℕ) (user : User)
      → get key db.users ≡ some (key, user)
      → verify_password c password user.hashed_password ≡ false
      → change_password c salt key password db ≡ (
        set_user key (renewed salt password user) db,
        ok (some (key, renewed salt password user)),
      )
  unfolding change_password
  change_password-accepts salt password db key user there fresh =
      rw (there, change_password) (rw fresh refl)

  -- After `change_password` with a password that is not the old one, an account that is not locked logs in
  -- by the new password, with its failed attempts and its reset token cleared; a password that does not
  -- pass for the new one, such as the old one, is refused.
  pub authenticate_user-change_password :
      IsSound c
      → (now : ℕ) (salt name password other : String) (db : Database) (key : ℕ) (user : User)
      → IsKeyed db.users
      → get_user_by_username name db ≡ some (key, user)
      → is_locked now user ≡ false
      → verify_password c password user.hashed_password ≡ false
      → verify_password c other (get_password_hash c salt password) ≡ false
      → let db' = (change_password c salt key password db).0 in
        ((authenticate_user c now name password db').1
          ≡ some (key, logged_in (renewed salt password user)))
        × ((authenticate_user c now name other db').1 ≡ none)
  unfolding get_user_by_username
  authenticate_user-change_password sound now salt name password other db key user k found free
        fresh wrong =
      let user' = renewed salt password user in
      let db' = set_user key user' db in
      let here = get-first (has_username name) db.users k found in
      let accepted = change_password-accepts salt password db key user here fresh in
      let moved = get_user_by_username-set_user name name db key user user' k found refl in
      let there : get_user_by_username name db' ≡ some (key, user') =
        ground (arith, moved, eq_self name) in
      let right = verify_password-get_password_hash c sound password password salt refl in
      rw accepted (
        ground
            (arith, authenticate_user-found c now name password db' key user' there, right, free),
        ground (arith, authenticate_user-found c now name other db' key user' there, free, wrong),
      )
