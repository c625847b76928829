-- ===== src/Db/Users.antt =====
-- src/db/crud.py: the operations on users. What an operation answers stands beside the database that it
-- leaves; the time of the call, the salt and the key of a new row are arguments. The stored times are
-- all in UTC, so that a stored time without a zone means the same.
pub mod Lockout
pub mod Guesses
pub mod Passwords
mod Tests
use kryvaracode.Common.{
  ℕ, ◌+◌, ◌*◌, String, Bool, true, false, ◌||◌, Option, none, some, List, [], ltb, leb, ◌==◌,
  is_some, if◌then◌else◌,
}
use kryvaracode.Core.Exceptions.{
  Result, Result.ok, Result.raised, raise_app, ErrorClass.validation_failed, integrity_error,
}
use kryvaracode.Core.Security.{Crypto, verify_password, get_password_hash, hash_reset_token}
use kryvaracode.Db.Table.{Row, Table, first, get, add, put, page}
use kryvaracode.Db.Models.{User, Database}

unfoldable pub get_user : ℕ → Database → Option (Row User)
get_user user_id db = get user_id db.users

abbrev pub has_email : String → Row User → Bool
has_email email row = row.1.email == email

abbrev pub has_username : String → Row User → Bool
has_username username row = row.1.username == username

unfoldable pub get_user_by_email : String → Database → Option (Row User)
get_user_by_email email db = first (has_email email) db.users

unfoldable pub get_user_by_username : String → Database → Option (Row User)
get_user_by_username username db = first (has_username username) db.users

unfoldable pub get_users : ℕ → ℕ → Database → List (Row User)
get_users skip limit db = page skip limit db.users

-- The unique columns of `users`, on which `commit` refuses a new row.
abbrev pub is_taken : String → String → Database → Bool
is_taken email username db =
    is_some (first (has_email email) db.users) || is_some (first (has_username username) db.users)

-- The columns of a new user, with the defaults of the table.
unfoldable pub new_user : String → String → String → Option String → User
new_user email username hashed_password full_name = record {
  email = email;
  username = username;
  hashed_password = hashed_password;
  full_name = full_name;
  is_active = true;
  is_superuser = false;
  is_verified = false;
  failed_login_attempts = 0;
  lock_until = none;
  password_reset_token = none;
  hashed_reset_token = none;
  password_reset_expires = none;
}

-- What `update_user` is to write; an argument that is None leaves its column.
pub record UserUpdate : Type 0 where
  pub is_verified : Option Bool
  pub failed_login_attempts : Option ℕ
  pub lock_until : Option ℕ
  pub password_reset_token : Option String
  pub password_reset_expires : Option ℕ

abbrev pub given {ℓ} : {A : Type ℓ} → Option A → A → A
given none old = old
given (some new) old = new

abbrev pub given_some {ℓ} : {A : Type ℓ} → Option A → Option A → Option A
given_some none old = old
given_some (some new) old = some new

-- `user.lock_until` is set and later than now.
abbrev pub is_locked : ℕ → User → Bool
is_locked now user = elim user.lock_until [ none ↦ false | some until ↦ ltb now until ]

abbrev pub max_attempts : ℕ
max_attempts = 5

abbrev pub lock_seconds : ℕ
lock_seconds = 30 * 60

-- What a wrong password leaves of a user.
unfoldable pub failed_login : ℕ → User → User
failed_login now user =
    let attempts = user.failed_login_attempts + 1 in
    record user {
      failed_login_attempts = attempts;
      lock_until = if leb max_attempts attempts then some (now + lock_seconds) else user.lock_until;
    }

-- What the right password leaves of a user.
abbrev pub logged_in : User → User
logged_in user = record user { failed_login_attempts = 0; lock_until = none }

abbrev pub without_reset_token : User → User
without_reset_token user = record user {
  hashed_reset_token = none;
  password_reset_token = none;
  password_reset_expires = none;
}

-- Another content of the users' table.
abbrev pub set_user : ℕ → User → Database → Database
set_user user_id user db = record db { users = put user_id user db.users }

module _ (c : Crypto) where
  unfoldable pub create_user :
      ℕ
      → String
      → String
      → String
      → String
      → Option String
      → Database
      → Database × Result (Row User)
  unfolding new_user
  create_user key salt email username password full_name db =
      let user = new_user email username (get_password_hash c salt password) full_name in
      if is_taken email username db
      then (db, raised integrity_error)
      else (record db { users = add key user db.users }, ok (key, user))

  unfoldable pub updated_user : UserUpdate → User → User
  updated_user new user = record user {
    is_verified = given new.is_verified user.is_verified;
    failed_login_attempts = given new.failed_login_attempts user.failed_login_attempts;
    lock_until = given_some new.lock_until user.lock_until;
    hashed_reset_token = elim new.password_reset_token [
      | none ↦ user.hashed_reset_token
      | some token ↦ some (hash_reset_token c token)
    ];
    password_reset_token = elim new.password_reset_token [
      | none ↦ user.password_reset_token
      | some token ↦ none
    ];
    password_reset_expires = given_some new.password_reset_expires user.password_reset_expires;
  }

  unfoldable pub update_user : ℕ → UserUpdate → Database → Database × Option (Row User)
  unfolding updated_user
  update_user user_id new db = elim (get user_id db.users) [
    | none ↦ (db, none)
    | some (key, user) ↦
        let user' = updated_user new user in (set_user key user' db, some (key, user'))
  ]

  unfoldable pub change_password :
      String → ℕ → String → Database → Database × Result (Option (Row User))
  change_password salt user_id new_password db = elim (get user_id db.users) [
    | none ↦ (db, ok none)
    | some (key, user) ↦
        if verify_password c new_password user.hashed_password
        then (
          db,
          raised (
              raise_app validation_failed
                "New password must be different from the current password"),
        )
        else let user' = record (without_reset_token user) {
          hashed_password = get_password_hash c salt new_password;
        } in
          (set_user key user' db, ok (some (key, user')))
  ]

  unfoldable pub authenticate_user : ℕ → String → String → Database → Database × Option (Row User)
  unfolding failed_login
  authenticate_user now username password db = elim (get_user_by_username username db) [
    | none ↦ (db, none)
    | some (key, user) ↦
        if is_locked now user
        then (db, none)
        else (if verify_password c password user.hashed_password
            then (set_user key (logged_in user) db, some (key, logged_in user))
            else (set_user key (failed_login now user) db, none))
  ]

unfoldable pub clear_reset_token : ℕ → Database → Database × Option (Row User)
clear_reset_token user_id db = elim (get user_id db.users) [
  | none ↦ (db, none)
  | some (key, user) ↦
      (set_user key (without_reset_token user) db, some (key, without_reset_token user))
]
