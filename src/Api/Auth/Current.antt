-- ===== src/Api/Auth/Current.antt =====
-- src/api/deps.py: the user of an access token.
use kryvaracode.Common.{ℕ, String, true, none, some, [], ◌∷◌, if◌then◌else◌}
use kryvaracode.Core.Exceptions.{
  Result, Exception, raise_app, new_error, app, ErrorClass.unauthorized, ErrorClass.forbidden,
}
use kryvaracode.Core.Security.{Crypto, decode_access_token}
use kryvaracode.Db.Table.{Row}
use kryvaracode.Db.Models.{User, Database}
use kryvaracode.Db.Users.{get_user, update_user}

abbrev pub credentials_exc : Exception
credentials_exc = app (
    new_error unauthorized (some "Could not validate credentials") none
      (("headers", ("WWW-Authenticate", "Bearer") ∷ []) ∷ []))

-- `get_current_active_user` of the user of a token.
unfoldable pub active_user : Result (Row User) → Result (Row User)
active_user (Result.raised e) = Result.raised e
active_user (Result.ok (key, user)) =
    if user.is_active
    then Result.ok (key, user)
    else Result.raised (raise_app forbidden "Inactive user")

-- `get_current_superuser` of an active user.
unfoldable pub superuser : Result (Row User) → Result (Row User)
superuser (Result.raised e) = Result.raised e
superuser (Result.ok (key, user)) =
    if user.is_superuser
    then Result.ok (key, user)
    else Result.raised (raise_app forbidden "The user doesn't have enough privileges")

module _ (c : Crypto) where
  unfoldable pub get_current_user : ℕ → String → Database → Result (Row User)
  get_current_user now token db = elim (decode_access_token c now token) [
    | none ↦ Result.raised credentials_exc
    | some payload ↦ (elim payload.sub [
      | none ↦ Result.raised credentials_exc
      | some user_id ↦ (elim (get_user user_id db) [
        | none ↦ Result.raised credentials_exc
        | some row ↦ Result.ok row
      ])
    ])
  ]

  unfoldable pub get_current_active_user : ℕ → String → Database → Result (Row User)
  unfolding get_current_user active_user
  get_current_active_user now token db = active_user (get_current_user now token db)

  unfoldable pub get_current_superuser : ℕ → String → Database → Result (Row User)
  unfolding get_current_active_user superuser
  get_current_superuser now token db = superuser (get_current_active_user now token db)

  -- The body of `verify_email`, for the current active user.
  unfoldable pub mark_verified : Database → Result (Row User) → Database × Result (Unit {0})
  mark_verified db (Result.raised e) = (db, Result.raised e)
  mark_verified db (Result.ok (user_id, _)) =
      let stored =
        update_user c user_id
          (record {
            is_verified = some true;
            failed_login_attempts = none;
            lock_until = none;
            password_reset_token = none;
            password_reset_expires = none;
          })
          db in
      (stored.0, Result.ok tt)

  unfoldable pub verify_email : ℕ → String → Database → Database × Result (Unit {0})
  unfolding mark_verified
  verify_email now token db = mark_verified db (get_current_active_user now token db)
