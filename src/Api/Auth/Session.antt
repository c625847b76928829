-- ===== src/Api/Auth/Session.antt =====
-- src/api/auth/router.py and src/api/deps.py: the access token of a login names the user who logged in.
-- The body of the handler, behind the limiter.
use kryvaracode.Common.{
  ℕ, ◌+◌, ◌<◌, ◌≡◌, ◌≢◌, ◌∙◌, sym, String, true, false, none, some, arith, if◌then◌else◌,
  Bool-cases, Option-cases, inl, inr,
}
use kryvaracode.Core.Exceptions.{Result.ok, Result.raised, raise_app, ErrorClass.forbidden}
use kryvaracode.Core.Security.{
  Crypto, IsSound, Payload, TokenType.access, verify_password, create_access_token,
  decode_access_token, access_token_seconds,
}
use kryvaracode.Db.Table.Laws.{IsKeyed, get-put, get-first}
use kryvaracode.Db.Models.{User, Database}
use kryvaracode.Db.Users.{
  get_user, get_user_by_username, has_username, set_user, is_locked, logged_in, authenticate_user,
}
use kryvaracode.Db.Users.Lockout.{authenticate_user-found, authenticate_user-absent}
use kryvaracode.Api.Auth.{Token, grant_tokens, issue, add_refresh_token}
use kryvaracode.Api.Auth.Current.{get_current_user, get_current_active_user, active_user}

module _ (c : Crypto) where
  issue_lem :
      (now user_id : ℕ) (jti : String) (old db db' : Database) (token : Token)
      → issue c now jti user_id old db ≡ (db', ok token)
      → (db'.users ≡ db.users) × (token.access_token ≡ create_access_token c now user_id)
  unfolding issue add_refresh_token
  issue_lem now user_id jti old db db' token done = ground arith

  grant_tokens-refused :
      (now : ℕ) (jti username password : String) (db db' : Database) (token : Token)
      → (authenticate_user c now username password db).1 ≡ none
      → grant_tokens c now jti username password db ≢ (db', ok token)
  unfolding grant_tokens
  grant_tokens-refused now jti username password db db' token bad = ground (arith, bad)

  grant_tokens-accepted :
      (now : ℕ) (jti username password : String) (db db₁ : Database) (key : ℕ) (user : User)
      → authenticate_user c now username password db ≡ (db₁, some (key, user))
      → grant_tokens c now jti username password db ≡ issue c now jti key db₁ db₁
  unfolding grant_tokens
  grant_tokens-accepted now jti username password db db₁ key user good = ground (arith, good)

  -- The account that a login found, and what the login left of it.
  abbrev pub LoggedIn : ℕ → String → String → Database → Database → Token → ℕ → User → Type 0
  LoggedIn now username password db db' token key user =
      (get_user_by_username username db ≡ some (key, user))
      × (verify_password c password user.hashed_password ≡ true)
      × (is_locked now user ≡ false)
      × (get_user key db' ≡ some (key, logged_in user))
      × (token.access_token ≡ create_access_token c now key)

  grant_tokens-LoggedIn :
      (now : ℕ) (jti username password : String) (db db' : Database) (token : Token)
      → IsKeyed db.users
      → grant_tokens c now jti username password db ≡ (db', ok token)
      → (key : ℕ) × (user : User) × LoggedIn now username password db db' token key user
  unfolding get_user get_user_by_username
  grant_tokens-LoggedIn now jti username password db db' token k done =
      let refused = grant_tokens-refused now jti username password db db' token in
      elim (Option-cases (get_user_by_username username db)) [
        | inl absent ↦
            let idle = authenticate_user-absent c now username password db absent in
            absurd (refused (ground (arith, idle)) done)
        | inr ((key, user), found) ↦
            let new = authenticate_user-found c now username password db key user found in
            elim (Bool-cases (is_locked now user)) [
              | inl locked ↦ absurd (refused (ground (arith, new, locked)) done)
              | inr free ↦ elim (Bool-cases (verify_password c password user.hashed_password)) [
                | inr wrong ↦ absurd (refused (ground (arith, new, free, wrong)) done)
                | inl right ↦
                    let db₁ = set_user key (logged_in user) db in
                    let good : authenticate_user c now username password db
                        ≡ (db₁, some (key, logged_in user)) =
                      ground (arith, new, free, right) in
                    let path =
                      grant_tokens-accepted now jti username password db db₁ key (logged_in user)
                        good in
                    let (same, names) = issue_lem now key jti db₁ db₁ db' token (sym path ∙ done) in
                    let here = get-first (has_username username) db.users k found in
                    let there = get-put key key (logged_in user) db.users in
                    (key, user, (found, right, free, ground (arith, same, here, there), names))
              ]
            ]
      ]

  -- A login that succeeds compared the right password on an account that was not locked. Until the access
  -- token expires, the token names that account: its user, with the count of failures cleared, is the
  -- current one if active, and is refused as inactive otherwise.
  pub get_current_active_user-grant_tokens :
      IsSound c
      → (now later : ℕ) (jti username password : String) (db db' : Database) (token : Token)
      → IsKeyed db.users
      → grant_tokens c now jti username password db ≡ (db', ok token)
      → later < now + access_token_seconds
      → (key : ℕ) × (user : User) × LoggedIn now username password db db' token key user
        × (get_current_active_user c later token.access_token db' ≡ (
            if user.is_active
            then ok (key, logged_in user)
            else raised (raise_app forbidden "Inactive user")))
  unfolding get_current_active_user get_current_user active_user decode_access_token
      create_access_token
  get_current_active_user-grant_tokens sound now later jti username password db db' token k done h =
      let (key, user, login) =
        grant_tokens-LoggedIn now jti username password db db' token k done in
      let payload : Payload = record {
        sub = some key;
        exp = now + access_token_seconds;
        type = access;
        jti = none;
      } in
      let decoded = sound.decodes payload later h in
      let (_, _, _, there, names) = login in
      (key, user, login, ground (arith, decoded, there, names))
