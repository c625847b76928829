-- ===== src/Api/Auth/Tests.antt =====
-- Logins, rotations and resets on a server with one user, for src/api/auth/router.py.
use kryvaracode.Common.{
  ℕ, ◌≤◌, ◌≡◌, refl, true, none, some, String, List, [], ◌∷◌, ◌++◌, ◌||◌, arith, is_some,
  if◌then◌else◌,
}
use kryvaracode.Common.Dict.{lookup}
use kryvaracode.Core.Exceptions.{
  Result.ok, Result.raised, http, raise_app, ErrorClass.conflict, ErrorClass.forbidden,
}
use kryvaracode.Core.Security.{
  get_password_hash, verify_password, create_refresh_token, create_access_token,
}
use kryvaracode.Core.Security.Unary.{unary_crypto, unary_crypto-IsSound}
use kryvaracode.Db.Models.{User, Database, empty_database}
use kryvaracode.Db.Table.{first}
use kryvaracode.Db.Users.{
  new_user, set_user, authenticate_user, get_user_by_username, get_user_by_email, logged_in,
}
use kryvaracode.Db.Users.Passwords.{renewed}
use kryvaracode.Api.Auth.{
  Server, Context, Token, register, grant_tokens, issue, add_refresh_token, store_reset_token,
  spend_reset_token,
}
use kryvaracode.Api.Auth.Rotation.{
  Call, Call.logs_in, Call.refreshes, Call.logs_out, accepted, serve,
}
use kryvaracode.Api.Auth.Once.{accepted-le-one}
use kryvaracode.Api.Auth.Registration.{IsUnique, IsOrdinary, register-IsUnique}
use kryvaracode.Api.Auth.Session.{LoggedIn, get_current_active_user-grant_tokens}
use kryvaracode.Api.Auth.Current.{get_current_active_user}
use kryvaracode.Api.Auth.Reset.{with_reset_token, spend_reset_token-store_reset_token}

abbrev ann : User
unfolding new_user get_password_hash unary_crypto
ann = new_user "ann@x" "ann" (get_password_hash unary_crypto "" "One!") none

abbrev one_user : Database
unfolding empty_database
one_user = record empty_database { users = (1, ann) ∷ [] }

abbrev server : Server
server = record { db = one_user; limiter = none }

abbrev at : ℕ → Context
at now = record { now = now; tick = now; host = none }

abbrev first_token : String
first_token = create_refresh_token unary_crypto 10 "a" 1

abbrev calls : List Call
calls =
    logs_in (at 10) "a" "ann" "One!"
    ∷ refreshes (at 20) "b" first_token
    ∷ refreshes (at 30) "c" first_token
    ∷ []

accepted-le-one_example :
    (accepted unary_crypto first_token calls server ≤ 1)
    × (is_some (lookup first_token server.db.refresh_tokens) ≡ true
        → accepted unary_crypto first_token calls (serve unary_crypto (logs_out first_token) server)
          ≡ 0)
accepted-le-one_example = accepted-le-one unary_crypto first_token calls server

spend_reset_token-store_reset_token_example :
    let asked = (store_reset_token unary_crypto 5 "secret" "ann@x" one_user).0 in
    let reset = spend_reset_token unary_crypto 50 "" "secret" "Two!" asked in
    (reset ≡ (
      set_user 1
          (renewed unary_crypto "" "Two!" (with_reset_token unary_crypto 5 "secret" ann))
          one_user,
      ok tt,
    ))
    × (spend_reset_token unary_crypto 60 "" "secret" "One!" reset.0
        ≡ (reset.0, raised (http 400 "Invalid or expired reset token")))
unfolding one_user ann first get_user_by_email verify_password get_password_hash unary_crypto
    new_user empty_database
spend_reset_token-store_reset_token_example =
    spend_reset_token-store_reset_token unary_crypto 5 50 60 "" "" "secret" "ann@x" "Two!" "One!"
      one_user 1 ann (refl, tt) refl (λ t. refl) (omega arith) refl

register-IsUnique_example :
    let done = register unary_crypto 2 "" "bob@x" "bob" "Two!" none one_user in
    IsUnique done.0.users
    × (done.0 ≡ (
        if is_some (get_user_by_email "bob@x" one_user)
          || is_some (get_user_by_username "bob" one_user)
        then one_user
        else record one_user {
          users =
              one_user.users
              ++ (2, new_user "bob@x" "bob" (get_password_hash unary_crypto "" "Two!") none) ∷ [];
        }))
    × (done.1 ≡ (
        if is_some (get_user_by_email "bob@x" one_user)
        then raised (raise_app conflict "Email already registered")
        else (if is_some (get_user_by_username "bob" one_user)
            then raised (raise_app conflict "Username already taken")
            else ok (2, new_user "bob@x" "bob" (get_password_hash unary_crypto "" "Two!") none))))
    × (get_user_by_username "bob" done.0 ≡ (
        if is_some (get_user_by_email "bob@x" one_user)
          || is_some (get_user_by_username "bob" one_user)
        then get_user_by_username "bob" one_user
        else some (2, new_user "bob@x" "bob" (get_password_hash unary_crypto "" "Two!") none)))
    × IsOrdinary (new_user "bob@x" "bob" (get_password_hash unary_crypto "" "Two!") none)
unfolding one_user ann empty_database first
register-IsUnique_example =
    register-IsUnique unary_crypto 2 "" "bob@x" "bob" "Two!" none one_user ((refl, refl), tt)

abbrev ann_tokens : Token
ann_tokens = record {
  access_token = create_access_token unary_crypto 10 1;
  refresh_token = first_token;
}

abbrev logged_db : Database
logged_db = (grant_tokens unary_crypto 10 "a" "ann" "One!" one_user).0

get_current_active_user-grant_tokens_example :
    (key : ℕ) × (user : User) × LoggedIn unary_crypto 10 "ann" "One!" one_user logged_db ann_tokens
      key user
    × (get_current_active_user unary_crypto 1000 ann_tokens.access_token logged_db ≡ (
        if user.is_active
        then ok (key, logged_in user)
        else raised (raise_app forbidden "Inactive user")))
unfolding one_user ann empty_database grant_tokens issue add_refresh_token authenticate_user
    get_user_by_username first verify_password get_password_hash unary_crypto lookup
get_current_active_user-grant_tokens_example =
    get_current_active_user-grant_tokens unary_crypto unary_crypto-IsSound 10 1000 "a" "ann" "One!"
      one_user logged_db ann_tokens (refl, tt) refl (omega arith)
