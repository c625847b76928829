-- ===== src/Api/Auth.antt =====
-- src/api/auth/router.py and src/api/deps.py: registration, login, the reset of a password, and the
-- rotation of refresh tokens. A handler answers a value or an exception beside the state it leaves; what
-- is random or read of a clock is an argument. An exception ends the session, which drops what was not
-- committed.
pub mod Current
pub mod Rotation
pub mod Keeps
pub mod Once
pub mod Reset
pub mod Registration
pub mod Session
mod Tests
use Prim.Native.String.{◌++◌ as text_append}
use kryvaracode.Common.{
  ℕ, ◌+◌, ◌*◌, String, Bool, true, false, not, ◌&&◌, Option, none, some, List, [], ◌∷◌, ltb, eqb,
  ◌==◌, is_some, if◌then◌else◌,
}
use kryvaracode.Common.Dict.{lookup, insert}
use kryvaracode.Core.RateLimit.{RateLimiter, allow}
use kryvaracode.Core.Exceptions.{
  Result, Result.ok, Result.raised, Exception, raise_app, new_error, app, http, integrity_error,
  ErrorClass.unauthorized, ErrorClass.forbidden, ErrorClass.conflict,
}
use kryvaracode.Core.Security.{
  Crypto, Payload, create_access_token, create_refresh_token, decode_access_token,
  decode_refresh_token, hash_reset_token, refresh_token_seconds,
}
use kryvaracode.Db.Table.{Row, first}
use kryvaracode.Db.Models.{User, RefreshToken, Database}
use kryvaracode.Db.Users.{
  get_user, get_user_by_email, get_user_by_username, authenticate_user, update_user,
  change_password,
}
use kryvaracode.Db.Users as Users

-- The state behind the handlers.
pub record Server : Type 0 where
  pub db : Database
  pub limiter : Option RateLimiter

-- A request as all handlers see it: the time, the reading of the limiter's clock and the client.
pub record Context : Type 0 where
  pub now : ℕ
  pub tick : ℕ
  pub host : Option String

pub record Token : Type 0 where
  pub access_token : String
  pub refresh_token : String

-- `_client_ip`
abbrev pub client_ip : Context → String
client_ip ctx = elim ctx.host [ none ↦ "unknown" | some host ↦ host ]

-- `_enforce_auth_rate_limit`: the limiter after the call, and whether the request may go on.
unfoldable pub enforce_auth_rate_limit : Context → Option RateLimiter → Option RateLimiter × Bool
enforce_auth_rate_limit ctx limiter = elim limiter [
  | none ↦ (none, true)
  | some r ↦
      let (r', granted) = allow (text_append "auth:" (client_ip ctx)) ctx.tick r in
      (some r', granted)
]

abbrev pub too_many_requests : Exception
too_many_requests = http 429 "Too many requests. Try again shortly."

-- A handler behind the limiter: what it does with the database, or the 429.
unfoldable pub limited :
    {A : Type 0} → Context → (Database → Database × Result A) → Server → Server × Result A
unfolding enforce_auth_rate_limit
limited ctx handler server =
    let (limiter, granted) = enforce_auth_rate_limit ctx server.limiter in
    let handled = handler server.db in
    if granted
    then (record server { limiter = limiter; db = handled.0 }, handled.1)
    else (record server { limiter = limiter }, raised too_many_requests)

-- `db.add(RefreshToken(…))` and `db.commit()`; the column `token` is unique.
unfoldable pub add_refresh_token : ℕ → ℕ → String → Database → Option Database
add_refresh_token now user_id token db =
    let row : RefreshToken = record {
      user_id = user_id;
      expires_at = now + refresh_token_seconds;
      revoked = false;
    } in
    if is_some (lookup token db.refresh_tokens)
    then none
    else some (record db { refresh_tokens = insert token row db.refresh_tokens })

abbrev pub user_not_found : Exception
user_not_found = http 404 "User not found"

abbrev pub reset_seconds : ℕ
reset_seconds = 24 * 3600

-- The reset token's digest is stored and its time not over.
abbrev pub holds_reset_token : String → ℕ → Row User → Bool
holds_reset_token digest now row =
    (elim row.1.hashed_reset_token [ none ↦ false | some stored ↦ stored == digest ])
    && (elim row.1.password_reset_expires [ none ↦ false | some expires ↦ ltb now expires ])

-- `logout` needs no limiter.
abbrev pub revoke : String → RefreshToken → Database → Database
revoke token row db = record db {
  refresh_tokens = insert token (record row { revoked = true }) db.refresh_tokens;
}

unfoldable pub logout : String → Server → Server
logout token server = elim (lookup token server.db.refresh_tokens) [
  | none ↦ server
  | some row ↦ record server { db = revoke token row server.db }
]

-- The row of a refresh token that is neither revoked nor expired.
unfoldable pub live_token : ℕ → String → Database → Option RefreshToken
live_token now token db = elim (lookup token db.refresh_tokens) [
  | none ↦ none
  | some row ↦ if not row.revoked && ltb now row.expires_at then some row else none
]

-- `payload and payload.get("sub") == str(user_id)`
abbrev pub is_subject : ℕ → Option Payload → Bool
is_subject user_id none = false
is_subject user_id (some payload) = elim payload.sub [ none ↦ false | some sub ↦ eqb sub user_id ]

module _ (c : Crypto) where
  -- A fresh pair of tokens, the new refresh token in the table; if the table refuses it, the
  -- database is what it was at the last commit, `old`.
  unfoldable pub issue : ℕ → String → ℕ → Database → Database → Database × Result Token
  issue now jti user_id old db =
      let raw_refresh = create_refresh_token c now jti user_id in
      elim (add_refresh_token now user_id raw_refresh db) [
        | none ↦ (old, raised integrity_error)
        | some db' ↦ (
          db',
          ok (record {
            access_token = create_access_token c now user_id;
            refresh_token = raw_refresh;
          }),
        )
      ]

  -- The body of `login_for_access_token`.
  unfoldable pub grant_tokens : ℕ → String → String → String → Database → Database × Result Token
  unfolding issue
  grant_tokens now jti username password db =
      let (db', user) = authenticate_user c now username password db in
      elim user [
        | none ↦ (db', raised (raise_app unauthorized "Incorrect username or password"))
        | some (user_id, _) ↦ issue now jti user_id db' db'
      ]

  unfoldable pub login_for_access_token :
      Context → String → String → String → Server → Server × Result Token
  unfolding grant_tokens limited
  login_for_access_token ctx jti username password =
      limited ctx (grant_tokens ctx.now jti username password)

  -- The body of `create_user`.
  unfoldable pub register :
      ℕ
      → String
      → String
      → String
      → String
      → Option String
      → Database
      → Database × Result (Row User)
  register key salt email username password full_name db =
      if is_some (get_user_by_email email db)
      then (db, raised (raise_app conflict "Email already registered"))
      else (if is_some (get_user_by_username username db)
          then (db, raised (raise_app conflict "Username already taken"))
          else Users.create_user c key salt email username password full_name db)

  unfoldable pub create_user :
      Context
      → ℕ
      → String
      → String
      → String
      → String
      → Option String
      → Server
      → Server × Result (Row User)
  unfolding register limited
  create_user ctx key salt email username password full_name =
      limited ctx (register key salt email username password full_name)

  -- The body of `request_password_reset`; `token` is the random one, sent by other means.
  unfoldable pub store_reset_token : ℕ → String → String → Database → Database × Result (Unit {0})
  store_reset_token now token email db = elim (get_user_by_email email db) [
    | none ↦ (db, raised (http 404 "User with this email not found"))
    | some (user_id, _) ↦
        let stored =
          update_user c user_id
            (record {
              is_verified = none;
              failed_login_attempts = none;
              lock_until = none;
              password_reset_token = some token;
              password_reset_expires = some (now + reset_seconds);
            })
            db in
        (stored.0, ok tt)
  ]

  unfoldable pub request_password_reset :
      Context → String → String → Server → Server × Result (Unit {0})
  unfolding store_reset_token limited
  request_password_reset ctx token email = limited ctx (store_reset_token ctx.now token email)

  -- The body of `reset_password`.
  unfoldable pub spend_reset_token :
      ℕ → String → String → String → Database → Database × Result (Unit {0})
  spend_reset_token now salt token new_password db =
      elim (first (holds_reset_token (hash_reset_token c token) now) db.users) [
        | none ↦ (db, raised (http 400 "Invalid or expired reset token"))
        | some (user_id, _) ↦
            let (db', changed) = change_password c salt user_id new_password db in
            elim changed [
              | raised e ↦ (db', raised e)
              | ok none ↦ (db', raised user_not_found)
              | ok (some _) ↦ (db', ok tt)
            ]
      ]

  unfoldable pub reset_password :
      Context → String → String → String → Server → Server × Result (Unit {0})
  unfolding spend_reset_token limited
  reset_password ctx salt token new_password =
      limited ctx (spend_reset_token ctx.now salt token new_password)

  -- The body of `refresh_tokens`: the old token is revoked and a new one added in one commit.
  unfoldable pub rotate : ℕ → String → String → Database → Database × Result Token
  unfolding issue
  rotate now jti token db = elim (live_token now token db) [
    | none ↦ (db, raised (raise_app unauthorized "Invalid or expired refresh token"))
    | some row ↦
        if is_subject row.user_id (decode_refresh_token c now token)
        then issue now jti row.user_id db (revoke token row db)
        else (db, raised (raise_app unauthorized "Invalid refresh token"))
  ]

  unfoldable pub refresh_tokens : Context → String → String → Server → Server × Result Token
  unfolding rotate limited
  refresh_tokens ctx jti token = limited ctx (rotate ctx.now jti token)
