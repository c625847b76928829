-- ===== src/Api/Auth/Rotation.antt =====
-- src/api/auth/router.py: a refresh token is good for one rotation.
use kryvaracode.Common.{
  ℕ, ◌+◌, ◌≡◌, refl, String, Bool, true, false, ◌&&◌, Option, none, some, List, [], ◌∷◌, arith,
  eq_iff, ◌==◌, if◌then◌else◌, Bool-cases, Option-cases, inl, inr,
}
use kryvaracode.Common.Dict.{lookup, insert, lookup-insert}
use kryvaracode.Core.Exceptions.{Result, is_ok}
use kryvaracode.Core.Security.{Crypto, create_refresh_token, refresh_token_seconds}
use kryvaracode.Db.Models.{RefreshToken, Database}
use kryvaracode.Db.Users.{authenticate_user, change_password, update_user}
use kryvaracode.Db.Users as Users
use kryvaracode.Api.Auth.{
  Server, Context, enforce_auth_rate_limit, limited, add_refresh_token, revoke, logout, issue,
  login_for_access_token, create_user, request_password_reset, reset_password, refresh_tokens,
}
use kryvaracode.Api.Auth.Current.{verify_email}

-- The requests that change something.
pub data Call : Type 0 where
  logs_in : Context → String → String → String → Call
  registers : Context → ℕ → String → String → String → String → Option String → Call
  requests_reset : Context → String → String → Call
  resets : Context → String → String → String → Call
  refreshes : Context → String → String → Call
  logs_out : String → Call
  verifies : ℕ → String → Call

-- The token is in the table, revoked.
abbrev pub is_spent : String → Database → Bool
is_spent token db = elim (lookup token db.refresh_tokens) [ none ↦ false | some row ↦ row.revoked ]

pub limited_lem :
    {A : Type 0} (ctx : Context) (handler : Database → Database × Result A) (server : Server)
    → ((limited ctx handler server).0.db ≡ (
        if (enforce_auth_rate_limit ctx server.limiter).1
        then (handler server.db).0
        else server.db))
      × (is_ok (limited ctx handler server).1 ≡ (
          if (enforce_auth_rate_limit ctx server.limiter).1
          then is_ok (handler server.db).1
          else false))
unfolding limited
limited_lem ctx handler server = elim (Bool-cases (enforce_auth_rate_limit ctx server.limiter).1) [
  | inl granted ↦ rw (granted, limited) (refl, refl)
  | inr refused ↦ rw (refused, limited) (refl, refl)
]

module _ (c : Crypto) where
  unfoldable pub serve : Call → Server → Server
  serve (logs_in ctx jti username password) s =
      (login_for_access_token c ctx jti username password s).0
  serve (registers ctx key salt email username password name) s =
      (create_user c ctx key salt email username password name s).0
  serve (requests_reset ctx token email) s = (request_password_reset c ctx token email s).0
  serve (resets ctx salt token password) s = (reset_password c ctx salt token password s).0
  serve (refreshes ctx jti token) s = (refresh_tokens c ctx jti token s).0
  serve (logs_out token) s = logout token s
  serve (verifies now token) s = record s { db = (verify_email c now token s.db).0 }

  -- The call is a rotation of the token that succeeds.
  abbrev pub rotates : String → Call → Server → Bool
  rotates token (refreshes ctx jti presented) s =
      (presented == token) && is_ok (refresh_tokens c ctx jti presented s).1
  rotates token _ s = false

  -- How often the token is accepted in a run of calls.
  unfoldable pub accepted : String → List Call → Server → ℕ
  accepted token [] s = 0
  accepted token (call ∷ calls) s =
      (if rotates token call s then 1 else 0) + accepted token calls (serve call s)

  add_refresh_token-is_spent :
      (now user_id : ℕ) (new token : String) (db db' : Database)
      → is_spent token db ≡ true
      → add_refresh_token now user_id new db ≡ some db'
      → is_spent token db' ≡ true
  unfolding add_refresh_token
  add_refresh_token-is_spent now user_id new token db db' spent added =
      let row : RefreshToken = record {
        user_id = user_id;
        expires_at = now + refresh_token_seconds;
        revoked = false;
      } in
      elim (Option-cases (lookup new db.refresh_tokens)) [
        | inl free ↦
            let grown : insert new row db.refresh_tokens ≡ db'.refresh_tokens =
              ground (arith, free) in
            ground
              (arith, grown, free, lookup-insert new token row db.refresh_tokens, eq_iff new token)
        | inr (taken, e) ↦ absurd (ground (arith, e))
      ]

  pub issue-is_spent :
      (now user_id : ℕ) (jti token : String) (old db : Database)
      → is_spent token old ≡ true
      → is_spent token db ≡ true
      → is_spent token (issue c now jti user_id old db).0 ≡ true
  unfolding issue
  issue-is_spent now user_id jti token old db h k =
      let raw = create_refresh_token c now jti user_id in
      elim (Option-cases (add_refresh_token now user_id raw db)) [
        | inl clash ↦ rw (clash, issue) h
        | inr (db', added) ↦
            rw (added, issue) (add_refresh_token-is_spent now user_id raw token db db' k added)
      ]

  pub issue-ok :
      (now user_id : ℕ) (jti token : String) (old db : Database)
      → is_spent token db ≡ true
      → is_ok (issue c now jti user_id old db).1 ≡ true
      → is_spent token (issue c now jti user_id old db).0 ≡ true
  unfolding issue
  issue-ok now user_id jti token old db h good =
      let raw = create_refresh_token c now jti user_id in
      elim (Option-cases (add_refresh_token now user_id raw db)) [
        | inl clash ↦ absurd (ground (arith, clash))
        | inr (db', added) ↦
            rw (added, issue) (add_refresh_token-is_spent now user_id raw token db db' h added)
      ]

  pub revoke-is_spent :
      (token other : String) (row : RefreshToken) (db : Database)
      → (is_spent token db ≡ true → is_spent token (revoke other row db) ≡ true)
        × (is_spent token (revoke token row db) ≡ true)
  revoke-is_spent token other row db =
      let gone = record row { revoked = true } in
      (
        λ h.
            ground (arith, eq_iff other token, lookup-insert other token gone db.refresh_tokens, h),
        ground (arith, eq_iff token token, lookup-insert token token gone db.refresh_tokens),
      )

  -- No operation on users touches the tokens.
  pub authenticate_user-tokens :
      (now : ℕ) (a b : String) (db : Database)
      → (authenticate_user c now a b db).0.refresh_tokens ≡ db.refresh_tokens
  unfolding authenticate_user
  authenticate_user-tokens now a b db = ground arith

  pub change_password-tokens :
      (salt : String) (key : ℕ) (a : String) (db : Database)
      → (change_password c salt key a db).0.refresh_tokens ≡ db.refresh_tokens
  unfolding change_password
  change_password-tokens salt key a db = ground arith

  pub update_user-tokens :
      (key : ℕ) (new : Users.UserUpdate) (db : Database)
      → (update_user c key new db).0.refresh_tokens ≡ db.refresh_tokens
  unfolding update_user
  update_user-tokens key new db = ground arith

  pub create_user-tokens :
      (key : ℕ) (salt a b d : String) (name : Option String) (db : Database)
      → (Users.create_user c key salt a b d name db).0.refresh_tokens ≡ db.refresh_tokens
  unfolding Users.create_user
  create_user-tokens key salt a b d name db = ground arith
