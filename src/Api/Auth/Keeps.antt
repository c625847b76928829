-- ===== src/Api/Auth/Keeps.antt =====
-- src/api/auth/router.py: no handler gives a spent refresh token back.
use kryvaracode.Common.{
  ℕ, ◌+◌, ◌≡◌, String, true, Option, none, some, arith, Bool-cases, Option-cases, inl, inr,
}
use kryvaracode.Core.Exceptions.{Result, Result.ok, Result.raised}
use kryvaracode.Core.Security.{Crypto, decode_refresh_token}
use kryvaracode.Db.Models.{User, Database}
use kryvaracode.Db.Users.{
  UserUpdate, authenticate_user, change_password, update_user, get_user_by_email,
}
use kryvaracode.Db.Table.{first, Row}
use kryvaracode.Api.Auth.{
  Server, Context, enforce_auth_rate_limit, limited, revoke, live_token, is_subject, grant_tokens,
  register, store_reset_token, spend_reset_token, rotate, reset_seconds, hash_reset_token,
  holds_reset_token,
}
use kryvaracode.Api.Auth.Current.{verify_email, mark_verified, get_current_active_user}
use kryvaracode.Api.Auth.Rotation.{
  is_spent, limited_lem, issue-is_spent, revoke-is_spent, authenticate_user-tokens,
  change_password-tokens, update_user-tokens, create_user-tokens,
}

module _ (c : Crypto) (token : String) where
  abbrev pub Keeps {ℓ} : {A : Type ℓ} → (Database → Database × A) → Type 0
  Keeps handler = (db : Database) → is_spent token db ≡ true → is_spent token (handler db).0 ≡ true

  -- A table of tokens that is the same has the same tokens spent.
  pub is_spent-same :
      (db db' : Database)
      → db'.refresh_tokens ≡ db.refresh_tokens
      → is_spent token db ≡ true
      → is_spent token db' ≡ true
  is_spent-same db db' same h = ground (arith, same)

  pub limited-Keeps :
      {A : Type 0} (ctx : Context) (handler : Database → Database × Result A) (s : Server)
      → Keeps handler
      → is_spent token s.db ≡ true
      → is_spent token (limited ctx handler s).0.db ≡ true
  limited-Keeps ctx handler s keeps h =
      let (after, _) = limited_lem ctx handler s in
      elim (Bool-cases (enforce_auth_rate_limit ctx s.limiter).1) [
        | inl granted ↦
            let next : (limited ctx handler s).0.db ≡ (handler s.db).0 =
              ground (arith, after, granted) in
            rw next (keeps s.db h)
        | inr refused ↦
            let next : (limited ctx handler s).0.db ≡ s.db = ground (arith, after, refused) in
            rw next h
      ]

  pub grant_tokens-Keeps :
      (now : ℕ) (jti username password : String) → Keeps (grant_tokens c now jti username password)
  unfolding grant_tokens
  grant_tokens-Keeps now jti username password db h =
      let db' = (authenticate_user c now username password db).0 in
      let kept = is_spent-same db db' (authenticate_user-tokens c now username password db) h in
      elim (Option-cases (authenticate_user c now username password db).1) [
        | inl bad ↦ rw (bad, grant_tokens) kept
        | inr ((user_id, user), good) ↦
            rw (good, grant_tokens) (issue-is_spent c now user_id jti token db' db' kept kept)
      ]

  pub register-Keeps :
      (key : ℕ) (salt email username password : String) (name : Option String)
      → Keeps (register c key salt email username password name)
  unfolding register
  register-Keeps key salt email username password name db h =
      ground (arith, create_user-tokens c key salt email username password name db)

  pub store_reset_token-Keeps :
      (now : ℕ) (t email : String) → Keeps (store_reset_token c now t email)
  unfolding store_reset_token
  store_reset_token-Keeps now t email db h = elim (Option-cases (get_user_by_email email db)) [
    | inl absent ↦ rw (absent, store_reset_token) h
    | inr ((key, user), found) ↦
        let new : UserUpdate = record {
          is_verified = none;
          failed_login_attempts = none;
          lock_until = none;
          password_reset_token = some t;
          password_reset_expires = some (now + reset_seconds);
        } in
        rw (found, store_reset_token)
          (is_spent-same db (update_user c key new db).0 (update_user-tokens c key new db) h)
  ]

  pub spend_reset_token-Keeps :
      (now : ℕ) (salt t password : String) → Keeps (spend_reset_token c now salt t password)
  unfolding spend_reset_token
  spend_reset_token-Keeps now salt t password db h =
      elim (Option-cases (first (holds_reset_token (hash_reset_token c t) now) db.users)) [
        | inl absent ↦ rw (absent, spend_reset_token) h
        | inr ((key, user), found) ↦
            let kept =
              is_spent-same db (change_password c salt key password db).0
                (change_password-tokens c salt key password db) h in
            rw (found, spend_reset_token) (ground (arith, kept))
      ]

  mark_verified-Keeps :
      (db : Database) (current : Result (Row User))
      → is_spent token db ≡ true
      → is_spent token (mark_verified c db current).0 ≡ true
  unfolding mark_verified
  mark_verified-Keeps db (raised e) h = h
  mark_verified-Keeps db (ok (key, user)) h =
      let new : UserUpdate = record {
        is_verified = some true;
        failed_login_attempts = none;
        lock_until = none;
        password_reset_token = none;
        password_reset_expires = none;
      } in
      is_spent-same db (update_user c key new db).0 (update_user-tokens c key new db) h

  pub verify_email-Keeps : (now : ℕ) (t : String) → Keeps (verify_email c now t)
  unfolding verify_email
  verify_email-Keeps now t db h = mark_verified-Keeps db (get_current_active_user c now t db) h

  pub rotate-Keeps : (now : ℕ) (jti t : String) → Keeps (rotate c now jti t)
  unfolding rotate
  rotate-Keeps now jti t db h = elim (Option-cases (live_token now t db)) [
    | inl dead ↦ rw (dead, rotate) h
    | inr (row, live) ↦ elim (Bool-cases (is_subject row.user_id (decode_refresh_token c now t))) [
      | inl own ↦
          let kept = (revoke-is_spent c token t row db).0 h in
          rw (live, rotate)
            (rw own (issue-is_spent c now row.user_id jti token db (revoke t row db) h kept))
      | inr other ↦ rw (live, rotate) (rw other h)
    ]
  ]
