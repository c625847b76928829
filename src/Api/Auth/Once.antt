-- ===== src/Api/Auth/Once.antt =====
-- src/api/auth/router.py: a refresh token is accepted once.
use kryvaracode.Common.{
  ℕ, ◌≤◌, ◌≡◌, refl, sym, subst, String, true, false, none, List, [], ◌∷◌, arith, eq_iff, eq_self,
  ◌==◌, is_some, Bool-cases, Option-cases, inl, inr,
}
use kryvaracode.Common.Dict.{lookup}
use kryvaracode.Core.Exceptions.{is_ok}
use kryvaracode.Core.Security.{Crypto, decode_refresh_token}
use kryvaracode.Db.Models.{Database}
use kryvaracode.Api.Auth.{
  Server, Context, enforce_auth_rate_limit, limited, revoke, logout, live_token, is_subject, issue,
  grant_tokens, login_for_access_token, register, create_user, store_reset_token,
  request_password_reset, spend_reset_token, reset_password, rotate, refresh_tokens,
}
use kryvaracode.Api.Auth.Rotation.{
  Call, Call.logs_in, Call.registers, Call.requests_reset, Call.resets, Call.refreshes,
  Call.logs_out, Call.verifies, is_spent, serve, rotates, accepted, limited_lem, issue-ok,
  revoke-is_spent,
}
use kryvaracode.Api.Auth.Keeps.{
  limited-Keeps, grant_tokens-Keeps, register-Keeps, store_reset_token-Keeps,
  spend_reset_token-Keeps, verify_email-Keeps, rotate-Keeps,
}

module _ (c : Crypto) (token : String) where
  live_token-is_spent :
      (now : ℕ) (db : Database) → is_spent token db ≡ true → live_token now token db ≡ none
  unfolding live_token
  live_token-is_spent now db h = ground arith

  -- A rotation that succeeds spends its token, and a spent token is refused.
  rotate-is_spent :
      (now : ℕ) (jti : String) (db : Database)
      → (is_ok (rotate c now jti token db).1 ≡ true
          → is_spent token (rotate c now jti token db).0 ≡ true)
        × (is_spent token db ≡ true → is_ok (rotate c now jti token db).1 ≡ false)
  unfolding rotate
  rotate-is_spent now jti db = (
    λ good. elim (Option-cases (live_token now token db)) [
      | inl dead ↦ absurd (ground (arith, dead))
      | inr (row, live) ↦
          elim (Bool-cases (is_subject row.user_id (decode_refresh_token c now token))) [
            | inl own ↦
                let spent = (revoke-is_spent c token token row db).1 in
                let done : rotate c now jti token db
                    ≡ issue c now jti row.user_id db (revoke token row db) =
                  rw (live, rotate) (rw own refl) in
                rw done (
                  issue-ok c now row.user_id jti token db (revoke token row db) spent
                    (ground (arith, good, done)))
            | inr other ↦
                let refused : is_ok (rotate c now jti token db).1 ≡ false =
                  rw (live, rotate) (rw other refl) in
                absurd (ground (arith, refused))
          ]
    ],
    λ h. rw (live_token-is_spent now db h, rotate) refl,
  )

  logout-is_spent :
      (t : String) (s : Server) → is_spent token s.db ≡ true → is_spent token (logout t s).db ≡ true
  unfolding logout
  logout-is_spent t s h = elim (Option-cases (lookup t s.db.refresh_tokens)) [
    | inl absent ↦ let idle : logout t s ≡ s = rw (absent, logout) refl in rw idle h
    | inr (row, present) ↦
        let next : (logout t s).db ≡ revoke t row s.db = rw (present, logout) refl in
        rw next ((revoke-is_spent c token t row s.db).0 h)
  ]

  logout-spends :
      (s : Server)
      → is_some (lookup token s.db.refresh_tokens) ≡ true
      → is_spent token (logout token s).db ≡ true
  unfolding logout
  logout-spends s h = elim (Option-cases (lookup token s.db.refresh_tokens)) [
    | inl absent ↦ absurd (ground (arith, absent))
    | inr (row, present) ↦
        let next : (logout token s).db ≡ revoke token row s.db = rw (present, logout) refl in
        rw next ((revoke-is_spent c token token row s.db).1)
  ]

  refresh_tokens-is_spent :
      (ctx : Context) (jti : String) (s : Server)
      → (is_ok (refresh_tokens c ctx jti token s).1 ≡ true
          → is_spent token (refresh_tokens c ctx jti token s).0.db ≡ true)
        × (is_spent token s.db ≡ true → is_ok (refresh_tokens c ctx jti token s).1 ≡ false)
  unfolding refresh_tokens
  refresh_tokens-is_spent ctx jti s =
      let (after, answer) = limited_lem ctx (rotate c ctx.now jti token) s in
      let (spends, refused) = rotate-is_spent ctx.now jti s.db in
      (
        λ good. elim (Bool-cases (enforce_auth_rate_limit ctx s.limiter).1) [
          | inl granted ↦
              let next : (limited ctx (rotate c ctx.now jti token) s).0.db
                  ≡ (rotate c ctx.now jti token s.db).0 =
                ground (arith, after, granted) in
              subst (λ d. is_spent token d ≡ true) (sym next)
                (spends (ground (arith, answer, granted, good)))
          | inr refused ↦ absurd (ground (arith, answer, refused, good))
        ],
        λ h. ground (arith, answer, refused h),
      )

  serve-is_spent :
      (call : Call) (s : Server)
      → is_spent token s.db ≡ true
      → is_spent token (serve c call s).db ≡ true
  unfolding serve login_for_access_token create_user request_password_reset reset_password
      refresh_tokens logout
  serve-is_spent (logs_in ctx jti username password) s h =
      limited-Keeps c token ctx (grant_tokens c ctx.now jti username password) s
        (grant_tokens-Keeps c token ctx.now jti username password) h
  serve-is_spent (registers ctx key salt email username password name) s h =
      limited-Keeps c token ctx (register c key salt email username password name) s
        (register-Keeps c token key salt email username password name) h
  serve-is_spent (requests_reset ctx t email) s h =
      limited-Keeps c token ctx (store_reset_token c ctx.now t email) s
        (store_reset_token-Keeps c token ctx.now t email) h
  serve-is_spent (resets ctx salt t password) s h =
      limited-Keeps c token ctx (spend_reset_token c ctx.now salt t password) s
        (spend_reset_token-Keeps c token ctx.now salt t password) h
  serve-is_spent (refreshes ctx jti t) s h =
      limited-Keeps c token ctx (rotate c ctx.now jti t) s (rotate-Keeps c token ctx.now jti t) h
  serve-is_spent (logs_out t) s h = logout-is_spent t s h
  serve-is_spent (verifies now t) s h = verify_email-Keeps c token now t s.db h

  abbrev Spends : Context → String → Server → String → Type 0
  Spends ctx jti s t =
      (rotates c token (refreshes ctx jti t) s ≡ true
        → is_spent token (serve c (refreshes ctx jti t) s).db ≡ true)
      × (is_spent token s.db ≡ true → rotates c token (refreshes ctx jti t) s ≡ false)

  -- A call that rotates the token spends it, and after that no call rotates it.
  rotates-is_spent :
      (call : Call) (s : Server)
      → (rotates c token call s ≡ true → is_spent token (serve c call s).db ≡ true)
        × (is_spent token s.db ≡ true → rotates c token call s ≡ false)
  unfolding serve refresh_tokens
  rotates-is_spent (refreshes ctx jti t) s = elim (Bool-cases (t == token)) [
    | inl own ↦
        let (spends, refused) = refresh_tokens-is_spent ctx jti s in
        subst (Spends ctx jti s) (sym ((eq_iff t token).0 own)) (
          λ good. spends (ground (arith, good, eq_self token)),
          λ h. ground (arith, refused h, eq_self token),
        )
    | inr other ↦ (λ good. absurd (ground (arith, other)), λ h. rw other refl)
  ]
  rotates-is_spent call s = (λ good. cc, λ h. refl)

  accepted-is_spent :
      (calls : List Call) (s : Server) → is_spent token s.db ≡ true → accepted c token calls s ≡ 0
  unfolding accepted
  accepted-is_spent [] s h = refl
  accepted-is_spent (call ∷ calls) s h = ground (
    arith,
    (rotates-is_spent call s).1,
    accepted-is_spent calls (serve c call s),
    serve-is_spent call s,
  )

  accepted_once : (calls : List Call) (s : Server) → accepted c token calls s ≤ 1
  unfolding accepted
  accepted_once [] s = omega arith
  accepted_once (call ∷ calls) s = elim (Bool-cases (rotates c token call s)) [
    | inl good ↦
        let gone = accepted-is_spent calls (serve c call s) ((rotates-is_spent call s).0 good) in
        rw good (omega (arith, gone))
    | inr other ↦ rw other (omega (arith, accepted_once calls (serve c call s)))
  ]

  -- In whatever run of requests of whatever clients, a refresh token is accepted at most once; the
  -- others that present it are refused. After it was logged out it is not accepted at all.
  pub accepted-le-one :
      (calls : List Call) (s : Server)
      → (accepted c token calls s ≤ 1)
        × (is_some (lookup token s.db.refresh_tokens) ≡ true
            → accepted c token calls (serve c (logs_out token) s) ≡ 0)
  unfolding serve
  accepted-le-one calls s = (
    accepted_once calls s,
    λ there. accepted-is_spent calls (serve c (logs_out token) s) (logout-spends s there),
  )
