-- ===== src/Core/Security/Passwords.antt =====
-- security.py: what the policy accepts, how far a password counts, and which tokens decode.
use kryvaracode.Common.{ℕ, ◌+◌, ◌<◌, ◌≡◌, ap, String, true, none, some, arith, take}
use kryvaracode.Coordination.Topics.{codes}
use kryvaracode.Core.Security.{
  Crypto, IsSound, Payload, TokenType.access, TokenType.refresh, bcrypt_max_bytes, verify_password,
  get_password_hash, create_access_token, create_refresh_token, decode_access_token,
  decode_refresh_token, access_token_seconds, refresh_token_seconds,
}

-- A password that agrees with another in its first 72 characters passes for it, whatever follows.
pub verify_password-get_password_hash :
    (c : Crypto)
    → IsSound c
    → (p q salt : String) → take bcrypt_max_bytes (codes p) ≡ take bcrypt_max_bytes (codes q)
    → verify_password c q (get_password_hash c salt p) ≡ true
unfolding verify_password get_password_hash
verify_password-get_password_hash c s p q salt same =
    let checked = s.checks (take bcrypt_max_bytes (codes q)) salt in
    let hashed = ap (λ b. c.hashpw b salt) same in ground (arith, hashed, checked)

-- A token decodes as what it was made for, until it expires, and never as the other sort.
pub decode-create :
    (c : Crypto)
    → IsSound c
    → (now later subject : ℕ) (jti : String) → later < now + access_token_seconds
    → (decode_refresh_token c later (create_access_token c now subject) ≡ none)
      × (decode_access_token c later (create_refresh_token c now jti subject) ≡ none)
unfolding decode_refresh_token decode_access_token create_access_token create_refresh_token
decode-create c s now later subject jti h =
    let access_payload : Payload = record {
      sub = some subject;
      exp = now + access_token_seconds;
      type = access;
      jti = none;
    } in
    let refresh_payload : Payload = record {
      sub = some subject;
      exp = now + refresh_token_seconds;
      type = refresh;
      jti = some jti;
    } in
    ground (arith, s.decodes access_payload later, s.decodes refresh_payload later)
