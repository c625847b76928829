-- ===== src/Core/Security.antt =====
-- src/core/security.py: the policy of passwords, their hashes, and the signed tokens. bcrypt, SHA-256
-- and the signatures of jose are parameters, a record `Crypto`; what is relied on is `IsSound`.
-- Times are seconds. Texts are ASCII, so that a character is one byte.
pub mod Passwords
pub mod Unary
mod Tests
use kryvaracode.Common.{
  ℕ, ◌+◌, ◌*◌, ◌<◌, ◌≡◌, String, Bool, true, false, not, ◌&&◌, Option, none, some, List, [], ◌∷◌,
  ◌++◌, ltb, leb, eqb, ◌==◌, length, take, if◌then◌else◌,
}
use kryvaracode.Coordination.Topics.{codes}

abbrev pub min_length : ℕ
min_length = 8

abbrev pub max_length : ℕ
max_length = 128

-- `bcrypt` reads so many bytes of a password.
abbrev pub bcrypt_max_bytes : ℕ
bcrypt_max_bytes = 72

abbrev pub is_digit : ℕ → Bool
is_digit c = leb 48 c && leb c 57

abbrev pub is_lower : ℕ → Bool
is_lower c = leb 97 c && leb c 122

abbrev pub is_upper : ℕ → Bool
is_upper c = leb 65 c && leb c 90

-- The special characters: all of ASCII that is printed, but letters, digits and the space.
abbrev pub special_chars : List ℕ
special_chars =
    33 ∷ 64 ∷ 35 ∷ 36 ∷ 37 ∷ 94 ∷ 38 ∷ 42 ∷ 40 ∷ 41 ∷ 45 ∷ 95 ∷ 61 ∷ 43 ∷ 91 ∷ 93 ∷ 123 ∷ 125 ∷ 124
    ∷ 59 ∷ 58 ∷ 39 ∷ 92 ∷ 34 ∷ 44 ∷ 46 ∷ 60 ∷ 62 ∷ 63 ∷ 47 ∷ 96 ∷ 126 ∷ []

-- `any(p(c) for c in password)`
abbrev pub any : (ℕ → Bool) → List ℕ → Bool
any p [] = false
any p (c ∷ cs) = if p c then true else any p cs

abbrev pub is_special : ℕ → Bool
is_special c = any (eqb c) special_chars

pub data PolicyError : Type 0 where
  too_short too_long no_digit no_lowercase no_uppercase no_special : PolicyError

-- `errors.append(e)` under a condition
abbrev pub noted : Bool → PolicyError → List PolicyError → List PolicyError
noted bad e errors = if bad then errors ++ e ∷ [] else errors

unfoldable pub validate_password_policy : List ℕ → List PolicyError
validate_password_policy password = noted (not (any is_special password)) no_special (
    noted (not (any is_upper password)) no_uppercase (
      noted (not (any is_lower password)) no_lowercase (
        noted (not (any is_digit password)) no_digit (
          noted (ltb max_length (length password)) too_long
            (noted (ltb (length password) min_length) too_short [])))))

pub data TokenType : Type 0 where
  access refresh : TokenType

abbrev pub is_access : TokenType → Bool
is_access access = true
is_access refresh = false

-- The payload of a token. `sub` is the printed number of a user; `jti` is random.
pub record Payload : Type 0 where
  pub sub : Option ℕ
  pub exp : ℕ
  pub type : TokenType
  pub jti : Option String

-- What other packages compute. `checkpw` raises (`none`) on a malformed hash; `jwt_decode` at a time
-- answers `none` for a JWTError, which an expired token gives too.
pub record Crypto : Type 0 where
  pub hashpw : List ℕ → String → String
  pub checkpw : List ℕ → String → Option Bool
  pub sha256 : String → String
  pub jwt_encode : Payload → String
  pub jwt_decode : ℕ → String → Option Payload

-- What the packages promise: a hash checks its own password, and a token that was signed and has not
-- expired decodes to its payload.
pub record IsSound (c : Crypto) : Type 0 where
  pub checks : (b : List ℕ) (salt : String) → c.checkpw b (c.hashpw b salt) ≡ some true
  pub decodes : (p : Payload) (now : ℕ) → now < p.exp → c.jwt_decode now (c.jwt_encode p) ≡ some p

abbrev pub access_token_seconds : ℕ
access_token_seconds = 30 * 60

abbrev pub refresh_token_seconds : ℕ
refresh_token_seconds = 7 * 86400

module _ (c : Crypto) where
  unfoldable pub verify_password : String → String → Bool
  verify_password plain hashed = elim (c.checkpw (take bcrypt_max_bytes (codes plain)) hashed) [
    | none ↦ false
    | some answer ↦ answer
  ]

  unfoldable pub get_password_hash : String → String → String
  get_password_hash salt password = c.hashpw (take bcrypt_max_bytes (codes password)) salt

  abbrev pub hash_reset_token : String → String
  hash_reset_token token = c.sha256 token

  unfoldable pub create_access_token : ℕ → ℕ → String
  create_access_token now subject =
      c.jwt_encode
        (record { sub = some subject; exp = now + access_token_seconds; type = access; jti = none })

  unfoldable pub create_refresh_token : ℕ → String → ℕ → String
  create_refresh_token now jti subject = c.jwt_encode (record {
    sub = some subject;
    exp = now + refresh_token_seconds;
    type = refresh;
    jti = some jti;
  })

  unfoldable pub decode_access_token : ℕ → String → Option Payload
  decode_access_token now token = elim (c.jwt_decode now token) [
    | none ↦ none
    | some payload ↦ if is_access payload.type then some payload else none
  ]

  unfoldable pub decode_refresh_token : ℕ → String → Option Payload
  decode_refresh_token now token = elim (c.jwt_decode now token) [
    | none ↦ none
    | some payload ↦ if is_access payload.type then none else some payload
  ]
