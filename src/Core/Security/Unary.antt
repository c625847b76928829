-- ===== src/Core/Security/Unary.antt =====
-- A `Crypto` that keeps its promises, for the tests: hashes and tokens are texts in unary notation.
use Prim.Native.Char.{code}
use kryvaracode.Common.{
  ℕ, zero, suc, ◌≡◌, refl, ap, String, Option, none, some, List, [], ◌∷◌, arith, eqb, eq_self, ◌==◌,
  ltb, if◌then◌else◌,
}
use kryvaracode.Core.Security.{
  Crypto, IsSound, Payload, TokenType, TokenType.access, TokenType.refresh,
}

unary : ℕ → String → String
unary zero rest = String.◌∷◌ "0" rest
unary (suc n) rest = String.◌∷◌ "1" (unary n rest)

abbrev counted : Option (ℕ × String) → Option (ℕ × String)
counted none = none
counted (some (n, rest)) = some (suc n, rest)

read_unary : String → Option (ℕ × String)
read_unary String.[] = none
read_unary (String.◌∷◌ c s) =
    let longer = counted (read_unary s) in if eqb (code c) 49 then longer else some (zero, s)

read_unary-unary : (n : ℕ) (rest : String) → read_unary (unary n rest) ≡ some (n, rest)
unfolding unary read_unary
read_unary-unary zero rest = refl
read_unary-unary (suc n) rest = ap counted (read_unary-unary n rest)

unary_bytes : List ℕ → String
unfolding unary
unary_bytes [] = String.[]
unary_bytes (b ∷ bs) = unary b (unary_bytes bs)

abbrev type_number : TokenType → ℕ
type_number access = 0
type_number refresh = 1

abbrev number_type : ℕ → TokenType
number_type zero = access
number_type (suc _) = refresh

abbrev option_number : Option ℕ → ℕ
option_number none = 0
option_number (some n) = suc n

abbrev number_option : ℕ → Option ℕ
number_option zero = none
number_option (suc n) = some n

abbrev jti_text : Option String → String
jti_text none = unary 0 String.[]
jti_text (some j) = unary 1 j

unary_payload : Payload → String
unfolding unary
unary_payload p =
    unary (option_number p.sub) (unary p.exp (unary (type_number p.type) (jti_text p.jti)))

-- A number and what follows it, read by the rest of a reader.
abbrev after : Option (ℕ × String) → (ℕ → String → Option Payload) → Option Payload
after none f = none
after (some (n, rest)) f = f n rest

abbrev read_type : ℕ → ℕ → ℕ → ℕ → String → Option Payload
read_type sub exp type jti rest = some (record {
  sub = number_option sub;
  exp = exp;
  type = number_type type;
  jti = if eqb jti 0 then none else some rest;
})

read_payload : String → Option Payload
unfolding read_unary
read_payload s = after (read_unary s) λ sub s₁. after (read_unary s₁) λ exp s₂.
    after (read_unary s₂) λ type s₃. after (read_unary s₃) λ jti s₄. read_type sub exp type jti s₄

read_type-fields :
    (sub : Option ℕ) (exp : ℕ) (type : TokenType) (jti : Option String)
    → after
        (read_unary (jti_text jti))
        (λ j s. read_type (option_number sub) exp (type_number type) j s)
      ≡ some (record { sub = sub; exp = exp; type = type; jti = jti })
unfolding unary read_unary
read_type-fields none exp access none = refl
read_type-fields none exp access (some j) = refl
read_type-fields none exp refresh none = refl
read_type-fields none exp refresh (some j) = refl
read_type-fields (some k) exp access none = refl
read_type-fields (some k) exp access (some j) = refl
read_type-fields (some k) exp refresh none = refl
read_type-fields (some k) exp refresh (some j) = refl

read_payload-unary_payload : (p : Payload) → read_payload (unary_payload p) ≡ some p
unfolding read_payload unary_payload
read_payload-unary_payload p =
    let last = jti_text p.jti in
    let types = unary (type_number p.type) last in
    let times = unary p.exp types in
    rw
      (
        read_unary-unary (option_number p.sub) times,
        read_unary-unary p.exp types,
        read_unary-unary (type_number p.type) last,
      )
      (read_type-fields p.sub p.exp p.type p.jti)

-- A token counts until it expires.
abbrev decoded : ℕ → Option Payload → Option Payload
decoded now none = none
decoded now (some p) = if ltb now p.exp then some p else none

unfoldable pub unary_crypto : Crypto
unfolding unary_bytes unary_payload read_payload
unary_crypto = record {
  hashpw = λ bytes salt. unary_bytes bytes;
  checkpw = λ bytes hashed. some (hashed == unary_bytes bytes);
  sha256 = λ text. text;
  jwt_encode = unary_payload;
  jwt_decode = λ now token. decoded now (read_payload token);
}

pub unary_crypto-IsSound : IsSound unary_crypto
unfolding unary_crypto
unary_crypto-IsSound = record {
  checks = λ bytes salt. ap some (eq_self (unary_bytes bytes));
  decodes = λ p now h. rw (read_payload-unary_payload p) (ground arith);
}
