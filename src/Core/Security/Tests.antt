-- ===== src/Core/Security/Tests.antt =====
-- Long passwords for security.py.
use kryvaracode.Common.{◌≡◌, refl, true, String, [], ◌∷◌}
use kryvaracode.Coordination.Topics.{codes}
use kryvaracode.Core.Security.{
  validate_password_policy, no_special, too_short, verify_password, get_password_hash,
}
use kryvaracode.Core.Security.Unary.{unary_crypto, unary_crypto-IsSound}
use kryvaracode.Core.Security.Passwords.{verify_password-get_password_hash}

abbrev long_password : String
long_password = "Aa1!aaaaaaaaaaaaaaaaaaaaaaaaaaaaaaaaaaaaaaaaaaaaaaaaaaaaaaaaaaaaaaaaaaaaHEAD"

abbrev longer_password : String
longer_password = "Aa1!aaaaaaaaaaaaaaaaaaaaaaaaaaaaaaaaaaaaaaaaaaaaaaaaaaaaaaaaaaaaaaaaaaaaANOTHER"

policies :
    (validate_password_policy (codes long_password) ≡ [])
    × (validate_password_policy (codes "Abcde1") ≡ too_short ∷ no_special ∷ [])
unfolding validate_password_policy
policies = (refl, refl)

verify_password-get_password_hash_example :
    verify_password unary_crypto longer_password (get_password_hash unary_crypto "" long_password)
    ≡ true
verify_password-get_password_hash_example =
    verify_password-get_password_hash unary_crypto unary_crypto-IsSound long_password
      longer_password "" refl
