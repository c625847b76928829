-- ===== src/Core/RateLimit/Parse/Tests.antt =====
-- Rates for rate_limit.py: any letter after a unit is taken for its plural.
use kryvaracode.Common.{◌≡◌, refl, none, some}
use kryvaracode.Common.Texts.{lstrip, rstrip, int, read_digits}
use kryvaracode.Coordination.Topics.{codes, same}
use kryvaracode.Core.RateLimit.Parse.{
  parse_rate_limit, lowercase, partition, without_last, unit_seconds,
}

rates :
    (parse_rate_limit (codes " 100/Minute ") ≡ some (100, 60))
    × (parse_rate_limit (codes "5/days") ≡ some (5, 86400))
    × (parse_rate_limit (codes "5/dayx") ≡ some (5, 86400))
    × (parse_rate_limit (codes "5/") ≡ none)
    × (parse_rate_limit (codes "/day") ≡ none)
    × (parse_rate_limit (codes "x/day") ≡ none)
    × (parse_rate_limit (codes "0/day") ≡ none)
    × (parse_rate_limit (codes "-3/hour") ≡ none)
    × (parse_rate_limit (codes "3/week") ≡ none)
unfolding parse_rate_limit lowercase partition without_last unit_seconds lstrip rstrip int
    read_digits same
rates = (refl, refl, refl, refl, refl, refl, refl, refl, refl)
