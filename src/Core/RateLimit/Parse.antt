-- ===== src/Core/RateLimit/Parse.antt =====
-- src/core/rate_limit.py, `parse_rate_limit` and the limiter that the settings build, on texts in ASCII.
mod Tests
use kryvaracode.Common.{
  ℕ, ◌+◌, ◌≤◌, ◌≡◌, refl, Bool, true, false, Option, none, some, List, [], ◌∷◌, eqb, leb,
  if◌then◌else◌,
}
use kryvaracode.Common.Int.{ℤ, pos, negsuc}
use kryvaracode.Common.Texts.{lower, int, lstrip, rstrip, read_digits}
use kryvaracode.Coordination.Topics.{codes, same}
use kryvaracode.Core.RateLimit.{RateLimiter, new_limiter}

-- `s.lower()`
unfoldable pub lowercase : List ℕ → List ℕ
lowercase [] = []
lowercase (c ∷ cs) = lower c ∷ lowercase cs

-- `s.partition("/")`: the texts before and after the first slash.
unfoldable pub partition : List ℕ → List ℕ × List ℕ
partition [] = ([], [])
partition (c ∷ cs) =
    let (before, after) = partition cs in if eqb c 47 then ([], cs) else (c ∷ before, after)

-- `s[:-1]`
unfoldable pub without_last : List ℕ → List ℕ
without_last [] = []
without_last (c ∷ cs) = let rest = without_last cs in elim cs [ [] ↦ [] | d ∷ ds ↦ c ∷ rest ]

-- `unit_seconds.get(unit)`
unfoldable pub unit_seconds : List ℕ → Option ℕ
unfolding same
unit_seconds unit =
    if same unit (codes "second")
    then some 1
    else (if same unit (codes "minute")
        then some 60
        else (if same unit (codes "hour")
            then some 3600
            else (if same unit (codes "day") then some 86400 else none)))

-- `get(unit) or get(unit[:-1])`: no value of the dictionary is 0.
abbrev pub window_of : List ℕ → Option ℕ
window_of unit = elim (unit_seconds unit) [
  | none ↦ unit_seconds (without_last unit)
  | some seconds ↦ some seconds
]

abbrev pub positive_count : ℤ → Option ℕ → Option (ℕ × ℕ)
positive_count count none = none
positive_count (negsuc n) (some window) = none
positive_count (pos n) (some window) = if leb n 0 then none else some (n, window)

abbrev pub read_rate : List ℕ → List ℕ → Option (ℕ × ℕ)
read_rate [] unit = none
read_rate (c ∷ cs) [] = none
read_rate (c ∷ cs) (u ∷ us) = elim (int (c ∷ cs)) [
  | none ↦ none
  | some count ↦ positive_count count (window_of (u ∷ us))
]

-- `none` for a ValueError
unfoldable pub parse_rate_limit : List ℕ → Option (ℕ × ℕ)
unfolding lstrip rstrip lowercase partition unit_seconds without_last int
parse_rate_limit value =
    let (count_str, unit) = partition (lowercase (lstrip (rstrip value))) in
    read_rate count_str unit

-- `_build_rate_limiter`, at the two settings that it reads: whether there is a limiter, or, outermost,
-- that the ValueError leaves it.
unfoldable pub build_rate_limiter : Bool → List ℕ → Option (Option RateLimiter)
unfolding parse_rate_limit new_limiter
build_rate_limiter enabled default =
    if enabled
    then (elim (parse_rate_limit default) [
      | none ↦ none
      | some (limit, window) ↦ some (some (new_limiter limit window))
    ])
    else some none
