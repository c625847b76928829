-- ===== src/Common/Texts.antt =====
-- Methods of Python's `str`, and `int`, on the code points of a text in ASCII.
use Prim.Native.Nat.{ℕ, zero, suc, ◌+◌, ◌-◌, ◌*◌}
use mathlib.Core.Bool.{Bool, true, false, ◌&&◌, ◌||◌}
use mathlib.Core.Option.{Option, none, some}
use mathlib.Core.List.{List, [], ◌∷◌}
use kryvaracode.Common.Tests.{eqb, leb, if◌then◌else◌}
use kryvaracode.Common.Int.{ℤ, pos, negsuc}

-- `c.lower()` of an ASCII character
abbrev pub lower : ℕ → ℕ
lower c = if leb 65 c && leb c 90 then c + 32 else c

abbrev pub is_space : ℕ → Bool
is_space c = eqb c 32 || ((leb 9 c && leb c 13) || (leb 28 c && leb c 31))

abbrev pub is_digit : ℕ → Bool
is_digit c = leb 48 c && leb c 57

unfoldable pub lstrip : List ℕ → List ℕ
lstrip [] = []
lstrip (c ∷ cs) = let rest = lstrip cs in if is_space c then rest else c ∷ cs

-- The spaces at the end taken away.
unfoldable pub rstrip : List ℕ → List ℕ
rstrip [] = []
rstrip (c ∷ cs) =
    let rest = rstrip cs in
    elim rest [ [] ↦ (if is_space c then [] else c ∷ []) | d ∷ ds ↦ c ∷ d ∷ ds ]

-- Digits, with single underscores between them.
unfoldable pub read_digits : ℕ → Bool → List ℕ → Option ℕ
read_digits acc ready [] = if ready then some acc else none
read_digits acc ready (c ∷ cs) = elim (is_digit c) [
  | true ↦ read_digits (acc * 10 + (c - 48)) true cs
  | false ↦ elim (eqb c 95 && ready) [ true ↦ read_digits acc false cs | false ↦ none ]
]

abbrev pub negated : ℕ → ℤ
negated zero = pos 0
negated (suc n) = negsuc n

abbrev pub signed : (ℕ → ℤ) → Option ℕ → Option ℤ
signed f none = none
signed f (some n) = some (f n)

abbrev pub read_int : List ℕ → Option ℤ
read_int [] = none
read_int (c ∷ cs) =
    if eqb c 45
    then signed negated (read_digits 0 false cs)
    else (if eqb c 43
        then signed pos (read_digits 0 false cs)
        else signed pos (read_digits 0 false (c ∷ cs)))

-- `int(s)`; `none` for a ValueError
unfoldable pub int : List ℕ → Option ℤ
unfolding lstrip rstrip read_digits
int s = read_int (lstrip (rstrip s))
