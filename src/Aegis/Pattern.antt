-- ===== src/Aegis/Pattern.antt =====
-- The regular expressions of src/agent/aegis/invariants.py and src/agent/computer.py, as far as they use them: what `search`
-- of Python's `re` finds, on code points. The classes are read on ASCII.
use kryvaracode.Common.{
  ℕ, Bool, true, false, not, ◌&&◌, ◌||◌, Option, none, some, List, [], ◌∷◌, ◌++◌, eqb, leb,
  if◌then◌else◌,
}

-- `.`, `\s`, a range `[a-b]`, of which `\d` is one, and the sets `[cs]` and `[^cs]`.
pub data Class : Type 0 where
  any space : Class
  between : ℕ → ℕ → Class
  one_of none_of : List ℕ → Class

-- `c in cs`
abbrev pub among : ℕ → List ℕ → Bool
among c [] = false
among c (d ∷ ds) = eqb c d || among c ds

unfoldable pub accepts : Class → ℕ → Bool
accepts any c = not (eqb c 10)
accepts space c = (leb 9 c && leb c 13) || (leb 28 c && leb c 32)
accepts (between a b) c = leb a c && leb c b
accepts (one_of cs) c = among c cs
accepts (none_of cs) c = not (among c cs)

-- Literal text, one character of a class, `*`, concatenation, `|` and `\b`.
pub data Pattern : Type 0 where
  literal : List ℕ → Pattern
  one many : Class → Pattern
  boundary : Pattern
  followed_by either : Pattern → Pattern → Pattern

-- A place in the text: the character before it and the characters behind it.
pub record Place : Type 0 where
  pub previous : Option ℕ
  pub rest : List ℕ

-- `\w`
abbrev pub is_word : ℕ → Bool
is_word c = (leb 48 c && leb c 57) || (leb 65 c && leb c 90) || eqb c 95 || (leb 97 c && leb c 122)

abbrev pub word_ends : Option ℕ → Bool
word_ends none = false
word_ends (some c) = is_word c

abbrev pub word_begins : List ℕ → Bool
word_begins [] = false
word_begins (c ∷ s) = is_word c

abbrev pub eqb_bool : Bool → Bool → Bool
eqb_bool true b = b
eqb_bool false b = not b

unfoldable pub literal_ends : List ℕ → Option ℕ → List ℕ → List Place
literal_ends [] previous rest = record { previous = previous; rest = rest } ∷ []
literal_ends (c ∷ cs) previous [] = []
literal_ends (c ∷ cs) previous (d ∷ rest) =
    let later = literal_ends cs (some d) rest in if eqb c d then later else []

unfoldable pub many_ends : Class → Option ℕ → List ℕ → List Place
unfolding accepts
many_ends k previous [] = record { previous = previous; rest = [] } ∷ []
many_ends k previous (d ∷ rest) =
    let later = many_ends k (some d) rest in
    record { previous = previous; rest = d ∷ rest } ∷ (if accepts k d then later else [])

abbrev pub one_ends : Class → List ℕ → List Place
one_ends k [] = []
one_ends k (d ∷ rest) = if accepts k d then record { previous = some d; rest = rest } ∷ [] else []

abbrev pub from_all : (Place → List Place) → List Place → List Place
from_all f [] = []
from_all f (p ∷ ps) = f p ++ from_all f ps

-- The places where a match that begins at a place can end.
unfoldable pub ends : Pattern → Place → List Place
unfolding literal_ends many_ends accepts
ends (literal cs) p = literal_ends cs p.previous p.rest
ends (one k) p = one_ends k p.rest
ends (many k) p = many_ends k p.previous p.rest
ends boundary p = if eqb_bool (word_ends p.previous) (word_begins p.rest) then [] else p ∷ []
ends (followed_by a b) p = from_all (ends b) (ends a p)
ends (either a b) p = ends a p ++ ends b p

abbrev pub found : List Place → Bool
found [] = false
found (p ∷ ps) = true

unfoldable pub search_from : Pattern → Option ℕ → List ℕ → Bool
unfolding ends
search_from k previous [] = found (ends k (record { previous = previous; rest = [] }))
search_from k previous (d ∷ rest) =
    found (ends k (record { previous = previous; rest = d ∷ rest })) || search_from k (some d) rest

-- `pattern.search(code)` is not `None`.
unfoldable pub search : Pattern → List ℕ → Bool
unfolding search_from
search k code = search_from k none code
