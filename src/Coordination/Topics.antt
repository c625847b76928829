-- ===== src/Coordination/Topics.antt =====
-- src/agent/coordination/message_bus.py, `MessageBus._topic_matches`: the match of a topic and a
-- subscription pattern, over the code points of the two texts, with the methods of `str` that it
-- calls.
pub mod Laws
mod Tests
use Prim.Native.Char.{code}
use kryvaracode.Common.{
  ℕ, ◌+◌, ◌-◌, String, Bool, true, false, not, ◌&&◌, ◌||◌, List, [], ◌∷◌, ◌++◌, eqb, leb,
  if◌then◌else◌, length, take, drop,
}

-- The code points of a text.
abbrev pub codes : String → List ℕ
codes String.[] = []
codes (String.◌∷◌ c s) = code c ∷ codes s

abbrev pub dot : ℕ
dot = 46

abbrev pub star : ℕ
star = 42

-- `s == t`
unfoldable pub same : List ℕ → List ℕ → Bool
same [] [] = true
same [] (d ∷ t) = false
same (c ∷ s) [] = false
same (c ∷ s) (d ∷ t) = eqb c d && same s t

-- `s.startswith(t)`
unfoldable pub starts_with : List ℕ → List ℕ → Bool
starts_with s [] = true
starts_with [] (d ∷ t) = false
starts_with (c ∷ s) (d ∷ t) = eqb c d && starts_with s t

-- `s.endswith(t)`
unfoldable pub ends_with : List ℕ → List ℕ → Bool
unfolding same
ends_with s t = leb (length t) (length s) && same (drop (length s - length t) s) t

-- `c in s`, of one character
unfoldable pub has : ℕ → List ℕ → Bool
has c [] = false
has c (d ∷ s) = eqb c d || has c s

-- `"**" in s`
unfoldable pub has_stars : List ℕ → Bool
has_stars [] = false
has_stars (c ∷ []) = false
has_stars (c ∷ d ∷ s) = (eqb c star && eqb d star) || has_stars (d ∷ s)

-- `s.replace("**", "")`: from the left, without overlaps.
unfoldable pub remove_stars : List ℕ → List ℕ
remove_stars [] = []
remove_stars (c ∷ []) = c ∷ []
remove_stars (c ∷ d ∷ s) =
    let gone = remove_stars s in
    let kept = remove_stars (d ∷ s) in if eqb c star && eqb d star then gone else c ∷ kept

-- A character in front of a text that is stripped already.
unfoldable pub before_stripped : ℕ → ℕ → List ℕ → List ℕ
before_stripped c d [] = if eqb d c then [] else d ∷ []
before_stripped c d (e ∷ r) = d ∷ e ∷ r

-- `s.rstrip(c)`, of one character
unfoldable pub rstrip : ℕ → List ℕ → List ℕ
unfolding before_stripped
rstrip c [] = []
rstrip c (d ∷ s) = before_stripped c d (rstrip c s)

-- The branch of the patterns that end in `.*`, for what stands before that.
unfoldable pub matches_level : List ℕ → List ℕ → Bool
unfolding starts_with has
matches_level topic prefix =
    if not (starts_with topic (prefix ++ dot ∷ []))
    then false
    else not (has dot (drop (length prefix + 1) topic))

unfoldable pub topic_matches : List ℕ → List ℕ → Bool
unfolding same starts_with ends_with has_stars remove_stars rstrip matches_level
topic_matches topic pattern =
    if same pattern (star ∷ [])
    then true
    else if has_stars pattern
    then starts_with topic (rstrip dot (remove_stars pattern))
    else if ends_with pattern (dot ∷ star ∷ [])
    then matches_level topic (take (length pattern - 2) pattern)
    else same topic pattern
