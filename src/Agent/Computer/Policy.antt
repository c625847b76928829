-- ===== src/Agent/Computer/Policy.antt =====
-- computer.py: what the check of a command lets pass.
use kryvaracode.Common.{
  ℕ, ◌≡◌, refl, ap, false, ◌&&◌, Option, none, some, List, [], ◌∷◌, ◌++◌, map, arith, eqb, leb, All,
  Bool-cases, inl, inr,
}
use kryvaracode.Coordination.Topics.{codes}
use kryvaracode.Core.Exceptions.{Result.ok}
use kryvaracode.Aegis.Pattern.{
  Class, Class.one_of, Pattern, Pattern.literal, Pattern.one, Pattern.many, Pattern.boundary,
  Pattern.followed_by, Pattern.either, Place, among, accepts, ends, literal_ends, many_ends,
  one_ends, from_all, eqb_bool, word_ends, word_begins, found, search, search_from,
}
use kryvaracode.Common.Texts.{lower}
use kryvaracode.Common.Texts.{lstrip, rstrip}
use kryvaracode.Agent.Computer.{
  registry_front, registry_delete, check_command, shell_metachars, lowered,
}

-- No character of the text is one of the set.
abbrev pub HasNone : List ℕ → List ℕ → Type 0
HasNone cs = All (λ c. among c cs ≡ false)

search_from-HasNone :
    (cs : List ℕ) (previous : Option ℕ) (s : List ℕ)
    → search_from (one (one_of cs)) previous s ≡ false
    → HasNone cs s
unfolding search_from ends accepts
search_from-HasNone cs previous [] h = tt
search_from-HasNone cs previous (c ∷ s) h =
    (ground (arith, h), search_from-HasNone cs (some c) s (ground (arith, h)))

-- No upper-case letter.
abbrev pub IsLower : List ℕ → Type 0
IsLower = All (λ c. (leb 65 c && leb c 90) ≡ false)

map-lower-IsLower : (s : List ℕ) → IsLower (map lower s)
map-lower-IsLower [] = tt
map-lower-IsLower (c ∷ s) = (ground arith, map-lower-IsLower s)

abbrev AllLower : List Place → Type 0
AllLower = All (λ p. IsLower p.rest)

append-AllLower : (ps qs : List Place) → AllLower ps → AllLower qs → AllLower (ps ++ qs)
append-AllLower [] qs h k = k
append-AllLower (p ∷ ps) qs h k = (h.0, append-AllLower ps qs h.1 k)

from_all-AllLower :
    (f : Place → List Place) (ps : List Place)
    → ((p : Place) → IsLower p.rest → AllLower (f p))
    → AllLower ps
    → AllLower (from_all f ps)
from_all-AllLower f [] each h = tt
from_all-AllLower f (p ∷ ps) each h =
    append-AllLower (f p) (from_all f ps) (each p h.0) (from_all-AllLower f ps each h.1)

literal_ends-AllLower :
    (cs : List ℕ) (previous : Option ℕ) (rest : List ℕ)
    → IsLower rest
    → AllLower (literal_ends cs previous rest)
unfolding literal_ends
literal_ends-AllLower [] previous rest h = (h, tt)
literal_ends-AllLower (c ∷ cs) previous [] h = tt
literal_ends-AllLower (c ∷ cs) previous (d ∷ rest) h =
    let ih = literal_ends-AllLower cs (some d) rest h.1 in
    elim (Bool-cases (eqb c d)) [ inl e ↦ rw e ih | inr e ↦ rw e tt ]

many_ends-AllLower :
    (k : Class) (previous : Option ℕ) (rest : List ℕ)
    → IsLower rest
    → AllLower (many_ends k previous rest)
unfolding many_ends
many_ends-AllLower k previous [] h = (h, tt)
many_ends-AllLower k previous (d ∷ rest) h =
    let ih = many_ends-AllLower k (some d) rest h.1 in
    elim (Bool-cases (accepts k d)) [ inl e ↦ rw e (h, ih) | inr e ↦ rw e (h, tt) ]

one_ends-AllLower : (k : Class) (rest : List ℕ) → IsLower rest → AllLower (one_ends k rest)
one_ends-AllLower k [] h = tt
one_ends-AllLower k (d ∷ rest) h = elim (Bool-cases (accepts k d)) [
  | inl e ↦ rw e (h.1, tt)
  | inr e ↦ rw e tt
]

-- Behind a match in a text without capitals there is a text without capitals.
ends-AllLower : (k : Pattern) (p : Place) → IsLower p.rest → AllLower (ends k p)
unfolding ends
ends-AllLower (literal cs) p h = literal_ends-AllLower cs p.previous p.rest h
ends-AllLower (one k) p h = one_ends-AllLower k p.rest h
ends-AllLower (many k) p h = many_ends-AllLower k p.previous p.rest h
ends-AllLower boundary p h =
    elim (Bool-cases (eqb_bool (word_ends p.previous) (word_begins p.rest))) [
      | inl e ↦ rw e tt
      | inr e ↦ rw e (h, tt)
    ]
ends-AllLower (followed_by a b) p h =
    from_all-AllLower (ends b) (ends a p) (λ q low. ends-AllLower b q low) (ends-AllLower a p h)
ends-AllLower (either a b) p h =
    append-AllLower (ends a p) (ends b p) (ends-AllLower a p h) (ends-AllLower b p h)

literal_ends-capital :
    (cs : List ℕ) (previous : Option ℕ) (rest : List ℕ)
    → IsLower rest
    → literal_ends (72 ∷ cs) previous rest ≡ []
unfolding literal_ends
literal_ends-capital cs previous [] h = refl
literal_ends-capital cs previous (d ∷ rest) h = ground (arith, h.0)

from_all-nil :
    (f : Place → List Place) (ps : List Place)
    → ((p : Place) → IsLower p.rest → f p ≡ [])
    → AllLower ps
    → from_all f ps ≡ []
from_all-nil f [] each h = refl
from_all-nil f (p ∷ ps) each h = rw (each p h.0) (from_all-nil f ps each h.1)

ends-registry_delete : (p : Place) → IsLower p.rest → ends registry_delete p ≡ []
unfolding ends registry_delete
ends-registry_delete p h =
    from_all-nil (ends (literal (codes "HKLM"))) (ends registry_front p)
      (λ q low. literal_ends-capital (codes "KLM") q.previous q.rest low)
      (ends-AllLower registry_front p h)

search_from-registry_delete :
    (previous : Option ℕ) (s : List ℕ) → IsLower s → search_from registry_delete previous s ≡ false
unfolding search_from
search_from-registry_delete previous [] h =
    ap found (ends-registry_delete (record { previous = previous; rest = [] }) h)
search_from-registry_delete previous (c ∷ s) h =
    let here = ends-registry_delete (record { previous = previous; rest = c ∷ s }) h in
    let later = search_from-registry_delete (some c) s h.1 in rw here later

-- A command that passes the check holds no character of the shell's. But the pattern against the
-- deletion of a registry hive stops no command: it asks for capitals, and is searched in a text that was
-- made lower-case.
pub check_command-passes :
    (command : List ℕ)
    → (check_command command ≡ ok tt → HasNone shell_metachars command)
      × (search registry_delete (lowered command) ≡ false)
unfolding check_command search lowered
check_command-passes command = (
  λ passed. search_from-HasNone shell_metachars none command (ground (arith, passed)),
  search_from-registry_delete none (map lower (lstrip (rstrip command)))
      (map-lower-IsLower (lstrip (rstrip command))),
)
