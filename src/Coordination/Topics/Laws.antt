-- ===== src/Coordination/Topics/Laws.antt =====
-- message_bus.py: what the three kinds of patterns match.
use mathlib.Core.List.{append_assoc}
use kryvaracode.Common.{
  ℕ, ◌+◌, ◌-◌, zero, suc, ◌≡◌, refl, ap, ◌∙◌, true, false, ◌||◌, List, [], ◌∷◌, ◌++◌, arith, length,
  take, drop, length-append, ◌↔◌,
}
use kryvaracode.Coordination.Topics.{
  dot, star, same, starts_with, ends_with, has, has_stars, remove_stars, before_stripped, rstrip,
  matches_level, topic_matches,
}

same_refl : (s : List ℕ) → same s s ≡ true
unfolding same
same_refl [] = refl
same_refl (c ∷ s) = ground (arith, same_refl s)

-- `same` decides equality.
same_sound : (s t : List ℕ) → same s t ≡ true → s ≡ t
unfolding same
same_sound [] [] h = refl
same_sound [] (d ∷ t) h = cc
same_sound (c ∷ s) [] h = cc
same_sound (c ∷ s) (d ∷ t) h = ground (arith, same_sound s t)

starts_with-append : (s t : List ℕ) → starts_with (s ++ t) s ≡ true
unfolding starts_with
starts_with-append [] t = refl
starts_with-append (c ∷ s) t = ground (arith, starts_with-append s t)

starts_with_split : (s t : List ℕ) → starts_with s t ≡ true → (r : List ℕ) × (s ≡ t ++ r)
unfolding starts_with
starts_with_split s [] h = (s, refl)
starts_with_split [] (d ∷ t) h = absurd (cc)
starts_with_split (c ∷ s) (d ∷ t) h =
    let (r, e) = starts_with_split s t (ground arith) in (r, ground arith)

drop-append : (s t : List ℕ) → drop (length s) (s ++ t) ≡ t
drop-append [] t = refl
drop-append (c ∷ s) t = drop-append s t

take-append : (s t : List ℕ) → take (length s) (s ++ t) ≡ s
take-append [] t = refl
take-append (c ∷ s) t = ap (◌∷◌ c) (take-append s t)

has-append : (c : ℕ) (s t : List ℕ) → has c (s ++ t) ≡ (has c s || has c t)
unfolding has
has-append c [] t = refl
has-append c (d ∷ s) t = ground (arith, has-append c s t)

-- A text without stars in front of a star.
has_stars-append :
    (s t : List ℕ) → has star s ≡ false → has_stars (s ++ dot ∷ t) ≡ has_stars (dot ∷ t)
unfolding has_stars has
has_stars-append [] t h = refl
has_stars-append (c ∷ []) t h = ground arith
has_stars-append (c ∷ d ∷ s) t h = ground (arith, has_stars-append (d ∷ s) t)

remove_stars-append :
    (s t : List ℕ) → has star s ≡ false → remove_stars (s ++ dot ∷ t) ≡ s ++ remove_stars (dot ∷ t)
unfolding remove_stars has
remove_stars-append [] t h = refl
remove_stars-append (c ∷ []) t h = ground arith
remove_stars-append (c ∷ d ∷ s) t h = ground (arith, remove_stars-append (d ∷ s) t)

not-has_stars : (s : List ℕ) → has star s ≡ false → has_stars s ≡ false
unfolding has_stars has
not-has_stars [] h = refl
not-has_stars (c ∷ []) h = refl
not-has_stars (c ∷ d ∷ s) h = ground (arith, not-has_stars (d ∷ s))

not-has-drop : (n : ℕ) (s : List ℕ) → has star s ≡ false → has star (drop n s) ≡ false
unfolding has
not-has-drop zero s h = h
not-has-drop (suc n) [] h = refl
not-has-drop (suc n) (c ∷ s) h = not-has-drop n s (ground arith)

-- A text without stars ends in no star.
not-ends_with : (s : List ℕ) → has star s ≡ false → ends_with s (dot ∷ star ∷ []) ≡ false
unfolding ends_with has
not-ends_with s h =
    let end = drop (length s - 2) s in
    ground (arith, same_sound end (dot ∷ star ∷ []), not-has-drop (length s - 2) s h)

rstrip-append : (s : List ℕ) → rstrip dot (s ++ dot ∷ []) ≡ rstrip dot s
unfolding rstrip
rstrip-append [] = refl
rstrip-append (c ∷ s) = ap (before_stripped dot c) (rstrip-append s)

not-same-star : (s : List ℕ) → has star s ≡ false → same s (star ∷ []) ≡ false
unfolding has
not-same-star s h = ground (arith, same_sound s (star ∷ []))

-- A pattern that goes on behind a dot is not the pattern `*`.
not-same-star_append : (s t : List ℕ) → same (s ++ dot ∷ t) (star ∷ []) ≡ false
unfolding same
not-same-star_append [] t = refl
not-same-star_append (c ∷ []) t = ground arith
not-same-star_append (c ∷ d ∷ s) t = ground arith

length-level : (p : List ℕ) → length (p ++ dot ∷ star ∷ []) - 2 ≡ length p
length-level p = omega (arith, length-append p (dot ∷ star ∷ []))

ends_with-level : (p : List ℕ) → ends_with (p ++ dot ∷ star ∷ []) (dot ∷ star ∷ []) ≡ true
unfolding ends_with
ends_with-level p =
    rw (length-level p, drop-append p (dot ∷ star ∷ []))
      (ground (arith, length-append p (dot ∷ star ∷ [])))

plain_branch :
    (topic pattern : List ℕ)
    → has star pattern ≡ false
    → topic_matches topic pattern ≡ same topic pattern
unfolding topic_matches
plain_branch topic pattern h =
    rw (not-same-star pattern h, not-has_stars pattern h, not-ends_with pattern h)

level_branch :
    (topic p : List ℕ)
    → has star p ≡ false
    → topic_matches topic (p ++ dot ∷ star ∷ []) ≡ matches_level topic p
unfolding topic_matches
level_branch topic p h = rw (
  not-same-star_append p (star ∷ []),
  has_stars-append p (star ∷ []) h,
  ends_with-level p,
  length-level p,
  take-append p (dot ∷ star ∷ []),
)

tree_branch :
    (topic p : List ℕ)
    → has star p ≡ false
    → rstrip dot p ≡ p
    → topic_matches topic (p ++ dot ∷ star ∷ star ∷ []) ≡ starts_with topic p
unfolding topic_matches
tree_branch topic p h tight = rw (
  not-same-star_append p (star ∷ star ∷ []),
  has_stars-append p (star ∷ star ∷ []) h,
  remove_stars-append p (star ∷ star ∷ []) h,
  rstrip-append p,
  tight,
)

level_sound :
    (topic p : List ℕ)
    → matches_level topic p ≡ true
    → (level : List ℕ) × (topic ≡ p ++ dot ∷ level) × (has dot level ≡ false)
unfolding matches_level
level_sound topic p h =
    let (level, e) = starts_with_split topic (p ++ dot ∷ []) (ground arith) in
    let behind : drop (length p + 1) topic ≡ level =
      rw e (rw (← length-append p (dot ∷ [])) (drop-append (p ++ dot ∷ []) level)) in
    (level, e ∙ append_assoc p (dot ∷ []) level, ground (arith, behind))

level_complete :
    (p level : List ℕ) → has dot level ≡ false → matches_level (p ++ dot ∷ level) p ≡ true
unfolding matches_level
level_complete p level h =
    let whole : (p ++ dot ∷ []) ++ level ≡ p ++ dot ∷ level = append_assoc p (dot ∷ []) level in
    let behind : drop (length p + 1) (p ++ dot ∷ level) ≡ level =
      rw (← whole) (rw (← length-append p (dot ∷ [])) (drop-append (p ++ dot ∷ []) level)) in
    let begins : starts_with (p ++ dot ∷ level) (p ++ dot ∷ []) ≡ true =
      rw (← whole) (starts_with-append (p ++ dot ∷ []) level) in
    ground (arith, behind, begins)

-- A pattern without stars matches the topic that it is, and no other.
topic_matches-exact :
    (topic pattern : List ℕ)
    → has star pattern ≡ false
    → (topic_matches topic pattern ≡ true) ↔ (topic ≡ pattern)
topic_matches-exact topic pattern h =
    rw (plain_branch topic pattern h) (same_sound topic pattern, λ e. rw e (same_refl pattern))

-- A pattern `p.*` matches the topics with exactly one more level than `p`, an empty level
-- included, where `p` has no star.
topic_matches-level :
    (topic p : List ℕ)
    → has star p ≡ false
    → (topic_matches topic (p ++ dot ∷ star ∷ []) ≡ true)
      ↔ ((level : List ℕ) × (topic ≡ p ++ dot ∷ level) × (has dot level ≡ false))
topic_matches-level topic p h =
    rw (level_branch topic p h)
      (level_sound topic p, λ (level, e, one). rw e (level_complete p level one))

-- A pattern `p.**`, where `p` has no star and does not end in a dot, matches every topic that
-- begins with the characters of `p`, whether or not a level ends there.
topic_matches-tree :
    (topic p : List ℕ)
    → has star p ≡ false
    → rstrip dot p ≡ p
    → (topic_matches topic (p ++ dot ∷ star ∷ star ∷ []) ≡ true)
      ↔ ((rest : List ℕ) × (topic ≡ p ++ rest))
topic_matches-tree topic p h tight =
    rw (tree_branch topic p h tight)
      (starts_with_split topic p, λ (rest, e). rw e (starts_with-append p rest))
