-- ===== src/Core/RateLimit/Window.antt =====
-- rate_limit.py: what the limiter guarantees over a whole run, in every window of time.
use mathlib.Core.List.{append_assoc}
use kryvaracode.Common.{
  ℕ, ◌+◌, ◌-◌, ◌≤◌, ◌<◌, ◌≡◌, refl, ap, sym, ◌∙◌, subst, String, Bool, true, false, ◌&&◌, List, [],
  ◌∷◌, ◌++◌, arith, eq_iff, eq_self, ◌==◌, leb, ltb, if◌then◌else◌, length, count_if, All,
  Bool-cases, ◌⊎◌, inl, inr,
}
use kryvaracode.Common.Dict.{Dict, lookup, insert, lookup-insert, lookup-insert_self}
use kryvaracode.Core.RateLimit.{RateLimiter, new_limiter, prune, hits_of, allow}

-- A time lies in the closed window that begins at `t`.
abbrev pub inside : ℕ → ℕ → ℕ → Bool
inside window t x = leb t x && leb x (t + window)

-- The number of times in a window.
abbrev pub within : ℕ → ℕ → List ℕ → ℕ
within window t xs = count_if (inside window t) xs

-- The times at which calls for a key are let through.
unfoldable pub grants : String → List (String × ℕ) → RateLimiter → List ℕ
grants k [] r = []
grants k ((j, now) ∷ calls) r =
    let rest = grants k calls (allow j now r).0 in
    if (j == k) && (allow j now r).1 then now ∷ rest else rest

-- The clock does not go back.
abbrev pub IsTimed : ℕ → List (String × ℕ) → Type 0
IsTimed last [] = Unit
IsTimed last ((j, now) ∷ calls) = (last ≤ now) × IsTimed now calls

within-append :
    (window t : ℕ) (xs ys : List ℕ)
    → within window t (xs ++ ys) ≡ within window t xs + within window t ys
within-append window t [] ys = omega arith
within-append window t (x ∷ xs) ys = ground (arith, within-append window t xs ys)

within-le-length : (window t : ℕ) (xs : List ℕ) → within window t xs ≤ length xs
within-le-length window t [] = omega arith
within-le-length window t (x ∷ xs) = ground (arith, within-le-length window t xs)

-- Times that are too old for a call at `now`.
abbrev Aged : ℕ → ℕ → List ℕ → Type 0
Aged window now xs = All (λ x. x + window < now) xs

Aged-append :
    (window now : ℕ) (xs ys : List ℕ)
    → Aged window now xs
    → Aged window now ys
    → Aged window now (xs ++ ys)
Aged-append window now [] ys a b = b
Aged-append window now (x ∷ xs) ys a b = (a.0, Aged-append window now xs ys a.1 b)

Aged-mono :
    (window last now : ℕ) (xs : List ℕ) → last ≤ now → Aged window last xs → Aged window now xs
Aged-mono window last now [] h a = tt
Aged-mono window last now (x ∷ xs) h a = (omega arith, Aged-mono window last now xs h a.1)

-- No aged time lies in a window that reaches the call.
within-Aged :
    (window now t : ℕ) (xs : List ℕ)
    → Aged window now xs
    → now ≤ t + window
    → within window t xs ≡ 0
within-Aged window now t [] a h = refl
within-Aged window now t (x ∷ xs) a h = ground (arith, a.0, within-Aged window now t xs a.1 h)

prune_split :
    (window now : ℕ) (hits : List ℕ)
    → (gone : List ℕ) × (hits ≡ gone ++ prune window now hits) × Aged window now gone
unfolding prune
prune_split window now [] = ([], refl, tt)
prune_split window now (x ∷ hits) = elim (Bool-cases (ltb window (now - x))) [
  | inl old ↦
      let (gone, e, a) = prune_split window now hits in
      (x ∷ gone, rw (old, prune) (ap (◌∷◌ x) e), (ground arith, a))
  | inr fresh ↦ ([], rw (fresh, prune), tt)
]

-- The hits of a key against the times that were granted for it so far.
record Inv (limit window last : ℕ) (past hits : List ℕ) : Type 0 where
  old : List ℕ
  split : past ≡ old ++ hits
  aged : Aged window last old
  bound : (t : ℕ) → within window t past ≤ limit

module _ (limit window : ℕ) where
  Inv-prune :
      (last now : ℕ) (past hits : List ℕ)
      → last ≤ now
      → Inv limit window last past hits
      → Inv limit window now past (prune window now hits)
  Inv-prune last now past hits h inv =
      let (gone, e, a) = prune_split window now hits in
      record {
        old = inv.old ++ gone;
        split =
            inv.split
            ∙ ap (λ l. inv.old ++ l) e
            ∙ sym (append_assoc inv.old gone (prune window now hits));
        aged = Aged-append window now inv.old gone (Aged-mono window last now inv.old h inv.aged) a;
        bound = inv.bound;
      }

  -- One more grant, with room among the hits that are left.
  Inv-grant :
      (now : ℕ) (past hits : List ℕ)
      → length hits < limit
      → Inv limit window now past hits
      → Inv limit window now (past ++ now ∷ []) (hits ++ now ∷ [])
  Inv-grant now past hits room inv = record {
    old = inv.old;
    split = ap (λ l. l ++ now ∷ []) inv.split ∙ append_assoc inv.old hits (now ∷ []);
    aged = inv.aged;
    bound = λ t. elim (Bool-cases (inside window t now)) [
      | inl reached ↦ ground (
        arith,
        inv.split,
        within-append window t past (now ∷ []),
        within-append window t inv.old hits,
        within-Aged window now t inv.old inv.aged (ground arith),
        within-le-length window t hits,
      )
      | inr apart ↦ ground (arith, within-append window t past (now ∷ []), inv.bound t)
    ];
  }

  -- A limiter with these settings and its dictionary.
  abbrev at : Dict (List ℕ) → RateLimiter
  at h = record { limit = limit; window = window; hits = h }

  hits_of-insert :
      (j k : String) (xs : List ℕ) (h : Dict (List ℕ))
      → hits_of (at (insert j xs h)) k ≡ (if j == k then xs else hits_of (at h) k)
  hits_of-insert j k xs h = ground (arith, lookup-insert j k xs h)

  hits_of-insert_self :
      (k : String) (xs : List ℕ) (h : Dict (List ℕ)) → hits_of (at (insert k xs h)) k ≡ xs
  hits_of-insert_self k xs h = rw (hits_of, lookup-insert_self k xs h) refl

  -- What a call does to the hits of a key and to the times granted for it.
  Inv-allow :
      (last now : ℕ) (k : String) (past : List ℕ) (h : Dict (List ℕ))
      → last ≤ now
      → Inv limit window last past (hits_of (at h) k)
      → (length (prune window now (hits_of (at h) k)) < limit
          × (allow k now (at h)
              ≡ (at (insert k (prune window now (hits_of (at h) k) ++ now ∷ []) h), true))
          × Inv limit window now
              (past ++ now ∷ [])
              (prune window now (hits_of (at h) k) ++ now ∷ []))
        ⊎ ((allow k now (at h) ≡ (at (insert k (prune window now (hits_of (at h) k)) h), false))
            × Inv limit window now past (prune window now (hits_of (at h) k)))
  unfolding allow
  Inv-allow last now k past h le inv =
      let hits = prune window now (hits_of (at h) k) in
      let pruned = Inv-prune last now past (hits_of (at h) k) le inv in
      elim (Bool-cases (leb limit (length hits))) [
        | inl full ↦ inr (rw full refl, pruned)
        | inr room ↦ inl (ground arith, rw room refl, Inv-grant now past hits (ground arith) pruned)
      ]

  -- A call for another key.
  allow-inserts :
      (j : String) (now : ℕ) (h : Dict (List ℕ))
      → (xs : List ℕ) × ((allow j now (at h)).0 ≡ at (insert j xs h))
  unfolding allow
  allow-inserts j now h =
      let hits = prune window now (hits_of (at h) j) in
      elim (Bool-cases (leb limit (length hits))) [
        | inl full ↦ (hits, rw full refl)
        | inr room ↦ (hits ++ now ∷ [], rw room refl)
      ]

  Inv-mono :
      (last now : ℕ) (past hits : List ℕ)
      → last ≤ now
      → Inv limit window last past hits
      → Inv limit window now past hits
  Inv-mono last now past hits le inv = record {
    old = inv.old;
    split = inv.split;
    aged = Aged-mono window last now inv.old le inv.aged;
    bound = inv.bound;
  }

  grants-le :
      (k : String) (calls : List (String × ℕ)) (last : ℕ) (past : List ℕ) (h : Dict (List ℕ))
      (t : ℕ)
      → IsTimed last calls
      → Inv limit window last past (hits_of (at h) k)
      → within window t past + within window t (grants k calls (at h)) ≤ limit
  unfolding grants
  grants-le k [] last past h t timed inv = ground (arith, inv.bound t)
  grants-le k ((j, now) ∷ calls) last past h t timed inv = elim (Bool-cases (j == k)) [
    | inr other ↦
        let (xs, e) = allow-inserts j now h in
        let kept =
          subst (λ l. Inv limit window now past l) (sym (ground (arith, hits_of-insert j k xs h)))
            (Inv-mono last now past (hits_of (at h) k) timed.0 inv) in
        rw (other, e) (grants-le k calls now past (insert j xs h) t timed.1 kept)
    | inl same ↦
        rw ((eq_iff j k).0 same, eq_self k)
          (elim (Inv-allow last now k past h timed.0 inv) [
            | inl (room, e, next) ↦
                let hits = prune window now (hits_of (at h) k) ++ now ∷ [] in
                let ih = grants-le k calls now (past ++ now ∷ []) (insert k hits h) t timed.1 (
                  subst (Inv limit window now (past ++ now ∷ []))
                    (sym (hits_of-insert_self k hits h)) next) in
                rw e (ground (arith, ih, within-append window t past (now ∷ [])))
            | inr (e, next) ↦
                let hits = prune window now (hits_of (at h) k) in
                rw e (
                  grants-le k calls now past (insert k hits h) t timed.1
                    (subst (Inv limit window now past) (sym (hits_of-insert_self k hits h)) next))
          ])
  ]

-- However the calls of the keys are interleaved, as long as the clock does not go back, no closed window
-- of the limiter's length holds more granted calls of one key than the limit, wherever it begins.
pub grants-le_limit :
    (limit window : ℕ) (k : String) (calls : List (String × ℕ)) (t : ℕ)
    → IsTimed 0 calls
    → within window t (grants k calls (new_limiter limit window)) ≤ limit
unfolding new_limiter lookup
grants-le_limit limit window k calls t timed = omega (
  arith,
  grants-le limit window k calls 0 [] [] t timed
      (record { old = []; split = refl; aged = tt; bound = λ t'. omega arith }),
)
