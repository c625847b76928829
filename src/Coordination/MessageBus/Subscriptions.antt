-- ===== src/Coordination/MessageBus/Subscriptions.antt =====
-- message_bus.py: the table of subscriptions.
use kryvaracode.Common.{
  subst, Bool-cases, ℕ, ◌<◌, ◌≡◌, refl, ap, ◌∙◌, String, Bool, Option, none, some, List, [], ◌∷◌,
  ◌++◌, arith, ◌==◌, All, Option-cases, inl, inr,
}
use kryvaracode.Common.Dict.{
  Dict, lookup, insert, lookup-insert_self, insert-insert, insert_self, without-insert_new,
}
use kryvaracode.Coordination.MessageBus.{
  Message, Subscription, MessageBus, subs_of, others, store_subs, subscribe, unsubscribe,
}

module _ {P : Type 0} where
  -- A list that the table may hold under a pattern: not empty, and of older identities than the
  -- next one to be given out.
  abbrev pub IsListed : ℕ → List (Subscription P) → Type 0
  IsListed created [] = ⊥
  IsListed created (s ∷ subs) = (s.self_id < created) × All (λ t. t.self_id < created) subs

  abbrev pub IsTable : ℕ → Dict (List (Subscription P)) → Type 0
  IsTable created [] = Unit
  IsTable created ((pattern, subs) ∷ d) =
      (lookup pattern d ≡ none) × IsListed created subs × IsTable created d

  others_new :
      (sub : Subscription P) (subs : List (Subscription P))
      → All (λ t. t.self_id < sub.self_id) subs
      → others sub (subs ++ sub ∷ []) ≡ subs
  others_new sub [] h = ground arith
  others_new sub (s ∷ subs) h = ground (arith, others_new sub subs h.1)

  lookup-IsListed :
      (created : ℕ) (k : String) (d : Dict (List (Subscription P))) (subs : List (Subscription P))
      → IsTable created d
      → lookup k d ≡ some subs
      → IsListed created subs
  unfolding lookup
  lookup-IsListed created k [] subs h e = absurd (cc)
  lookup-IsListed created k ((j, l) ∷ d) subs h e = elim (Bool-cases (j == k)) [
    | inl here ↦ let same : l ≡ subs = ground arith in subst (IsListed created) same h.1
    | inr away ↦ lookup-IsListed created k d subs h.2 (ground arith)
  ]

  All-of_IsListed :
      (created : ℕ) (subs : List (Subscription P))
      → IsListed created subs
      → All (λ t. t.self_id < created) subs
  All-of_IsListed created [] h = absurd h
  All-of_IsListed created (s ∷ subs) h = h

  subs_of-none :
      (k : String) (d : Dict (List (Subscription P))) → lookup k d ≡ none → subs_of d k ≡ []
  subs_of-none k d e = ground arith

  subs_of-some :
      (k : String) (d : Dict (List (Subscription P))) (subs : List (Subscription P))
      → lookup k d ≡ some subs
      → subs_of d k ≡ subs
  subs_of-some k d subs e = ground arith

  IsListed-subs_of :
      (created : ℕ) (k : String) (d : Dict (List (Subscription P)))
      → IsTable created d
      → All (λ t. t.self_id < created) (subs_of d k)
  IsListed-subs_of created k d h = elim (Option-cases (lookup k d)) [
    | inl e ↦ rw (subs_of-none k d e) tt
    | inr (subs, e) ↦
        rw (subs_of-some k d subs e)
          (All-of_IsListed created subs (lookup-IsListed created k d subs h e))
  ]

  -- Storing the list that the table had undoes a write to its pattern.
  store_subs_restores :
      (k : String) (created : ℕ) (new old : List (Subscription P))
      (d : Dict (List (Subscription P)))
      → IsTable created d
      → subs_of d k ≡ old
      → store_subs k old (insert k new d) ≡ d
  unfolding store_subs
  store_subs_restores k created new [] d h q = elim (Option-cases (lookup k d)) [
    | inl e ↦ rw insert-insert (without-insert_new k [] d e)
    | inr (subs, e) ↦
        let empty : subs ≡ [] = ground arith in
        absurd (subst (IsListed created) empty (lookup-IsListed created k d subs h e))
  ]
  store_subs_restores k created new (s ∷ old) d h q =
      insert-insert k (s ∷ old) new d ∙ insert_self k (s ∷ old) d (ground arith)

  -- Taking back a subscription right after it was made restores the table as it was, the order of
  -- the patterns and of each pattern's subscriptions included.
  unsubscribe-subscribe :
      (subscriber_id pattern : String) (f : Option (Message P → Option Bool)) (bus : MessageBus P)
      → IsTable bus.created bus.subscribers
      → (unsubscribe
          (subscribe subscriber_id pattern f bus).1
          (subscribe subscriber_id pattern f bus).0).subscribers
        ≡ bus.subscribers
  unfolding subscribe unsubscribe
  unsubscribe-subscribe subscriber_id pattern f bus h =
      let sub = (subscribe subscriber_id pattern f bus).1 in
      let old = subs_of bus.subscribers pattern in
      let new = old ++ sub ∷ [] in
      let written = insert pattern new bus.subscribers in
      let read : subs_of written pattern ≡ new =
        subs_of-some pattern written new (lookup-insert_self pattern new bus.subscribers) in
      let left : others sub new ≡ old =
        others_new sub old (IsListed-subs_of bus.created pattern bus.subscribers h) in
      ap (λ l. store_subs pattern (others sub l) written) read
      ∙ ap (λ l. store_subs pattern l written) left
      ∙ store_subs_restores pattern bus.created new old bus.subscribers h refl
