-- ===== src/Sovereign/Memory/Index.antt =====
-- memory_graph.py: the index names nodes of the memory only, so no query fails on a missing node.
use kryvaracode.Common.{
  ℕ, ◌≡◌, refl, subst, sym, String, true, ◌&&◌, ◌==◌, Option, none, some, List, [], ◌∷◌, ◌++◌,
  arith, eq_iff, All, if◌then◌else◌, is_some, Bool-cases, Option-cases, inl, inr,
}
use kryvaracode.Common.Dict.{Dict, lookup, insert, lookup-insert}
use kryvaracode.Sovereign.Memory.{
  MemoryNode, SovereignMemory, ids_of, index_one, index_all, new_memory, new_node, commit, relate,
  link_nodes, nodes_at, tagged, candidates,
}

-- Every identifier is a key of the nodes.
abbrev pub AllKnown : {V : Type 0} → Dict V → List String → Type 0
AllKnown nodes ids = All (λ id. is_some (lookup id nodes) ≡ true) ids

abbrev pub IsIndexed : {V : Type 0} → Dict V → Dict (List String) → Type 0
IsIndexed nodes index = (tag : String) → AllKnown nodes (ids_of tag index)

ids_of-index_one :
    (id tag other : String) (index : Dict (List String))
    → ids_of other (index_one id tag index)
      ≡ (if tag == other then ids_of other index ++ id ∷ [] else ids_of other index)
unfolding index_one
ids_of-index_one id tag other index = elim (Option-cases (lookup tag index)) [
  | inl e ↦
      let known = insert tag [] index in
      let now = ids_of tag known ++ id ∷ [] in
      rw e (
        ground (
          arith,
          e,
          eq_iff tag other,
          eq_iff tag tag,
          lookup-insert tag other now known,
          lookup-insert tag tag [] index,
          lookup-insert tag other [] index,
        ))
  | inr (old, e) ↦
      rw e (ground (arith, e, eq_iff tag other, lookup-insert tag other (old ++ id ∷ []) index))
]

module _ {V : Type 0} where
  AllKnown-append :
      (nodes : Dict V) (ids : List String) (id : String)
      → AllKnown nodes ids
      → is_some (lookup id nodes) ≡ true
      → AllKnown nodes (ids ++ id ∷ [])
  AllKnown-append nodes [] id h k = (k, tt)
  AllKnown-append nodes (i ∷ ids) id h k = (h.0, AllKnown-append nodes ids id h.1 k)

  AllKnown-insert :
      (nodes : Dict V) (id : String) (v : V) (ids : List String)
      → AllKnown nodes ids
      → AllKnown (insert id v nodes) ids
  AllKnown-insert nodes id v [] h = tt
  AllKnown-insert nodes id v (i ∷ ids) h = (
    ground (arith, h.0, eq_iff id i, lookup-insert id i v nodes),
    AllKnown-insert nodes id v ids h.1,
  )

  index_all-IsIndexed :
      (nodes : Dict V) (id : String) (tags : List String) (index : Dict (List String))
      → is_some (lookup id nodes) ≡ true
      → IsIndexed nodes index
      → IsIndexed nodes (index_all id tags index)
  unfolding index_all
  index_all-IsIndexed nodes id [] index known h = h
  index_all-IsIndexed nodes id (tag ∷ tags) index known h =
      index_all-IsIndexed nodes id tags (index_one id tag index) known (λ other.
        subst (AllKnown nodes) (sym (ids_of-index_one id tag other index))
          (elim (Bool-cases (tag == other)) [
            | inl e ↦ rw e (AllKnown-append nodes (ids_of other index) id (h other) known)
            | inr e ↦ rw e (h other)
          ]))

-- The calls that change a memory.
pub data Call (C E : Type 0) : Type 0 where
  committed : String → ℕ → String → String → String → C → Option (List String) → Option E → Call C E
  linked : String → String → Call C E

module _ {C E : Type 0} where
  unfoldable pub step : (String → E) → Call C E → SovereignMemory C E → SovereignMemory C E
  step encode (committed node_id now tier category content context tags embedding) m =
      (commit encode node_id now tier category content context tags embedding m).0
  step encode (linked a b) m = link_nodes a b m

  unfoldable pub steps : (String → E) → List (Call C E) → SovereignMemory C E → SovereignMemory C E
  unfolding step
  steps encode [] m = m
  steps encode (c ∷ cs) m = steps encode cs (step encode c m)

  AllKnown-relate :
      (a b : String) (nodes : Dict (MemoryNode C E)) (ids : List String)
      → AllKnown nodes ids
      → AllKnown (relate a b nodes) ids
  unfolding relate
  AllKnown-relate a b nodes ids h = elim (Option-cases (lookup a nodes)) [
    | inl e ↦
        let same : relate a b nodes ≡ nodes = ground (arith, e) in
        subst (λ d. AllKnown d ids) (sym same) h
    | inr (node, e) ↦
        let more = record node { related_nodes = node.related_nodes ++ b ∷ [] } in
        let put : relate a b nodes ≡ insert a more nodes = ground (arith, e) in
        subst (λ d. AllKnown d ids) (sym put) (AllKnown-insert nodes a more ids h)
  ]

  step-IsIndexed :
      (encode : String → E) (c : Call C E) (m : SovereignMemory C E)
      → IsIndexed m.nodes m.index_by_tag
      → IsIndexed (step encode c m).nodes (step encode c m).index_by_tag
  unfolding step commit link_nodes
  step-IsIndexed encode (committed node_id now tier category content context tags embedding) m h =
      let node = new_node encode node_id now tier category content context tags embedding in
      index_all-IsIndexed (insert node_id node m.nodes) node_id node.tags m.index_by_tag
        (ground (arith, eq_iff node_id node_id, lookup-insert node_id node_id node m.nodes))
        (λ tag. AllKnown-insert m.nodes node_id node (ids_of tag m.index_by_tag) (h tag))
  step-IsIndexed encode (linked a b) m h =
      elim (Bool-cases (is_some (lookup a m.nodes) && is_some (lookup b m.nodes))) [
        | inl e ↦ rw e (λ tag.
            AllKnown-relate b a (relate a b m.nodes) (ids_of tag m.index_by_tag)
              (AllKnown-relate a b m.nodes (ids_of tag m.index_by_tag) (h tag)))
        | inr e ↦ rw e h
      ]

  steps-IsIndexed :
      (encode : String → E) (cs : List (Call C E)) (m : SovereignMemory C E)
      → IsIndexed m.nodes m.index_by_tag
      → IsIndexed (steps encode cs m).nodes (steps encode cs m).index_by_tag
  unfolding steps
  steps-IsIndexed encode [] m h = h
  steps-IsIndexed encode (c ∷ cs) m h =
      steps-IsIndexed encode cs (step encode c m) (step-IsIndexed encode c m h)

  nodes_at-AllKnown :
      (nodes : Dict (MemoryNode C E)) (ids : List String)
      → AllKnown nodes ids
      → is_some (nodes_at ids nodes) ≡ true
  unfolding nodes_at
  nodes_at-AllKnown nodes [] h = refl
  nodes_at-AllKnown nodes (id ∷ ids) h = ground (arith, h.0, nodes_at-AllKnown nodes ids h.1)

  tagged-IsIndexed :
      (tags : List String) (m : SovereignMemory C E)
      → IsIndexed m.nodes m.index_by_tag
      → is_some (tagged tags m) ≡ true
  unfolding tagged
  tagged-IsIndexed [] m h = refl
  tagged-IsIndexed (tag ∷ tags) m h = ground (
    arith,
    nodes_at-AllKnown m.nodes (ids_of tag m.index_by_tag) (h tag),
    tagged-IsIndexed tags m h,
  )

  candidates-IsIndexed :
      (tags : List String) (tier : Option String) (m : SovereignMemory C E)
      → IsIndexed m.nodes m.index_by_tag
      → is_some (candidates tags tier m) ≡ true
  unfolding candidates
  candidates-IsIndexed [] none m h = refl
  candidates-IsIndexed [] (some t) m h = refl
  candidates-IsIndexed (tag ∷ tags) none m h = tagged-IsIndexed (tag ∷ tags) m h
  candidates-IsIndexed (tag ∷ tags) (some t) m h = ground (arith, tagged-IsIndexed (tag ∷ tags) m h)

  -- However nodes are committed and linked, with identifiers that may be drawn twice, a query by any tags
  -- and any tier finds its candidates: the index never names a node that is missing.
  pub candidates-total :
      (encode : String → E) (cs : List (Call C E)) (tags : List String) (tier : Option String)
      → is_some (candidates tags tier (steps encode cs new_memory)) ≡ true
  unfolding new_memory lookup
  candidates-total encode cs tags tier =
      candidates-IsIndexed tags tier (steps encode cs new_memory)
        (steps-IsIndexed encode cs new_memory (λ tag. tt))
