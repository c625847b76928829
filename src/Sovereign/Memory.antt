-- ===== src/Sovereign/Memory.antt =====
-- src/agent/sovereign/memory_graph.py: the nodes of the memory and the index of their tags. `C` is the type
-- of contexts and `E` that of embeddings; the embedding provider, which is chosen by the caller, is the
-- parameter `encode`. The identifier of a new node is an argument (`node_id`). The ranking of `query` and
-- the distillation of lessons are not modelled, only the candidates that a query looks at.
pub mod Index
mod Tests
use kryvaracode.Common.{
  ℕ, String, Bool, true, false, ◌&&◌, not, ◌==◌, Option, none, some, List, [], ◌∷◌, ◌++◌,
  if◌then◌else◌, is_some, keep,
}
use kryvaracode.Common.Dict.{Dict, lookup, insert, values, member}

pub record MemoryNode (C E : Type 0) : Type 0 where
  pub id : String
  pub tier : String
  pub category : String
  pub content : String
  pub context : C
  pub timestamp : ℕ
  pub tags : List String
  pub related_nodes : List String
  pub embedding : E

pub record SovereignMemory (C E : Type 0) : Type 0 where
  pub nodes : Dict (MemoryNode C E)
  pub index_by_tag : Dict (List String)

-- `set(tags)`: each tag once; the order of a set is open, and nothing reads it.
abbrev pub set_of : List String → List String
set_of [] = []
set_of (tag ∷ tags) = let rest = set_of tags in if member tag rest then rest else tag ∷ rest

abbrev pub ids_of : String → Dict (List String) → List String
ids_of tag index = elim (lookup tag index) [ none ↦ [] | some ids ↦ ids ]

-- The body of the loop over the tags.
unfoldable pub index_one : String → String → Dict (List String) → Dict (List String)
index_one node_id tag index =
    let known : Dict (List String) =
      if is_some (lookup tag index) then index else insert tag [] index in
    insert tag (ids_of tag known ++ node_id ∷ []) known

unfoldable pub index_all : String → List String → Dict (List String) → Dict (List String)
unfolding index_one
index_all node_id [] index = index
index_all node_id (tag ∷ tags) index = index_all node_id tags (index_one node_id tag index)

module _ {C E : Type 0} where
  -- `__init__`
  unfoldable pub new_memory : SovereignMemory C E
  new_memory = record { nodes = []; index_by_tag = [] }

  abbrev pub new_node :
      (String → E)
      → String
      → ℕ
      → String
      → String
      → String
      → C
      → Option (List String)
      → Option E
      → MemoryNode C E
  new_node encode node_id now tier category content context tags embedding = record {
    id = node_id;
    tier = tier;
    category = category;
    content = content;
    context = context;
    timestamp = now;
    tags = elim tags [ none ↦ [] | some given ↦ set_of given ];
    related_nodes = [];
    embedding = elim embedding [ none ↦ encode content | some given ↦ given ];
  }

  -- The confidence of a node is set to 1 and read by nothing.
  unfoldable pub commit :
      (String → E)
      → String
      → ℕ
      → String
      → String
      → String
      → C
      → Option (List String)
      → Option E
      → SovereignMemory C E
      → SovereignMemory C E × String
  unfolding index_all
  commit encode node_id now tier category content context tags embedding m =
      let node = new_node encode node_id now tier category content context tags embedding in
      (
        record {
          nodes = insert node_id node m.nodes;
          index_by_tag = index_all node_id node.tags m.index_by_tag;
        },
        node_id,
      )

  unfoldable pub commit_lesson :
      (String → E)
      → String
      → ℕ
      → String
      → String
      → C
      → Option (List String)
      → SovereignMemory C E
      → SovereignMemory C E × String
  unfolding commit
  commit_lesson encode node_id now category content context tags m =
      commit encode node_id now "semantic" category content context tags none m

  -- `self._nodes[a].related_nodes.append(b)`
  unfoldable pub relate : String → String → Dict (MemoryNode C E) → Dict (MemoryNode C E)
  relate a b nodes = elim (lookup a nodes) [
    | none ↦ nodes
    | some node ↦ insert a (record node { related_nodes = node.related_nodes ++ b ∷ [] }) nodes
  ]

  unfoldable pub link_nodes : String → String → SovereignMemory C E → SovereignMemory C E
  unfolding relate
  link_nodes a b m =
      if is_some (lookup a m.nodes) && is_some (lookup b m.nodes)
      then record m { nodes = relate b a (relate a b m.nodes) }
      else m

  -- `[self._nodes[nid] for nid in ids]`; `none` where a node is missing and Python raises `KeyError`.
  unfoldable pub nodes_at : List String → Dict (MemoryNode C E) → Option (List (MemoryNode C E))
  nodes_at [] nodes = some []
  nodes_at (nid ∷ ids) nodes =
      let rest = nodes_at ids nodes in
      elim (lookup nid nodes) [
        | none ↦ none
        | some node ↦ elim rest [ none ↦ none | some found ↦ some (node ∷ found) ]
      ]

  unfoldable pub tagged : List String → SovereignMemory C E → Option (List (MemoryNode C E))
  unfolding nodes_at
  tagged [] m = some []
  tagged (tag ∷ tags) m =
      let rest = tagged tags m in
      elim (nodes_at (ids_of tag m.index_by_tag) m.nodes) [
        | none ↦ none
        | some here ↦ elim rest [ none ↦ none | some found ↦ some (here ++ found) ]
      ]

  -- The candidates of `query`: an empty list of tags counts as none.
  unfoldable pub candidates :
      List String → Option String → SovereignMemory C E → Option (List (MemoryNode C E))
  unfolding tagged
  candidates tags tier m =
      let all : Option (List (MemoryNode C E)) = elim tags [
        | [] ↦ some (values m.nodes)
        | tag ∷ more ↦ tagged (tag ∷ more) m
      ] in
      elim tier [
        | none ↦ all
        | some t ↦ elim all [
          | none ↦ none
          | some found ↦ some (if t == "" then found else keep (λ n. n.tier == t) found)
        ]
      ]
