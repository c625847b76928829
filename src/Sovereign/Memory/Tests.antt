-- ===== src/Sovereign/Memory/Tests.antt =====
-- Two nodes with one tag, linked, for memory_graph.py.
use mathlib.Core.Option
use kryvaracode.Common.{◌≡◌, refl, true, String, none, some, List, [], ◌∷◌, map, is_some, ℕ}
use kryvaracode.Common.Dict.{lookup, insert}
use kryvaracode.Sovereign.Memory.{
  new_memory, candidates, tagged, nodes_at, link_nodes, relate, commit, index_all, index_one,
}
use kryvaracode.Sovereign.Memory.Index.{Call, committed, linked, steps, candidates-total}

abbrev encode : String → List ℕ
encode content = []

abbrev history : List (Call String (List ℕ))
history =
    committed "mem_1" 100 "episodic" "failure_pattern" "timeout" "ctx" (some ("net" ∷ "net" ∷ []))
      none
    ∷ committed "mem_2" 101 "semantic" "rule" "retry" "ctx" (some ("net" ∷ [])) none
    ∷ linked "mem_1" "mem_2"
    ∷ []

found_ids :
    Option.map (map (λ n. n.id)) (candidates ("net" ∷ []) none (steps encode history new_memory))
    ≡ some ("mem_1" ∷ "mem_2" ∷ [])
unfolding candidates steps new_memory tagged nodes_at link_nodes relate commit index_all index_one
    lookup insert
found_ids = refl

candidates-total_example :
    is_some (candidates ("net" ∷ []) (some "semantic") (steps encode history new_memory)) ≡ true
candidates-total_example = candidates-total encode history ("net" ∷ []) (some "semantic")
