-- ===== src/Coordination/SharedState/Tests.antt =====
-- A test store for shared_state.py: one key for ever, one with a time-to-live of 30.
use kryvaracode.Common.{
  ℕ, ◌+◌, ◌≤◌, String, Bool, false, not, ◌&&◌, ◌==◌, ◌≡◌, refl, Option, none, some, List, [], ◌∷◌,
  eqb, if◌then◌else◌, is_some, arith,
}
use kryvaracode.Common.Dict.{lookup, member}
use kryvaracode.Coordination.SharedState.{
  StateEntry, SharedState, new_state, keys, items, set, atomic_update, compare_and_set,
}
use kryvaracode.Coordination.SharedState.Views.{view}
use kryvaracode.Coordination.SharedState.Writes.{
  lives, effective_ttl, matches, apply_updater, after, view-set, view-compare_and_set,
  view-atomic_update,
}
use kryvaracode.Coordination.SharedState.Swaps.{Swap, successes, successes-le_one}
use kryvaracode.Coordination.SharedState.Sweeps.{snapshot-eq-view}
use kryvaracode.Coordination.SharedState.Log.{
  Call, write, read, swap, cleanup, watch, steps, IsValid, steps-IsValid,
}

abbrev entry : String → ℕ → Option ℕ → StateEntry ℕ
entry key value ttl = record {
  key = key;
  value = value;
  version = 1;
  created_at = 100;
  updated_at = 100;
  ttl_seconds = ttl;
  created_by = "agent";
}

abbrev two_keys : SharedState ℕ
two_keys = record {
  store = ("mode", entry "mode" 1 none) ∷ ("lease", entry "lease" 2 (some 30)) ∷ [];
  change_log = [];
  observers = 4 ∷ [];
  cleaning = false;
  notified = [];
}

abbrev differs : ℕ → ℕ → Bool
differs a b = not (eqb a b)

abbrev increment : ℕ → Option ℕ
increment n = some (n + 1)

view-set_example : view (set "lease" 3 "agent" none 120 two_keys).0 150 "lease" ≡ (
    if "lease" == "lease"
    then (if lives (effective_ttl two_keys "lease" none) 120 150 then some 3 else none)
    else view two_keys 150 "lease")
view-set_example = view-set "lease" "lease" "agent" 3 none 120 150 two_keys

view-compare_and_set_example :
    ((compare_and_set differs "mode" 1 9 "agent" 120 two_keys).1
      ≡ matches differs (view two_keys 120 "mode") 1)
    × (view (compare_and_set differs "mode" 1 9 "agent" 120 two_keys).0 120 "lease" ≡ (
        if matches differs (view two_keys 120 "mode") 1 && "mode" == "lease"
        then some 9
        else view two_keys 120 "lease"))
view-compare_and_set_example = view-compare_and_set differs "mode" "lease" "agent" 1 9 120 two_keys

view-atomic_update_example :
    ((atomic_update "mode" increment "agent" 120 two_keys).1
      ≡ apply_updater increment (view two_keys 120 "mode"))
    × (view (atomic_update "mode" increment "agent" 120 two_keys).0 120 "mode" ≡ (
        if "mode" == "mode"
        then after (view two_keys 120 "mode") (apply_updater increment (view two_keys 120 "mode"))
        else view two_keys 120 "mode"))
view-atomic_update_example = view-atomic_update increment "mode" "mode" "agent" 120 two_keys

-- Three writers that want `mode`.
abbrev writers : List (Swap ℕ)
writers =
    record { now = 120; source = "first"; value = 9 }
    ∷ record { now = 121; source = "second"; value = 8 }
    ∷ record { now = 119; source = "third"; value = 7 }
    ∷ []

successes-le_one_example : successes differs "mode" 1 writers two_keys ≤ 1
successes-le_one_example =
    successes-le_one differs "mode" 1 writers two_keys (refl, (refl, (refl, tt)))

snapshot-eq-view_example :
    (member "lease" (keys 131 two_keys).1 ≡ is_some (view two_keys 131 "lease"))
    × (lookup "lease" (items 131 two_keys).1 ≡ view two_keys 131 "lease")
    × (view (keys 131 two_keys).0 140 "lease" ≡ view two_keys 140 "lease")
    × (view (items 131 two_keys).0 140 "lease" ≡ view two_keys 140 "lease")
unfolding lookup
snapshot-eq-view_example =
    snapshot-eq-view 131 140 two_keys "lease" (refl, (refl, tt)) (omega arith)

abbrev session : List (Call ℕ)
session =
    watch 4
    ∷ write "mode" 1 "agent" none 100
    ∷ write "lease" 2 "agent" (some 30) 100
    ∷ read "lease" 131
    ∷ swap differs "mode" 1 9 "agent" 132
    ∷ cleanup 140
    ∷ []

steps-IsValid_example : IsValid (steps session new_state)
steps-IsValid_example = steps-IsValid session
