-- ===== src/Sovereign/Swarm/Runs.antt =====
-- swarm_engine.py: every run ends, and what the runs of one engine add up to.
use mathlib.Core.List.{append_assoc, append-nil}
use kryvaracode.Common.{
  ℕ, zero, suc, ◌+◌, ◌-◌, ◌≤◌, ◌<◌, min, ◌≡◌, ◌∙◌, inl, inr, refl, ap, sym, Option, none, some,
  List, [], ◌∷◌, ◌++◌, arith, ltb, ltb→lt, leb, eqb, if◌then◌else◌, Bool-cases,
}
use kryvaracode.Sovereign.Swarm.{
  SwarmRole, strategist, executor, critic, SwarmEngine, Outcome, invoke_role, iterate, loop, begun,
  finished, outcome_of, run_loop, new_engine,
}

-- The count that a run leaves: none of its own if the limit was reached before, two rounds for the first
-- run of an engine, one round for any other.
abbrev pub next_count : ℕ → ℕ → ℕ
next_count count max = if leb max count then count else if eqb count 0 then min 2 max else count + 1

-- The roles that a number of rounds invokes.
abbrev pub pairs : ℕ → List SwarmRole
pairs zero = []
pairs (suc n) = executor ∷ critic ∷ pairs n

-- One round and those after it, in the roles that they invoke.
pairs-later :
    (roles : List SwarmRole) (first last : ℕ)
    → first + 1 ≤ last
    → (roles ++ executor ∷ critic ∷ []) ++ pairs (last - (first + 1))
      ≡ roles ++ pairs (last - first)
pairs-later roles first last h =
    let one_more : last - first ≡ suc (last - (first + 1)) = omega arith in
    append_assoc roles (executor ∷ critic ∷ []) (pairs (last - (first + 1)))
    ∙ sym (ap (λ n. roles ++ pairs n) one_more)

no_pairs : (roles : List SwarmRole) (n : ℕ) → roles ≡ roles ++ pairs (n - n)
no_pairs roles n =
    let nothing : n - n ≡ 0 = omega arith in
    sym (ap (λ m. roles ++ pairs m) nothing ∙ append-nil roles)

one_pair :
    (roles : List SwarmRole) (n : ℕ) → roles ++ executor ∷ critic ∷ [] ≡ roles ++ pairs (n + 1 - n)
one_pair roles n = let one : n + 1 - n ≡ 1 = omega arith in sym (ap (λ m. roles ++ pairs m) one)

loop_counts :
    (n : ℕ) (e : SwarmEngine)
    → e.max_iterations - e.iteration_count < n
    → (e' : SwarmEngine) × (loop n e ≡ some e')
      × (e'.iteration_count ≡ next_count e.iteration_count e.max_iterations)
      × (e'.max_iterations ≡ e.max_iterations)
      × (e'.last_implementation ≡ (
          if leb e.max_iterations e.iteration_count
          then e.last_implementation
          else some (invoke_role executor e'.iteration_count)))
      × (e'.invoked ≡ e.invoked ++ pairs (e'.iteration_count - e.iteration_count))
unfolding loop iterate invoke_role
loop_counts zero e h = absurd (omega arith)
loop_counts (suc n) e h = elim (Bool-cases (ltb e.iteration_count e.max_iterations)) [
  | inr reached ↦
      (e, rw reached refl, ground arith, refl, ground arith, no_pairs e.invoked e.iteration_count)
  | inl below ↦ elim (Bool-cases (ltb (e.iteration_count + 1) 2)) [
    | inr sound ↦
        let e1 = (iterate e).0 in
        (
          e1,
          rw (below, sound) refl,
          ground arith,
          refl,
          ground arith,
          one_pair e.invoked e.iteration_count,
        )
    | inl flawed ↦
        let e1 = record (iterate e).0 { last_critique = some (iterate e).1 } in
        let (e', ended, counted, kept, made, roles) =
          loop_counts n e1 (omega (arith, ltb→lt e.iteration_count e.max_iterations below)) in
        let again : loop (suc n) e ≡ loop n e1 = rw (below, flawed) refl in
        let later =
          pairs-later e.invoked e.iteration_count e'.iteration_count (ground (arith, counted)) in
        (e', again ∙ ended, ground (arith, counted), kept, ground (arith, made), roles ∙ later)
  ]
]

-- Every run ends. Its iterations are those of its engine's life: two more for the first run (or
-- one, at a limit of one), one more for a later one, and none once the limit of the engine is reached. It
-- invokes the strategist, and then the
-- executor and the critic once for each of these iterations and nobody else: once the limit is reached it
-- invokes no executor, and the implementation that it answers is the one that the engine had before.
pub run_loop-ends :
    (e : SwarmEngine)
    → (e' : SwarmEngine) × (outcome : Outcome) × (run_loop e ≡ some (e', outcome))
      × (e'.iteration_count ≡ next_count e.iteration_count e.max_iterations)
      × (e'.max_iterations ≡ e.max_iterations)
      × (outcome.iterations ≡ e'.iteration_count)
      × (outcome.final_implementation ≡ (
          if leb e.max_iterations e.iteration_count
          then e.last_implementation
          else some (invoke_role executor e'.iteration_count)))
      × (e'.invoked ≡ e.invoked ++ strategist ∷ pairs (e'.iteration_count - e.iteration_count))
unfolding run_loop
run_loop-ends e =
    let (e', ended, counted, kept, made, roles) =
      loop_counts (suc (e.max_iterations - e.iteration_count)) (begun e) (omega arith) in
    let invoked =
      roles
      ∙ append_assoc e.invoked (strategist ∷ []) (pairs (e'.iteration_count - e.iteration_count)) in
    (e', outcome_of e e', ap (finished e) ended, counted, kept, refl, made, invoked)

-- Runs of one engine, one after the other.
unfoldable pub runs : ℕ → SwarmEngine → Option SwarmEngine
runs zero e = some e
runs (suc n) e = elim (run_loop e) [ none ↦ none | some p ↦ runs n p.0 ]

runs-suc :
    (n : ℕ) (e e' : SwarmEngine) (outcome : Outcome)
    → run_loop e ≡ some (e', outcome)
    → runs (suc n) e ≡ runs n e'
unfolding runs
runs-suc n e e' outcome h =
    ap (λ r. elim r as (λ x. Option SwarmEngine) [ none ↦ none | some p ↦ runs n p.0 ]) h

runs_counts :
    (n : ℕ) (e : SwarmEngine)
    → 0 < e.iteration_count
    → e.iteration_count ≤ e.max_iterations
    → (e' : SwarmEngine) × (runs n e ≡ some e')
      × (e'.iteration_count ≡ min e.max_iterations (e.iteration_count + n))
unfolding runs
runs_counts zero e h k = (e, refl, omega (arith, k))
runs_counts (suc n) e h k =
    let (e', outcome, ended, counted, kept, _, _, _) = run_loop-ends e in
    let (e2, rest, total) =
      runs_counts n e' (ground (arith, counted)) (ground (arith, counted, kept)) in
    (e2, runs-suc n e e' outcome ended ∙ rest, ground (arith, total, counted, kept))

-- The limit of five is for the life of an engine, not for a run: after `n + 1` runs of a new engine the
-- count is `n + 2`, at most 5, and from the fourth run on it stays 5.
runs-new_engine :
    (n : ℕ)
    → (e' : SwarmEngine) × (runs (suc n) new_engine ≡ some e')
      × (e'.iteration_count ≡ min 5 (n + 2))
unfolding new_engine
runs-new_engine n =
    let (e', outcome, ended, counted, kept, _, _, _) = run_loop-ends new_engine in
    let (e2, rest, total) =
      runs_counts n e' (ground (arith, counted)) (ground (arith, counted, kept)) in
    (e2, runs-suc n new_engine e' outcome ended ∙ rest, ground (arith, total, counted, kept))
