-- ===== src/Sovereign/Swarm/Tests.antt =====
-- Runs of the swarm's engine for swarm_engine.py.
use kryvaracode.Common.{◌≡◌, ◌-◌, ◌∷◌, ◌++◌, some, leb, if◌then◌else◌}
use kryvaracode.Sovereign.Swarm.{
  strategist, executor, SwarmEngine, Outcome, invoke_role, run_loop, new_engine,
}
use kryvaracode.Sovereign.Swarm.Runs.{next_count, pairs, run_loop-ends}

-- An engine whose limit was reached by earlier runs.
abbrev spent : SwarmEngine
spent = record new_engine { iteration_count = 5; max_iterations = 5 }

run_loop-ends_example :
    (e' : SwarmEngine) × (outcome : Outcome) × (run_loop spent ≡ some (e', outcome))
    × (e'.iteration_count ≡ next_count spent.iteration_count spent.max_iterations)
    × (e'.max_iterations ≡ spent.max_iterations)
    × (outcome.iterations ≡ e'.iteration_count)
    × (outcome.final_implementation ≡ (
        if leb spent.max_iterations spent.iteration_count
        then spent.last_implementation
        else some (invoke_role executor e'.iteration_count)))
    × (e'.invoked
        ≡ spent.invoked ++ strategist ∷ pairs (e'.iteration_count - spent.iteration_count))
run_loop-ends_example = run_loop-ends spent
