-- ===== src/Sovereign/Swarm.antt =====
-- src/agent/sovereign/swarm_engine.py: the loop of executor and critic. The roles answer as the prototype of
-- `_invoke_role` does, from the role and the iteration alone. The keys of `current_context` are fields,
-- and the roles that are invoked are recorded in their order.
pub mod Runs
mod Tests
use kryvaracode.Common.{
  ℕ, zero, suc, ◌+◌, ◌-◌, String, Bool, true, false, Option, none, some, List, [], ◌∷◌, ◌++◌, ltb,
  if◌then◌else◌,
}

pub data SwarmRole : Type 0 where
  strategist executor critic judge : SwarmRole

-- The dictionaries that the roles answer.
pub data Response : Type 0 where
  designed : String → String → Response
  implemented : String → String → String → Response
  reviewed : Bool → String → Response
  nothing : Response

pub record SwarmEngine : Type 0 where
  pub blueprint : Option Response
  pub last_implementation : Option Response
  pub last_critique : Option Response
  pub iteration_count : ℕ
  pub max_iterations : ℕ
  pub invoked : List SwarmRole

-- `__init__`
unfoldable pub new_engine : SwarmEngine
new_engine = record {
  blueprint = none;
  last_implementation = none;
  last_critique = none;
  iteration_count = 0;
  max_iterations = 5;
  invoked = [];
}

unfoldable pub invoke_role : SwarmRole → ℕ → Response
invoke_role strategist iteration =
    designed "1. Use Forge to create API-wrapper. 2. Use Eye to verify UI. 3. Push to DB."
      "Latency < 200ms"
invoke_role executor iteration = implemented "implemented" "logs.txt" "Task complete"
invoke_role critic iteration =
    if ltb iteration 2
    then reviewed true "Edge case: network timeout not handled."
    else reviewed false "Implementation is robust."
invoke_role judge iteration = nothing

-- `critique.get("is_flawed", False)`
abbrev pub is_flawed : Response → Bool
is_flawed (reviewed flawed reason) = flawed
is_flawed _ = false

-- The body of the loop up to the test of the critique.
unfoldable pub iterate : SwarmEngine → SwarmEngine × Response
unfolding invoke_role
iterate e =
    let count = e.iteration_count + 1 in
    (
      record e {
        iteration_count = count;
        last_implementation = some (invoke_role executor count);
        invoked = e.invoked ++ executor ∷ critic ∷ [];
      },
      invoke_role critic count,
    )

-- The `while`, on fuel; `none` if the fuel is used up.
unfoldable pub loop : ℕ → SwarmEngine → Option SwarmEngine
unfolding iterate
loop zero e = none
loop (suc n) e =
    let (e', critique) = iterate e in
    let again = loop n (record e' { last_critique = some critique }) in
    if ltb e.iteration_count e.max_iterations
    then (if is_flawed critique then again else some e')
    else some e

-- The dictionary that `run_loop` returns.
pub record Outcome : Type 0 where
  pub final_implementation : Option Response
  pub final_critique : Option Response
  pub blueprint : Response
  pub iterations : ℕ

-- The first step of `run_loop`.
abbrev pub begun : SwarmEngine → SwarmEngine
begun e = record e {
  blueprint = some (invoke_role strategist e.iteration_count);
  invoked = e.invoked ++ strategist ∷ [];
}

-- What `run_loop` returns, from the engine before and after its loop.
abbrev pub outcome_of : SwarmEngine → SwarmEngine → Outcome
outcome_of e e' = record {
  final_implementation = e'.last_implementation;
  final_critique = e'.last_critique;
  blueprint = invoke_role strategist e.iteration_count;
  iterations = e'.iteration_count;
}

abbrev pub finished : SwarmEngine → Option SwarmEngine → Option (SwarmEngine × Outcome)
finished e none = none
finished e (some e') = some (e', outcome_of e e')

-- Each round raises the count, so one more than the rounds that are left is enough fuel.
unfoldable pub run_loop : SwarmEngine → Option (SwarmEngine × Outcome)
unfolding loop
run_loop e = finished e (loop (suc (e.max_iterations - e.iteration_count)) (begun e))
