-- ===== src/Coordination/Coordinator/Agents.antt =====
-- coordinator.py: `register_agent` and `deregister_agent`, as the three stores show them.
use Prim.Native.String.{◌++◌ as text_append}
use package.text.Mathlib.TextLemmas.{append_cancel_left}
use kryvaracode.Common.{
  ℕ, ◌≡◌, refl, ◌∙◌, String, true, false, Option, none, some, List, [], ◌∷◌, ◌++◌, arith, eq_iff,
  ◌==◌, if◌then◌else◌, eq_self, Option-cases, inl, inr, is_some, ◌⊎◌,
}
use kryvaracode.Common.Dict.{lookup, lookup-insert, lookup-without}
use kryvaracode.Coordination.SharedState.{SharedState, set}
use kryvaracode.Coordination.SharedState.Views.{view}
use kryvaracode.Coordination.SharedState.Writes.{view-set, effective_ttl, effective_ttl-set}
use kryvaracode.Coordination.MessageBus.{publish, agent_msg}
use kryvaracode.Coordination.Coordinator.{
  AgentCoordinator, StateValue, text, texts, agent_registered, agent_deregistered, agent_key,
  given_or, new_agent, announcement, register_agent, deregister_agent, get_agent,
}

agent_key-suffix : (name s t : String) → agent_key name s ≡ agent_key name t → s ≡ t
agent_key-suffix name s t e =
    append_cancel_left name s t
      (append_cancel_left "agent." (text_append name s) (text_append name t) e)

-- Keys of one agent with different suffixes are different.
agent_key-apart :
    (name s t : String) → (s == t) ≡ false → (agent_key name s == agent_key name t) ≡ false
agent_key-apart name s t h =
    ground
      (arith, eq_iff (agent_key name s) (agent_key name t), agent_key-suffix name s t, eq_iff s t)

-- No time-to-live is in force on the key: what is set without one stays.
abbrev pub Stays : SharedState StateValue → String → Type 0
Stays s k = effective_ttl s k none ≡ none

module _ {V : Type 0} where
  -- Registering an agent stores its record under its name and changes no other; the shared state
  -- then shows its status and its capabilities, as long as no time-to-live was set on these keys
  -- before; one message about it is put at the end of the bus's queue.
  register_agent-effects :
      (name : String) (caps : Option (List String)) (now later : ℕ) (uuid : String)
      (c : AgentCoordinator V)
      → Stays c.state (agent_key name ".status")
      → Stays c.state (agent_key name ".capabilities")
      → ((j : String)
          → get_agent j (register_agent name caps now uuid c).0
            ≡ (if name == j then some (new_agent name caps now) else get_agent j c))
        × (view (register_agent name caps now uuid c).0.state later (agent_key name ".status")
            ≡ some (text "registered"))
        × (view (register_agent name caps now uuid c).0.state later (agent_key name ".capabilities")
            ≡ some (texts (given_or caps [])))
        × ((register_agent name caps now uuid c).0.bus.queue
            ≡ c.bus.queue
              ++ announcement "coordinator.agent.registered"
                  (agent_registered name (given_or caps []))
                  agent_msg
                  uuid
                  now
                ∷ [])
  unfolding register_agent get_agent publish
  register_agent-effects name caps now later uuid c status_stays caps_stay =
      let status = agent_key name ".status" in
      let capabilities = agent_key name ".capabilities" in
      let listed = texts (given_or caps []) in
      let noted = (set status (text "registered") "coordinator" none now c.state).0 in
      let apart : (capabilities == status) ≡ false =
        agent_key-apart name ".capabilities" ".status" refl in
      (
        λ j. ground (arith, lookup-insert name j (new_agent name caps now) c.agents),
        view-set capabilities status "coordinator" listed none now later noted
            ∙ rw apart (
                view-set status status "coordinator" (text "registered") none now later c.state
                ∙ rw (eq_self status, status_stays)),
        view-set capabilities capabilities "coordinator" listed none now later noted
            ∙ rw (
              eq_self capabilities,
              effective_ttl-set status capabilities "coordinator" (text "registered") now c.state,
              caps_stay,
            ),
        refl,
      )

  -- Deregistering a known agent answers true, takes it out and changes no other; the shared state
  -- then shows the agent as stopped, as long as no time-to-live was set on that key before, and
  -- one message about it is put at the end of the bus's queue. For an unknown agent the answer is
  -- false and nothing happens.
  pub deregister_agent-effects :
      (name : String) (now later : ℕ) (uuid : String) (c : AgentCoordinator V)
      → Stays c.state (agent_key name ".status")
      → (deregister_agent name now uuid c ≡ (c, false)) × (get_agent name c ≡ none)
        ⊎ ((deregister_agent name now uuid c).1 ≡ true)
          × (is_some (get_agent name c) ≡ true)
          × ((j : String)
              → get_agent j (deregister_agent name now uuid c).0
                ≡ (if name == j then none else get_agent j c))
          × (view (deregister_agent name now uuid c).0.state later (agent_key name ".status")
              ≡ some (text "stopped"))
          × ((deregister_agent name now uuid c).0.bus.queue
              ≡ c.bus.queue
                ++ announcement "coordinator.agent.deregistered"
                    (agent_deregistered name)
                    agent_msg
                    uuid
                    now
                  ∷ [])
  unfolding deregister_agent get_agent publish
  deregister_agent-effects name now later uuid c status_stays =
      let status = agent_key name ".status" in
      elim (Option-cases (lookup name c.agents)) [
        | inl e ↦ inl (ground arith, e)
        | inr (info, e) ↦ inr (
          ground arith,
          ground arith,
          λ j. ground (arith, lookup-without name j c.agents),
          rw (e, deregister_agent)
              (view-set status status "coordinator" (text "stopped") none now later c.state
                ∙ rw (eq_self status, status_stays)),
          ground arith,
        )
      ]
