-- ===== src/Coordination/Coordinator/Heartbeats.antt =====
-- coordinator.py: which agents count as degraded.
use mathlib.Core.Option
use kryvaracode.Common.{
  ℕ, ◌+◌, ◌≤◌, ◌≡◌, refl, ◌∙◌, String, true, false, some, [], ◌∷◌, map, arith, ltb, if◌then◌else◌,
  ◌⊎◌, Option-cases, inl, inr, ap,
}
use kryvaracode.Common.Dict.{Dict, lookup, insert, lookup-insert_self}
use kryvaracode.Coordination.Coordinator.{
  AgentCoordinator, AgentInfo, active, degraded, has_status, heartbeat_timeout, checked, refreshed,
  heartbeat, check_heartbeats, get_agent,
}

lookup-checked :
    (now : ℕ) (m : Dict AgentInfo) (j : String)
    → lookup j (map (λ e. (e.0, checked now e.1)) m) ≡ Option.map (checked now) (lookup j m)
unfolding lookup
lookup-checked now [] j = refl
lookup-checked now ((k, info) ∷ m) j = ground (arith, lookup-checked now m j)

checked_lem :
    (now : ℕ) (info : AgentInfo)
    → checked now info ≡ (
        if ltb (info.last_heartbeat + heartbeat_timeout) now
        then record info { status = degraded }
        else info)
checked_lem now info = ground arith

checked-refreshed :
    (now t : ℕ) (info : AgentInfo)
    → now ≤ t + heartbeat_timeout
    → checked now (refreshed info t) ≡ refreshed info t
checked-refreshed now t info h = ground arith

module _ {V : Type 0} where
  -- A round of the heartbeat monitor degrades exactly the agents that were last heard of more than
  -- the timeout ago, whatever their status, and changes nothing else of any agent.
  check_heartbeats-degrades :
      (now : ℕ) (c : AgentCoordinator V) (j : String)
      → get_agent j (check_heartbeats now c)
        ≡ Option.map
            (λ info.
              if ltb (info.last_heartbeat + heartbeat_timeout) now
              then record info { status = degraded }
              else info)
            (get_agent j c)
  unfolding check_heartbeats get_agent
  check_heartbeats-degrades now c j = lookup-checked now c.agents j ∙ same
    where
      same :
          Option.map (checked now) (lookup j c.agents)
          ≡ Option.map
              (λ info.
                if ltb (info.last_heartbeat + heartbeat_timeout) now
                then record info { status = degraded }
                else info)
              (lookup j c.agents)
      same = elim (Option-cases (lookup j c.agents)) [
        | inl e ↦ rw e refl
        | inr (info, e) ↦ rw e (ap some (checked_lem now info))
      ]

  -- An agent that sends a heartbeat is not degraded by a round within the timeout: it stays in the
  -- table, heard of at that time, active if it was registered or degraded, and else as it was.
  pub heartbeat-keeps_alive :
      (name : String) (t now : ℕ) (c : AgentCoordinator V) (info : AgentInfo)
      → get_agent name c ≡ some info
      → now ≤ t + heartbeat_timeout
      → (info' : AgentInfo) × (get_agent name (check_heartbeats now (heartbeat name t c))
          ≡ some info')
        × (info'.last_heartbeat ≡ t)
        × (has_status info'.status degraded ≡ false)
        × ((has_status info'.status active ≡ true) ⊎ (info'.status ≡ info.status))
  unfolding check_heartbeats get_agent heartbeat
  heartbeat-keeps_alive name t now c info e h = (
    refreshed info t,
    ground (
      arith,
      lookup-checked now (insert name (refreshed info t) c.agents) name,
      lookup-insert_self name (refreshed info t) c.agents,
      checked-refreshed now t info,
    ),
    refl,
    ground arith,
    ground arith,
  )
