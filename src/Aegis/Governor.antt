-- ===== src/Aegis/Governor.antt =====
-- src/agent/aegis/governor.py: the budget of resources. Readings of the processor and the memory are
-- arguments, in one unit with the thresholds; costs are whole numbers of the smallest unit of money. The
-- pause of `throttle` is not modelled.
mod Tests
use kryvaracode.Common.{
  ℕ, ◌+◌, ◌≤◌, ◌≡◌, refl, Bool, true, false, List, [], ◌∷◌, ltb, if◌then◌else◌, arith, ◌↔◌, ◌⊎◌,
  inl, inr, Bool-cases,
}

pub record MetabolicGovernor : Type 0 where
  pub cpu_threshold : ℕ
  pub ram_threshold : ℕ
  pub max_api_cost_per_session : ℕ
  pub session_cost : ℕ

-- `__init__`
unfoldable pub new_governor : ℕ → ℕ → ℕ → MetabolicGovernor
new_governor cpu_threshold ram_threshold max_api_cost_per_session = record {
  cpu_threshold = cpu_threshold;
  ram_threshold = ram_threshold;
  max_api_cost_per_session = max_api_cost_per_session;
  session_cost = 0;
}

-- The four answers, each with what its text names.
pub data Vitals : Type 0 where
  healthy : Vitals
  cpu_too_high ram_too_high cost_exceeded : ℕ → ℕ → Vitals

abbrev pub is_healthy : Vitals → Bool
is_healthy healthy = true
is_healthy _ = false

unfoldable pub check_vitals : ℕ → ℕ → MetabolicGovernor → Vitals
check_vitals cpu_usage ram_usage g =
    if ltb g.cpu_threshold cpu_usage
    then cpu_too_high cpu_usage g.cpu_threshold
    else if ltb g.ram_threshold ram_usage
    then ram_too_high ram_usage g.ram_threshold
    else if ltb g.max_api_cost_per_session g.session_cost
    then cost_exceeded g.session_cost g.max_api_cost_per_session
    else healthy

unfoldable pub record_cost : ℕ → MetabolicGovernor → MetabolicGovernor
record_cost cost g = record g { session_cost = g.session_cost + cost }

abbrev pub record_costs : List ℕ → MetabolicGovernor → MetabolicGovernor
record_costs [] g = g
record_costs (cost ∷ costs) g = record_costs costs (record_cost cost g)

abbrev pub sum : List ℕ → ℕ
sum [] = 0
sum (n ∷ ns) = n + sum ns

record_costs_lem :
    (costs : List ℕ) (g : MetabolicGovernor)
    → ((record_costs costs g).session_cost ≡ g.session_cost + sum costs)
      × ((record_costs costs g).cpu_threshold ≡ g.cpu_threshold)
      × ((record_costs costs g).ram_threshold ≡ g.ram_threshold)
      × ((record_costs costs g).max_api_cost_per_session ≡ g.max_api_cost_per_session)
unfolding record_cost
record_costs_lem [] g = (omega arith, refl, refl, refl)
record_costs_lem (cost ∷ costs) g =
    let (spent, cpu, ram, limit) = record_costs_lem costs (record_cost cost g) in
    (omega (arith, spent), cpu, ram, limit)

-- After any costs of a session, the vitals are healthy exactly when processor and memory are at most at
-- their thresholds and the costs add up to at most the session's limit, whatever their order.
check_vitals-record_costs :
    (cpu_threshold ram_threshold limit cpu_usage ram_usage : ℕ) (costs : List ℕ)
    → (is_healthy (
          check_vitals cpu_usage ram_usage
            (record_costs costs (new_governor cpu_threshold ram_threshold limit)))
        ≡ true)
      ↔ ((cpu_usage ≤ cpu_threshold) × (ram_usage ≤ ram_threshold) × (sum costs ≤ limit))
unfolding check_vitals new_governor
check_vitals-record_costs cpu_threshold ram_threshold limit cpu_usage ram_usage costs =
    let (spent, cpu, ram, max) =
      record_costs_lem costs (new_governor cpu_threshold ram_threshold limit) in
    (λ h. ground (arith, spent, cpu, ram, max), λ h. ground (arith, spent, cpu, ram, max))
