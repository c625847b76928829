-- ===== src/Agent/Triggers.antt =====
-- src/agent/orchestrator.py, `EventEvaluator`: whether the condition of a job holds. `int` is read on
-- ASCII. An error of the database is not modelled.
mod Tests
use kryvaracode.Common.{
  ℕ, zero, suc, ◌+◌, ◌-◌, ◌*◌, ◌≡◌, ◌∙◌, refl, ap, sym, String, Bool, true, false, not, ◌&&◌, ◌||◌,
  Option, none, some, List, [], ◌∷◌, ◌==◌, eqb, leb, if◌then◌else◌, is_some, count_if, arith,
}
use kryvaracode.Common.Int.{ℤ, pos, negsuc}
use kryvaracode.Common.Texts.{int, lstrip, rstrip, read_digits}
use kryvaracode.Coordination.Topics.{codes, same}
use kryvaracode.Db.Table.{Row}
use kryvaracode.Db.Models.{AuditLog, ScheduledJob, Database}

-- `s.split(":", 1)`: the texts before and after the first colon; `none` if there is none.
unfoldable pub split_colon : List ℕ → Option (List ℕ × List ℕ)
split_colon [] = none
split_colon (c ∷ cs) =
    let rest = split_colon cs in
    if eqb c 58 then some ([], cs) else (elim rest [ none ↦ none | some (a, b) ↦ some (c ∷ a, b) ])

-- `not AuditLog.success`: Python's `not` of a column is no condition on rows but the value False.
abbrev pub not_success : Bool
not_success = false

-- The rows that the filter keeps, counted.
unfoldable pub fail_count : String → Database → ℕ
fail_count tool_name db =
    count_if (λ (row : Row AuditLog). (row.1.tool_name == tool_name) && not_success) db.audit_log

-- `n >= threshold`
abbrev pub reaches : ℕ → ℤ → Bool
reaches n (pos k) = leb k n
reaches n (negsuc k) = true

abbrev pub meets : ℕ → List ℕ → Option ℤ → Bool
meets count metric none = false
meets count metric (some threshold) =
    if same metric (codes "tool_fail_count") then reaches count threshold else false

-- The condition of a job at a count of failures.
unfoldable pub triggered : ℕ → ScheduledJob → Bool
unfolding same split_colon int
triggered count job = elim job.trigger_condition [
  | none ↦ false
  | some condition ↦ (elim (split_colon (codes condition)) [
    | none ↦ false
    | some (metric, threshold) ↦ meets count metric (int threshold)
  ])
]

unfoldable pub evaluate : Database → ScheduledJob → Bool
unfolding triggered fail_count
evaluate db job = triggered (fail_count job.tool_name db) job

none_counted :
    (tool_name : String) (rows : List (Row AuditLog))
    → count_if (λ (row : Row AuditLog). (row.1.tool_name == tool_name) && not_success) rows ≡ 0
none_counted tool_name [] = refl
none_counted tool_name (r ∷ rows) = ground (arith, none_counted tool_name rows)

triggered_five :
    (job : ScheduledJob)
    → job.trigger_condition ≡ some "tool_fail_count:5"
    → triggered 0 job ≡ false
unfolding triggered
triggered_five job five = rw (five, triggered) refl

pub fail_count-eq_zero : (tool_name : String) (db : Database) → fail_count tool_name db ≡ 0
unfolding fail_count
fail_count-eq_zero tool_name db = none_counted tool_name db.audit_log

-- No failure that the audit log holds triggers a job: whatever the log, the answer is that of an empty
-- one, and the condition of the docstring's example, five failures of the tool, is never met.
pub evaluate-audit_log :
    (db : Database) (job : ScheduledJob)
    → (evaluate db job ≡ evaluate (record db { audit_log = [] }) job)
      × (job.trigger_condition ≡ some "tool_fail_count:5" → evaluate db job ≡ false)
unfolding evaluate
evaluate-audit_log db job =
    let none_failed = fail_count-eq_zero job.tool_name db in
    (
      ap (λ n. triggered n job)
          (none_failed ∙ sym (fail_count-eq_zero job.tool_name (record db { audit_log = [] }))),
      λ five. ap (λ n. triggered n job) none_failed ∙ triggered_five job five,
    )
