-- ===== src/Agent/Triggers/Tests.antt =====
-- Conditions for orchestrator.py, and an audit log with failures.
use kryvaracode.Common.{◌≡◌, refl, String, true, false, none, some, [], ◌∷◌}
use kryvaracode.Common.Int.{pos, negsuc}
use kryvaracode.Coordination.Topics.{codes, same}
use kryvaracode.Db.Models.{AuditLog, ScheduledJob, Database, empty_database}
use kryvaracode.Common.Texts.{int, lstrip, rstrip, read_digits}
use kryvaracode.Agent.Triggers.{split_colon, evaluate, triggered, fail_count, evaluate-audit_log}

numbers :
    (int (codes " 1_000 ") ≡ some (pos 1000))
    × (int (codes "-3") ≡ some (negsuc 2))
    × (int (codes "5x") ≡ none)
unfolding int lstrip rstrip read_digits
numbers = (refl, refl, refl)

abbrev job_when : String → ScheduledJob
job_when condition = record {
  name = "watch";
  tool_name = "predict";
  arguments = none;
  interval_seconds = 60;
  trigger_condition = some condition;
  enabled = true;
  last_run_at = none;
  last_status = none;
  created_by = none;
}

abbrev failure : AuditLog
failure = record {
  tool_name = "predict";
  user_id = none;
  arguments = none;
  success = false;
  error = none;
  duration_ms = none;
}

abbrev one_failure : Database
unfolding empty_database
one_failure = record empty_database { audit_log = (1, failure) ∷ [] }

conditions :
    (evaluate one_failure (job_when "tool_fail_count:1") ≡ false)
    × (evaluate one_failure (job_when "tool_fail_count:0") ≡ true)
unfolding evaluate triggered fail_count split_colon int lstrip rstrip read_digits same one_failure
    empty_database
conditions = (refl, refl)

evaluate-audit_log_example :
    (evaluate one_failure (job_when "tool_fail_count:5")
      ≡ evaluate (record one_failure { audit_log = [] }) (job_when "tool_fail_count:5"))
    × ((job_when "tool_fail_count:5").trigger_condition ≡ some "tool_fail_count:5"
        → evaluate one_failure (job_when "tool_fail_count:5") ≡ false)
evaluate-audit_log_example = evaluate-audit_log one_failure (job_when "tool_fail_count:5")
