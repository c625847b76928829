-- ===== src/Db/Records/Tests.antt =====
-- Three experiments and an audit log for crud.py.
use kryvaracode.Common.{ℕ, ◌≡◌, refl, true, none, some, List, [], ◌∷◌}
use kryvaracode.Db.Models.{Experiment, AuditLog, empty_database}
use kryvaracode.Db.Table.{Row, first, put, remove}
use kryvaracode.Db.Table.Laws.{IsKeyed}
use kryvaracode.Db.Records.{
  ExperimentField.status, ExperimentField.end_time, get_experiment, create_experiment,
  update_experiment, delete_experiment, list_audit_entries,
}
use kryvaracode.Db.Records.Refinement.{
  ExperimentOp, ExperimentOp.creates, ExperimentOp.updates, ExperimentOp.deletes, perform,
  perform_all, entry_all, get_experiment-perform_all,
}

abbrev columns : ℕ → Experiment
columns user_id = record {
  name = "run";
  description = none;
  status = "created";
  start_time = none;
  end_time = none;
  metrics = none;
  parameters = none;
  created_by = user_id;
}

abbrev ops : List ExperimentOp
ops =
    creates 1 columns 7
    ∷ creates 2 columns 8
    ∷ updates 2 (status (some "failed") ∷ end_time none ∷ [])
    ∷ deletes 1
    ∷ []

runs :
    (get_experiment 1 (perform_all ops empty_database) ≡ none)
    × (get_experiment 2 (perform_all ops empty_database)
        ≡ some (2, record (columns 8) { status = "failed" }))
unfolding perform_all perform get_experiment create_experiment update_experiment delete_experiment
    empty_database first put remove
runs = (refl, refl)

get_experiment-perform_all_example :
    (get_experiment 2 (perform_all ops empty_database)
      ≡ entry_all 2 ops (get_experiment 2 empty_database))
    × IsKeyed (perform_all ops empty_database).experiments
unfolding perform create_experiment update_experiment delete_experiment empty_database first put
    remove
get_experiment-perform_all_example =
    get_experiment-perform_all ops 2 empty_database tt (refl, (refl, (tt, (tt, tt))))

abbrev entry : Row AuditLog
entry = (
  1,
  record {
    tool_name = "predict";
    user_id = none;
    arguments = none;
    success = true;
    error = none;
    duration_ms = none;
  },
)

audit :
    list_audit_entries 0 1 (record empty_database { audit_log = entry ∷ (2, entry.1) ∷ [] })
    ≡ (2, entry.1) ∷ []
unfolding list_audit_entries empty_database
audit = refl
