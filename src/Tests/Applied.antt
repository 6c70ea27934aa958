-- ===== src/Tests/Applied.antt =====
-- The admitted plan, applied to the sample store, and applied again.
use airflow_dq_agent.Prelude.{◌+◌, ◌/◌, true, false, List, [], ◌∷◌, Option, none, some, get}
use airflow_dq_agent.Errors.{Result, ok, err, type_error}
use airflow_dq_agent.Contracts.Plan.{ExecutablePlanItem, executable_items}
use airflow_dq_agent.Contracts.Decision.{AuditEvent}
use airflow_dq_agent.Apply.Authority.{Runtime, Request}
use airflow_dq_agent.Apply.Execution.{World, Trail, apply_plan}
use airflow_dq_agent.Apply.Results.{ApplyResult, Concluded}
use airflow_dq_agent.Apply.Session.{Session}
use airflow_dq_agent.Apply.Transaction.{ApplyDraw, apply_statements, result_of, event_of}
use airflow_dq_agent.Contracts.Value.{null}
use airflow_dq_agent.Warehouse.{CommittedRow}
use airflow_dq_agent.Tests.Samples.{env, at, value_or}
use airflow_dq_agent.Tests.Runs.{report, plan, evaluation, admission, stamp}
use airflow_dq_agent.Tests.Store.{Store, database, store}

abbrev pub runtime : Runtime
runtime = record {
  system_clock = λ ticks. at (1000 + ticks);
  milliseconds = λ d. d / 1000;
  environment_id_from_dsn = λ dsn. dsn;
  default_dsn = "localhost:5432/dq";
}

abbrev pub request : Request
request = record {
  warehouse_environment_id = none;
  dsn = none;
  engine_url = none;
  run_id = some "apply-1";
  now = none;
  clock = none;
}

abbrev pub draw : ApplyDraw
draw = record {
  apply_result_id = "result-1";
  run_id = "fresh-1";
  stamp = stamp "event-6" 1100;
  failure_stamp = stamp "event-7" 1200;
}

-- Appends to a list of events; the export fails.
abbrev pub trail : Trail (List AuditEvent)
trail = record { append_event = λ e t. (ok tt, e ∷ t); export = λ e t. (err type_error, t) }

abbrev pub world : World Store (List AuditEvent)
world = record { store = store; trail = []; ticks = 0 }

abbrev pub first : Result ApplyResult × World Store (List AuditEvent)
first =
    apply_plan env database trail runtime request plan evaluation report draw false (some admission)
      world

abbrev pub before : Session Store
before = record { store = store; ticks = 1; steps = [] }

abbrev pub ran : Result Concluded × Session Store
ran =
    apply_statements env database runtime request plan evaluation report draw "apply-1" admission
      before

abbrev pub done : Concluded
done =
    value_or
      (
        result_of env plan evaluation draw "" none true [],
        event_of env plan evaluation draw "" none true [],
      )
      ran.0

abbrev pub result : ApplyResult
result = done.0

abbrev pub again : Result ApplyResult × World Store (List AuditEvent)
again =
    apply_plan env database trail runtime request plan evaluation report draw false (some admission)
      first.1

abbrev row_or : Option CommittedRow → CommittedRow
row_or none = record {
  run_id = null;
  plan_id = null;
  target_count = null;
  rowcount = null;
  event_body = null;
}
row_or (some row) = row

abbrev pub committed_row_of : CommittedRow
committed_row_of = row_or (get admission.admission_id first.1.store.results)

abbrev pub admitted_item : List ExecutablePlanItem → ExecutablePlanItem
admitted_item [] = record {
  item_id = "";
  action_id = "";
  table = "";
  params = [];
  evidence = [];
  target_set = record { count = 0; fingerprint = "" };
  policy_fingerprint = "";
}
admitted_item (item ∷ items) = item

abbrev pub item : ExecutablePlanItem
item = admitted_item (executable_items plan.items)
