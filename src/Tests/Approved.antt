-- ===== src/Tests/Approved.antt =====
-- The theorem on the stages together, applied to the sample run.
use airflow_dq_agent.Prelude.{◌+◌, ◌<◌, ◌≤◌, ◌≡◌, refl, [], ◌∷◌, none, some, arith}
use airflow_dq_agent.Errors.{ok}
use airflow_dq_agent.Contracts.Decision.{ApplyAdmission}
use airflow_dq_agent.Planning.Admission.{in_utc, later, create_apply_admission}
use airflow_dq_agent.Planning.Admission.Authorized.{
  IsAuthorized, create_apply_admission-IsAuthorized,
}
use airflow_dq_agent.Hitl.{decided}
use airflow_dq_agent.Pipeline.{IsApprovedRun, approved_run-admitted}
use airflow_dq_agent.Tests.Store.{resolver, resolves}
use airflow_dq_agent.Tests.Samples.{env, at, proposal}
use airflow_dq_agent.Tests.Runs.{
  report, plan, evaluated, evaluation, review, stamp, reviewed, approvers, draw, approval, persist,
  recorded, decision, lookup, admission, ttl,
}
use airflow_dq_agent.Tests.Stages.{succeeds, report-ReportMatches, persisted-found, filled}

authorized :
    IsAuthorized env "admission-1"
      (at 120)
      plan
      evaluation
      decision
      report
      ttl
      (some lookup)
      admission
authorized =
    create_apply_admission-IsAuthorized env "admission-1" (at 120) plan evaluation decision report
      ttl (some lookup) admission succeeds.admits

run : IsApprovedRun env resolver persist report proposal plan evaluation decision ttl lookup
run = record {
  environment = none;
  plan_id = "plan-1";
  compiled_at = at 20;
  compiled = succeeds.plans;
  unblocked = authorized.unblocked;
  evaluation_id = "evaluation-1";
  evaluated = evaluated;
  evaluates = succeeds.evaluates;
  evaluation_event_id = "event-3";
  evaluation_audited = refl;
  review = review;
  reviews = succeeds.builds;
  stamp = stamp "event-4" 40;
  review_stored = succeeds.stores;
  draw = draw;
  approver_ids = approvers;
  input = decided approval;
  s = reviewed ∷ [];
  s' = recorded.1;
  recorded = succeeds.records;
  durable = persisted-found;
  approved = succeeds.is_approval;
  review_text = succeeds.review_text;
  event_text = succeeds.event_text;
}

after_decision : decision.decided_at.micros ≤ 120
after_decision = rw succeeds.decided (omega arith)

before_expiry : 120 < decision.decided_at.micros + ttl
before_expiry = rw succeeds.decided (omega arith)

approved_run-admitted_example :
    (a : ApplyAdmission) × (create_apply_admission env "admission-2"
        (at 120)
        plan
        evaluation
        decision
        report
        ttl
        (some lookup)
      ≡ ok a)
    × (a.issued_at ≡ at 120)
    × (a.expires_at ≡ later (in_utc decision.decided_at) ttl)
approved_run-admitted_example =
    approved_run-admitted env resolver persist report proposal plan evaluation decision ttl lookup
      "admission-2" (at 120) filled resolves report-ReportMatches succeeds.reflexive
      authorized.report_unaltered authorized.no_conflict refl after_decision before_expiry run
