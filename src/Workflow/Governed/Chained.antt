-- ===== src/Workflow/Governed/Chained.antt =====
-- Every operation of the workflow keeps the hash chain of the events table.
use agentic_engineering_cont.Prelude.{ℕ, String, List, [], ◌∷◌}
use agentic_engineering_cont.Prelude.Platform.{Platform, Error}
use agentic_engineering_cont.Exec.{Exec, try_except}
use agentic_engineering_cont.Exec.Keeps.{Keeps-weaken, Keeps-try}
use agentic_engineering_cont.Workflow.Lifecycle.{WorkItem, RemediationPlan, ExecutionResult}
use agentic_engineering_cont.Workflow.Execution.{execute_plan, validate_result}
use agentic_engineering_cont.Workflow.Execution.Results.{Keeps-execute_plan, Keeps-validate_result}
use agentic_engineering_cont.Workflow.Store.{State}
use agentic_engineering_cont.Workflow.Store.Chained.{
  IsChained, Chained, Chained-bind, chained_store,
}
use agentic_engineering_cont.Workflow.Governed.{
  WorkflowPolicy, Report, RawFinding, Summary, due_at_for, new_item, ingest_findings, ingest_report,
  ingest_reports, ingest_run, triage, plan, new_approval, approve_execution, run_attempt,
  retry_or_fall_back, execute, after_validation, validate, approve_closure,
}

module _ (p : Platform) (root : String) (policy : WorkflowPolicy) where
  Chained-try :
      {A : Type 0} (m : Exec State A) (h : Error → Exec State A)
      → Chained p m
      → ((e : Error) → Chained p (h e))
      → Chained p (try_except m h)
  Chained-try m h = Keeps-try m h

  Chained-execute_plan :
      (item : WorkItem) (r : RemediationPlan) (actor : String) (n : ℕ)
      → Chained p (execute_plan p root item r actor n)
  Chained-execute_plan item r actor n =
      Keeps-weaken _ (Keeps-execute_plan p root (IsChained p) (λ s s' e h. rw e h) item r actor n)
        λ x ran. tt

  Chained-validate_result : (x : ExecutionResult) → Chained p (validate_result p root x)
  Chained-validate_result x = Keeps-validate_result p root (IsChained p) (λ s s' e h. rw e h) x

  pub Chained-triage : (id actor owner : String) → Chained p (triage p root policy id actor owner)
  unfolding triage
  Chained-triage id actor owner = search chained_store depth 8

  pub Chained-plan : (id actor : String) → Chained p (plan p root policy id actor)
  unfolding plan
  Chained-plan id actor = search chained_store depth 12

  new_approval-Chained :
      (id stage actor decision comment : String)
      → Chained p (new_approval p root policy id stage actor decision comment)
  unfolding new_approval
  new_approval-Chained id stage actor decision comment = search chained_store

  pub Chained-approve_execution :
      (id actor decision comment : String)
      → Chained p (approve_execution p root policy id actor decision comment)
  unfolding approve_execution
  Chained-approve_execution id actor decision comment =
      search (chained_store, new_approval-Chained) depth 12

  pub Chained-approve_closure :
      (id actor decision comment : String)
      → Chained p (approve_closure p root policy id actor decision comment)
  unfolding approve_closure
  Chained-approve_closure id actor decision comment =
      search (chained_store, new_approval-Chained) depth 12

  pub Chained-execute : (id actor : String) → Chained p (execute p root policy id actor)
  unfolding execute run_attempt retry_or_fall_back
  Chained-execute id actor = search (chained_store, Chained-try, Chained-execute_plan) depth 16

  pub Chained-validate : (id actor : String) → Chained p (validate p root policy id actor)
  unfolding validate after_validation
  Chained-validate id actor =
      Chained-bind p _ _ (search chained_store)
        λ item. search (chained_store, Chained-validate_result) depth 14

  Chained-new_item :
      (run_id actor : String) (report : Report) (raw : RawFinding)
      → Chained p (new_item p root policy run_id actor report raw)
  unfolding new_item due_at_for
  Chained-new_item run_id actor report raw = search chained_store depth 12

  Chained-findings :
      (run_id actor : String) (report : Report) (raws : List RawFinding) (summary : Summary)
      → Chained p (ingest_findings p root policy run_id actor report raws summary)
  unfolding ingest_findings
  Chained-findings run_id actor report [] summary = search chained_store
  Chained-findings run_id actor report (raw ∷ rest) summary =
      Chained-bind p _ _ (Chained-new_item run_id actor report raw) λ item.
        Chained-bind p _ _ (search chained_store)
          λ (x, was_created). Chained-findings run_id actor report rest _

  Chained-report :
      (run_id actor : String) (report : Report) (summary : Summary)
      → Chained p (ingest_report p root policy run_id actor report summary)
  unfolding ingest_report
  Chained-report run_id actor report summary = search (chained_store, Chained-findings)

  Chained-reports :
      (run_id actor : String) (reports : List Report) (summary : Summary)
      → Chained p (ingest_reports p root policy run_id actor reports summary)
  unfolding ingest_reports
  Chained-reports run_id actor [] summary = search chained_store
  Chained-reports run_id actor (report ∷ rest) summary =
      Chained-bind p _ _ (Chained-report run_id actor report summary)
        λ next. Chained-reports run_id actor rest next

  pub Chained-ingest_run :
      (run_id actor : String) (reports : List Report)
      → Chained p (ingest_run p root policy run_id actor reports)
  unfolding ingest_run
  Chained-ingest_run run_id actor reports = Chained-reports run_id actor reports _
