-- ===== src/Workflow/Governed/Ingest.antt =====
-- Ingesting an audit run keeps the promises of every work item.
use agentic_engineering_cont.Prelude.{
  ◌+◌, String, ◌≡◌, refl, sym, subst, inl, not, none, List, [], ◌∷◌, ◌==◌, ◌||◌, arith,
}
use agentic_engineering_cont.Prelude.Platform.{Platform}
use agentic_engineering_cont.Exec.{ok, pure}
use agentic_engineering_cont.Exec.Keeps.{Keeps, Any, Keeps-bind, Keeps-lift, Keeps-pure, Keeps-if}
use agentic_engineering_cont.Exec.Triple.{Triple-weaken}
use agentic_engineering_cont.Workflow.Lifecycle.{new, post_init, WorkItem}
use agentic_engineering_cont.Workflow.Store.{create_work_item, State}
use agentic_engineering_cont.Workflow.Store.Rows.{Row, row}
use agentic_engineering_cont.Workflow.Store.Writes.{At-create_work_item, created_row}
use agentic_engineering_cont.Workflow.Governed.{
  WorkflowPolicy, Report, RawFinding, Summary, due_at_for, new_item, ingest_findings, ingest_report,
  ingest_reports, ingest_run,
}
use agentic_engineering_cont.Workflow.Duties.{RowSafe}
use agentic_engineering_cont.Workflow.Governed.Moves.{AllSafe, At-row}
use agentic_engineering_cont.Workflow.Execution.Results.{OfTables, Keeps-utc_now}

record IsNew (item : WorkItem) : Type 0 where
  in_new : item.state ≡ new
  no_retry : item.retry_count ≡ 0

is_new :
    (draft item : WorkItem)
    → draft.state ≡ new
    → draft.retry_count ≡ 0
    → post_init draft ≡ ok item
    → IsNew item
unfolding post_init
is_new draft item a b e = ground arith

new-Safe :
    (r : Row) (item : WorkItem)
    → IsNew item
    → RowSafe r
    → r.item ≡ none
    → RowSafe (created_row item r)
new-Safe r item fresh safe absent =
    let empty : (r.plan ≡ none) × (r.approvals ≡ []) × (r.executions ≡ []) = rw absent at safe in
    record {
      unplanned = λ e. (empty.2, fresh.no_retry);
      fresh = λ e. (empty.2, fresh.no_retry);
      released = λ e. cc (fresh.in_new, e);
      closed_by = λ e. cc (fresh.in_new, e);
      bounded = omega (arith, fresh.no_retry);
      ready = λ e. inl fresh.no_retry;
    }

module _ (p : Platform) (runtime_root : String) (policy : WorkflowPolicy) where
  -- A new item has everything before it.
  Keeps-new_item :
      (run_id actor : String) (report : Report) (raw : RawFinding) (P : State → Type 0)
      → OfTables P
      → Keeps P (new_item p runtime_root policy run_id actor report raw) IsNew
  unfolding new_item due_at_for
  Keeps-new_item run_id actor report raw P tables =
      Keeps-bind {Q = Any} _ _
        (Keeps-bind {Q = Any} _ _ (Keeps-lift _ λ x e. tt) λ hours _.
          Keeps-bind _ _ (Keeps-utc_now p runtime_root P tables) λ now _. Keeps-pure _ tt)
        λ due _. Keeps-bind _ _ (Keeps-utc_now p runtime_root P tables) λ created_at _.
          Keeps-bind _ _ (Keeps-utc_now p runtime_root P tables)
            λ updated_at _. Keeps-lift _ λ item e. is_new _ item refl refl e

  create-AllSafe : (item : WorkItem) → IsNew item → Keeps AllSafe (create_work_item p item) Any
  create-AllSafe item fresh = At-row p item.work_item_id _ λ r s.
      Triple-weaken _
        (At-create_work_item RowSafe r p item λ absent. new-Safe r item fresh s absent) (λ s h. h)
        (λ x s h. h) (λ s h. h.safe)

  findings-AllSafe :
      (run_id actor : String) (report : Report) (raws : List RawFinding) (summary : Summary)
      → Keeps AllSafe (ingest_findings p runtime_root policy run_id actor report raws summary) Any
  unfolding ingest_findings
  findings-AllSafe run_id actor report [] summary = Keeps-pure _ tt
  findings-AllSafe run_id actor report (raw ∷ rest) summary =
      Keeps-bind _ _
        (Keeps-new_item run_id actor report raw AllSafe
          λ s s' e h j. subst (λ d. RowSafe (row j d)) (sym e) (h j))
        λ item fresh.
          Keeps-bind _ _ (create-AllSafe item fresh)
            λ (x, was_created) _. findings-AllSafe run_id actor report rest _

  report-AllSafe :
      (run_id actor : String) (report : Report) (summary : Summary)
      → Keeps AllSafe (ingest_report p runtime_root policy run_id actor report summary) Any
  unfolding ingest_report
  report-AllSafe run_id actor report summary =
      Keeps-if (not (report.status == "audited") || not report.reviewer_passed)
        (pure (record summary { skipped = summary.skipped + 1 })) _
        (λ _. Keeps-pure (record summary { skipped = summary.skipped + 1 }) tt)
        (λ _. findings-AllSafe run_id actor report report.findings summary)

  reports-AllSafe :
      (run_id actor : String) (reports : List Report) (summary : Summary)
      → Keeps AllSafe (ingest_reports p runtime_root policy run_id actor reports summary) Any
  unfolding ingest_reports
  reports-AllSafe run_id actor [] summary = Keeps-pure _ tt
  reports-AllSafe run_id actor (report ∷ rest) summary =
      Keeps-bind _ _ (report-AllSafe run_id actor report summary)
        λ next _. reports-AllSafe run_id actor rest next

  pub ingest_run-AllSafe :
      (run_id actor : String) (reports : List Report)
      → Keeps AllSafe (ingest_run p runtime_root policy run_id actor reports) Any
  unfolding ingest_run
  ingest_run-AllSafe run_id actor reports = reports-AllSafe run_id actor reports _
