-- ===== src/Workflow/Governed/Attempts.antt =====
-- The execution of an approved plan and its validation keep the promises of every work item.
use agentic_engineering_cont.Prelude.{
  String, ◌≡◌, ◌≢◌, refl, sym, ap, ◌∙◌, subst, Bool, Option, none, some, List, [], ◌∷◌, ◌++◌, last,
  keep, join, not-eq_true, ne_of_==,
}
use agentic_engineering_cont.Prelude.Platform.{Platform, Error}
use agentic_engineering_cont.Exec.{ok, err}
use agentic_engineering_cont.Exec.Keeps.{Keeps, Any, Keeps-lift, Keeps-guard, ok-injective}
use agentic_engineering_cont.Exec.Triple.{
  Triple, Triple-bind, Triple-after, Triple-weaken, Triple-exists, Triple-given, Triple-try,
  Triple-if,
}
use agentic_engineering_cont.Workflow.Lifecycle.{
  approved, executing, validating, awaiting_closure_approval, same_state-eq, WorkItem,
  RemediationPlan, Approval,
}
use agentic_engineering_cont.Workflow.Store.{State}
use agentic_engineering_cont.Workflow.Store.Rows.{Row, moved, map_option}
use agentic_engineering_cont.Workflow.Store.Writes.{
  At, moved_row, executed_row, At-get_work_item, At-get_plan, At-approvals_of, At-latest_execution,
  At-append_event, At-add_execution, At-same,
}
use agentic_engineering_cont.Workflow.Governed.{
  WorkflowPolicy, is_execution_approval, latest_approver, run_attempt, retry_or_fall_back, execute,
  after_validation, validate, attempt_of,
}
use agentic_engineering_cont.Workflow.Governed.Steps.{
  executing-Safe, validating-Safe, retried-Safe, closable-Safe, revalidated-Safe,
  execution_added-Safe,
}
use agentic_engineering_cont.Workflow.Duties.{RowSafe}
use agentic_engineering_cont.Workflow.Governed.Moves.{
  AllSafe, safe_item, safe_row, At-row, step, finish,
}
use agentic_engineering_cont.Prelude.Platform.{describe, permission_error}
use agentic_engineering_cont.Workflow.Store.{retry_count, last_error}
use agentic_engineering_cont.Workflow.Execution.Results.{Keeps-execute_plan, Keeps-validate_result}

latest_approver-found :
    (approvals : List Approval) (approver : String)
    → latest_approver approvals ≡ ok approver
    → (a : Approval) × (last (keep is_execution_approval approvals) ≡ some a) × (a.actor ≡ approver)
latest_approver-found approvals approver e =
    found (last (keep is_execution_approval approvals)) refl e
  where
    found :
        (o : Option Approval)
        → last (keep is_execution_approval approvals) ≡ o
        → elim o [
          | none ↦ err (permission_error "approved execution record is required")
          | some a ↦ ok a.actor
        ]
          ≡ ok approver
        → (a : Approval) × (last (keep is_execution_approval approvals) ≡ some a)
          × (a.actor ≡ approver)
    found none h e = cc
    found (some a) h e = (a, h, ok-injective e)

-- The row while an attempt runs: at the item that was set to executing, with its plan.
record Running (id : String) (item : WorkItem) (r : Row) (s : State) : Type 0 where
  at : At RowSafe id r s
  here : r.item ≡ some item
  has_plan : r.plan ≢ none

module _ (p : Platform) (id runtime_root : String) (policy : WorkflowPolicy) where
  module _ (actor : String) (r : Row) (item : WorkItem) (found : r.item ≡ some item)
      (busy : item.state ≡ executing) (own : item.work_item_id ≡ id)
      (has_plan : r.plan ≢ none) where
    attempt-Safe :
        (remediation : RemediationPlan) (a : Approval)
        → RowSafe r
        → last (keep is_execution_approval r.approvals) ≡ some a
        → actor ≢ a.actor
        → Triple
            (At RowSafe id r)
            (run_attempt p runtime_root policy id actor item remediation)
            (λ _. AllSafe)
            (λ s. (r' : Row) × Running id item r' s)
    unfolding run_attempt
    attempt-Safe remediation a safe latest other =
        Triple-after _ _
          (Keeps-execute_plan p runtime_root (At RowSafe id r)
            (λ s s' e h. At-same RowSafe id r s s' h e) item remediation actor (attempt_of item))
          (λ s h. (r, record { at = h; here = found; has_plan = has_plan }))
          λ x ran.
            let x-Safe =
              execution_added-Safe item r.plan r.approvals r.executions x a
                (safe_item r item safe found) busy latest (rw ran.by other) in
            let r1 = executed_row x r in
            Triple-bind _ _
              (Triple-weaken _
                (At-add_execution RowSafe id r p x (ran.own ∙ own) (safe_row r1 item found x-Safe))
                (λ s h. h) (λ y s h. h.0)
                (λ s h. (r, record { at = h; here = found; has_plan = has_plan })))
              λ _.
                Triple-weaken _
                  (step p id r1 item found (retry_count (attempt_of item) ∷ last_error none ∷ [])
                    validating actor _
                    λ now allowed.
                      validating-Safe item r.plan r.approvals (r.executions ++ x ∷ []) now x-Safe
                        busy has_plan)
                  (λ s h. h) (λ next s h. h.1.0.safe)
                  (λ s h. (r1, record { at = h; here = found; has_plan = has_plan }))

  fallback-Safe :
      (actor : String) (item : WorkItem) (e : Error)
      → item.state ≡ executing
      → Triple
          (λ s. (r : Row) × Running id item r s)
          (retry_or_fall_back p runtime_root policy id actor item e)
          (λ _. AllSafe)
          AllSafe
  unfolding retry_or_fall_back
  fallback-Safe actor item e busy = Triple-exists _ λ r.
      Triple-given _ (λ s h. h.here)
        λ found.
          Triple-given _ (λ s h. h.has_plan)
            λ has_plan.
              Triple-given _ (λ s h. subst RowSafe h.at.here (h.at.safe id))
                λ safe.
                  Triple-weaken _
                    (finish p id r item found _ _ actor _ λ now allowed.
                      retried-Safe item r.plan r.approvals r.executions now (describe p e)
                        (safe_item r item safe found) busy has_plan)
                    (λ s h. h.at) (λ next s h. h) (λ s h. h)

  pub execute-AllSafe :
      (actor : String) → Keeps AllSafe (execute p runtime_root policy id actor) Any
  unfolding execute
  execute-AllSafe actor = At-row p id _ λ r s.
      Triple-after _ _ (At-get_work_item RowSafe id r p) (λ s h. h.safe)
        λ item (found, own).
          Triple-after _ _ (Keeps-guard _ _) (λ s h. h.safe)
            λ _ state.
              Triple-after _ _ (At-approvals_of RowSafe id r p) (λ s h. h.safe)
                λ listed same.
                  Triple-after {X = λ approver. latest_approver listed ≡ ok approver} _ _
                    (Keeps-lift _ λ x e. e) (λ s h. h.safe)
                    λ approver latest.
                      Triple-after _ _ (Keeps-guard _ _) (λ s h. h.safe)
                        λ _ other.
                          Triple-after _ _ (At-get_plan RowSafe id r p) (λ s h. h.safe)
                            λ remediation under.
                              let ready = same_state-eq item.state approved state in
                              let (a, last_one, by) =
                                latest_approver-found listed approver latest in
                              Triple-bind _ _
                                (Triple-weaken _
                                  (step p id r item found [] executing actor _ λ now allowed.
                                    executing-Safe item r.plan r.approvals r.executions now
                                      (safe_item r item s found) ready)
                                  (λ s h. h) (λ x s h. h) (λ s h. h.safe))
                                λ started. Triple-exists _ λ now.
                                  Triple-given _ (λ s h. h.1)
                                    λ is_started.
                                      let r1 = moved_row [] now executing r in
                                      let found1 : r1.item ≡ some started =
                                        ap (map_option (moved [] now executing)) found
                                        ∙ ap some (sym is_started) in
                                      Triple-given _ (λ s h. subst RowSafe h.0.here (h.0.safe id))
                                        λ safe1.
                                          Triple-try _ _
                                            (Triple-weaken _
                                              (attempt-Safe actor r1 started found1
                                                (ap (λ (i : WorkItem). i.state) is_started)
                                                (ap (λ (i : WorkItem). i.work_item_id) is_started
                                                  ∙ own)
                                                (λ e. cc (under, e)) remediation a safe1
                                                (ap (λ l. last (keep is_execution_approval l)) same
                                                  ∙ last_one)
                                                (rw by
                                                  (ne_of_== actor approver (not-eq_true _ other))))
                                              (λ s h. h.0) (λ x s h. h) (λ s h. h))
                                            λ e.
                                              fallback-Safe actor started e
                                                (ap (λ (i : WorkItem). i.state) is_started)

  after_validation-Safe :
      (actor : String) (r : Row) (item : WorkItem) (passed : Bool) (failures : List String)
      → RowSafe r
      → r.item ≡ some item
      → item.state ≡ validating
      → Triple
          (At RowSafe id r)
          (after_validation p runtime_root policy id actor item passed failures)
          (λ _. AllSafe)
          AllSafe
  unfolding after_validation
  after_validation-Safe actor r item passed failures safe found busy =
      Triple-if passed _ _
        (λ _. finish p id r item found [] awaiting_closure_approval actor _ λ now allowed.
          closable-Safe item r.plan r.approvals r.executions now (safe_item r item safe found) busy)
        (λ _. finish p id r item found _ _ actor _ λ now allowed.
          revalidated-Safe item r.plan r.approvals r.executions now (join "," failures)
            (safe_item r item safe found) busy)

  pub validate-AllSafe :
      (actor : String) → Keeps AllSafe (validate p runtime_root policy id actor) Any
  unfolding validate
  validate-AllSafe actor = At-row p id _ λ r s.
      Triple-after _ _ (At-get_work_item RowSafe id r p) (λ s h. h.safe)
        λ item (found, own).
          Triple-after _ _ (Keeps-guard _ _) (λ s h. h.safe)
            λ _ state.
              Triple-after _ _ (At-latest_execution RowSafe id r p) (λ s h. h.safe)
                λ result _.
                  Triple-after _ _ (Keeps-guard _ _) (λ s h. h.safe)
                    λ _ _.
                      Triple-after _ _
                        (Keeps-validate_result p runtime_root (At RowSafe id r)
                          (λ s s' e h. At-same RowSafe id r s s' h e) result)
                        (λ s h. h.safe)
                        λ (passed, failures) _.
                          Triple-after _ _ (At-append_event RowSafe id r p _ _ _ _) (λ s h. h.safe)
                            λ _ _.
                              after_validation-Safe actor r item passed failures s found
                                (same_state-eq item.state validating state)
