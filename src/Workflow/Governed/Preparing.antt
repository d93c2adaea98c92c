-- ===== src/Workflow/Governed/Preparing.antt =====
-- Triage and planning keep the promises of every work item, whatever they return or raise.
use agentic_engineering_cont.Prelude.{ℕ, String, ◌≡◌, refl, ap, ◌∙◌, subst, some, [], ◌∷◌, arith}
use agentic_engineering_cont.Prelude.Platform.{Platform}
use agentic_engineering_cont.Exec.Keeps.{Keeps, Any, Keeps-lift, Keeps-guard}
use agentic_engineering_cont.Exec.Triple.{
  Triple-bind, Triple-after, Triple-weaken, Triple-exists, Triple-given,
}
use agentic_engineering_cont.Workflow.Lifecycle.{
  triaged, planned, awaiting_execution_approval, same_state-eq, WorkItem,
}
use agentic_engineering_cont.Workflow.Store.{owner, plan_id}
use agentic_engineering_cont.Workflow.Store.Rows.{moved, map_option}
use agentic_engineering_cont.Workflow.Store.Writes.{
  moved_row, planned_row, At-transition, At-get_work_item, At-utc_now, At-save_plan,
}
use agentic_engineering_cont.Workflow.Governed.{WorkflowPolicy, triage, plan}
use agentic_engineering_cont.Workflow.Planning.{create_plan}
use agentic_engineering_cont.Workflow.Governed.{planned_by}
use agentic_engineering_cont.Workflow.Governed.Steps.{
  triaged-Safe, planned-Safe, awaiting-Safe, plan_saved-Safe,
}
use agentic_engineering_cont.Workflow.Duties.{RowSafe}
use agentic_engineering_cont.Workflow.Governed.Moves.{
  AllSafe, safe_item, safe_row, At-row, step, finish,
}

draft_id :
    (p : Platform) (runtime_root : String) (policy : WorkflowPolicy) (actor : String)
    (item : WorkItem) (now : ℕ)
    → (planned_by p runtime_root policy actor
        (create_plan p item policy.max_retries now)).work_item_id
      ≡ item.work_item_id
unfolding create_plan
draft_id p runtime_root policy actor item now = ground arith

module _ (p : Platform) (id runtime_root : String) (policy : WorkflowPolicy) where
  pub triage-AllSafe :
      (actor new_owner : String)
      → Keeps AllSafe (triage p runtime_root policy id actor new_owner) Any
  unfolding triage
  triage-AllSafe actor new_owner = At-row p id _ λ r s.
      Triple-after _ _ (Keeps-guard _ _) (λ s h. h.safe)
        λ _ _.
          Triple-weaken _
            (At-transition RowSafe id r p triaged actor _ (owner new_owner ∷ [])
              λ was now found allowed.
                safe_row _ (moved (owner new_owner ∷ []) now triaged was)
                  (ap (map_option (moved (owner new_owner ∷ []) now triaged)) found)
                  (triaged-Safe was r.plan r.approvals r.executions now new_owner
                    (safe_item r was s found)))
            (λ s h. h) (λ next s h. h.1.at.safe) (λ s h. h.safe)

  pub plan-AllSafe : (actor : String) → Keeps AllSafe (plan p runtime_root policy id actor) Any
  unfolding plan
  plan-AllSafe actor = At-row p id _ λ r s.
      Triple-after _ _ (At-get_work_item RowSafe id r p) (λ s h. h.safe)
        λ item (found, own).
          Triple-after _ _ (Keeps-guard _ _) (λ s h. h.safe)
            λ _ state.
              Triple-after _ _ (At-utc_now RowSafe id r p) (λ s h. h.safe)
                λ now _.
                  Triple-after {X = Any} _ _ (Keeps-lift _ (λ t e. tt)) (λ s h. h.safe)
                    λ tool _.
                      Triple-after _ _ (Keeps-guard _ _) (λ s h. h.safe)
                        λ _ _.
                          let safe = safe_item r item s found in
                          let at_triaged = same_state-eq item.state triaged state in
                          let draft =
                            planned_by p runtime_root policy actor
                              (create_plan p item policy.max_retries now) in
                          Triple-bind _ _
                            (Triple-weaken _
                              (At-save_plan RowSafe id r p draft
                                (draft_id p runtime_root policy actor item now ∙ own)
                                λ absent. safe_row (planned_row draft r) item found (
                                  plan_saved-Safe item r.plan r.approvals r.executions draft safe
                                    at_triaged))
                              (λ s h. h) (λ a s h. h) (λ s h. h.safe))
                            λ _.
                              Triple-given _ (λ s h. h.1)
                                λ absent.
                                  let none_yet = safe.unplanned absent in
                                  let r1 = planned_row draft r in
                                  Triple-bind _ _
                                    (Triple-weaken _
                                      (step p id r1 item found (plan_id draft.plan_id ∷ []) planned
                                        actor _
                                        λ now' allowed.
                                          planned-Safe item (some draft) r.approvals r.executions
                                            now' draft.plan_id
                                            (plan_saved-Safe item r.plan r.approvals r.executions
                                              draft safe at_triaged)
                                            none_yet.0 none_yet.1)
                                      (λ s h. h.0) (λ a s h. h) (λ s h. h.safe))
                                    λ next. Triple-exists _ λ now'.
                                      let r2 =
                                        moved_row (plan_id draft.plan_id ∷ []) now' planned r1 in
                                      let item2 =
                                        moved (plan_id draft.plan_id ∷ []) now' planned item in
                                      let found2 : r2.item ≡ some item2 =
                                        ap
                                          (map_option
                                            (moved (plan_id draft.plan_id ∷ []) now' planned))
                                          found in
                                      Triple-given _ (λ s h. subst RowSafe h.0.here (h.0.safe id))
                                        λ safe2.
                                          Triple-weaken _
                                            (finish p id r2 item2 found2 []
                                              awaiting_execution_approval actor _
                                              λ later allowed.
                                                awaiting-Safe item2 (some draft) r.approvals
                                                  r.executions later
                                                  (safe_item r2 item2 safe2 found2) refl)
                                            (λ s h. h.0) (λ a s h. h) (λ s h. h)
