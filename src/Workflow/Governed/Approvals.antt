-- ===== src/Workflow/Governed/Approvals.antt =====
-- The two approvals of the workflow keep the promises of every work item.
use agentic_engineering_cont.Prelude.{
  ℕ, String, ◌≡◌, ◌≢◌, refl, ◌∙◌, inl, inr, true, List, [], ◌∷◌, ◌++◌, map, ◌==◌, arith, eq_iff,
  All, Bool-cases, not-eq_true, and_intro, eq_refl, ne_of_contains,
}
use agentic_engineering_cont.Prelude.Platform.{Platform}
use agentic_engineering_cont.Exec.{ok}
use agentic_engineering_cont.Exec.Keeps.{Keeps, Any, Keeps-bind, Keeps-lift, Keeps-guard}
use agentic_engineering_cont.Exec.Triple.{Triple-bind, Triple-after, Triple-weaken}
use agentic_engineering_cont.Workflow.Lifecycle.{
  awaiting_execution_approval, awaiting_closure_approval, same_state-eq, Approval, check_approval,
}
use agentic_engineering_cont.Workflow.Store.Rows.{Row}
use agentic_engineering_cont.Workflow.Store.Writes.{
  At, approved_row, At-get_work_item, At-get_plan, At-approvals_of, At-latest_execution, At-utc_now,
  At-add_approval,
}
use agentic_engineering_cont.Workflow.Governed.{
  WorkflowPolicy, new_approval, approve_execution, approve_closure, is_execution_approval,
}
use agentic_engineering_cont.Workflow.Governed.Steps.{
  manual-Safe, approved-Safe, closed-Safe, latest-append, approval_added-Safe, closure_added-Safe,
}
use agentic_engineering_cont.Workflow.Duties.{RowSafe}
use agentic_engineering_cont.Workflow.Governed.Moves.{AllSafe, safe_item, safe_row, At-row, finish}

-- An approval with the fields that the operation was called with.
record Approves (id stage actor decision : String) (a : Approval) : Type 0 where
  own : a.work_item_id ≡ id
  for : a.stage ≡ stage
  by : a.actor ≡ actor
  given : a.decision ≡ decision

All-map :
    (actor : String) (approvals : List Approval)
    → All (λ y. actor ≢ y) (map (λ (b : Approval). b.actor) approvals)
    → All (λ (b : Approval). actor ≢ b.actor) approvals
All-map actor [] h = tt
All-map actor (b ∷ bs) h = (h.0, All-map actor bs h.1)

same_fields :
    (id stage actor decision comment : String) (now : ℕ) (a : Approval)
    → check_approval (record {
      work_item_id = id;
      stage = stage;
      actor = actor;
      decision = decision;
      comment = comment;
      created_at = now;
    })
      ≡ ok a
    → Approves id stage actor decision a
unfolding check_approval
same_fields id stage actor decision comment now a e = ground arith

module _ (p : Platform) (id runtime_root : String) (policy : WorkflowPolicy) where
  At-new_approval :
      (r : Row) (stage actor decision comment : String)
      → Keeps
          (At RowSafe id r)
          (new_approval p runtime_root policy id stage actor decision comment)
          (Approves id stage actor decision)
  unfolding new_approval
  At-new_approval r stage actor decision comment =
      Keeps-bind _ _ (At-utc_now RowSafe id r p)
        λ now _. Keeps-lift _ λ a e. same_fields id stage actor decision comment now a e

  pub approve_execution-AllSafe :
      (actor decision comment : String)
      → Keeps AllSafe (approve_execution p runtime_root policy id actor decision comment) Any
  unfolding approve_execution
  approve_execution-AllSafe actor decision comment = At-row p id _ λ r s.
      Triple-after _ _ (At-get_work_item RowSafe id r p) (λ s h. h.safe)
        λ item (found, own).
          Triple-after _ _ (Keeps-guard _ _) (λ s h. h.safe)
            λ _ state.
              Triple-after _ _ (At-get_plan RowSafe id r p) (λ s h. h.safe)
                λ remediation under.
                  Triple-after _ _ (Keeps-guard _ _) (λ s h. h.safe)
                    λ _ free.
                      Triple-after _ _ (At-new_approval r "execution" actor decision comment)
                        (λ s h. h.safe)
                        λ a fields.
                          let awaiting =
                            same_state-eq item.state awaiting_execution_approval state in
                          let safe =
                            approval_added-Safe item r.plan r.approvals r.executions a
                              (safe_item r item s found) awaiting in
                          let independent =
                            ne_of_contains actor (item.created_by ∷ remediation.planner ∷ [])
                              (not-eq_true _ free) in
                          Triple-bind _ _
                            (Triple-weaken _
                              (At-add_approval RowSafe id r p a fields.own
                                (safe_row (approved_row a r) item found safe))
                              (λ s h. h) (λ x s h. h.0) (λ s h. h.safe))
                            λ _.
                              finish p id (approved_row a r) item found [] _ actor _ λ now allowed.
                                elim (Bool-cases (decision == "approved")) [
                                  | inl given ↦ rw given (
                                      approved-Safe item r.plan (r.approvals ++ a ∷ []) r.executions
                                        now a remediation safe (rw awaiting refl)
                                        (latest-append r.approvals a (is_given a fields given))
                                        under (rw fields.by independent.0)
                                        (rw fields.by independent.1.0))
                                  | inr refused ↦ rw refused (
                                      manual-Safe item r.plan (r.approvals ++ a ∷ []) r.executions
                                        now safe)
                                ]
    where
      is_given :
          (a : Approval)
          → Approves id "execution" actor decision a
          → (decision == "approved") ≡ true
          → is_execution_approval a ≡ true
      is_given a f given = rw (f.for, f.given) (and_intro _ _ (eq_refl "execution") given)

  pub approve_closure-AllSafe :
      (actor decision comment : String)
      → Keeps AllSafe (approve_closure p runtime_root policy id actor decision comment) Any
  unfolding approve_closure
  approve_closure-AllSafe actor decision comment = At-row p id _ λ r s.
      Triple-after _ _ (At-get_work_item RowSafe id r p) (λ s h. h.safe)
        λ item (found, own).
          Triple-after _ _ (Keeps-guard _ _) (λ s h. h.safe)
            λ _ state.
              Triple-after _ _ (At-approvals_of RowSafe id r p) (λ s h. h.safe)
                λ earlier listed.
                  Triple-after _ _ (At-latest_execution RowSafe id r p) (λ s h. h.safe)
                    λ result ran.
                      Triple-after _ _ (Keeps-guard _ _) (λ s h. h.safe)
                        λ _ free.
                          Triple-after _ _ (At-new_approval r "closure" actor decision comment)
                            (λ s h. h.safe)
                            λ a fields.
                              let awaiting =
                                same_state-eq item.state awaiting_closure_approval state in
                              let safe =
                                closure_added-Safe item r.plan r.approvals r.executions a
                                  (safe_item r item s found) awaiting (rw fields.for refl) in
                              let independent =
                                ne_of_contains actor
                                  (item.created_by
                                    ∷ result.actor
                                    ∷ map (λ (b : Approval). b.actor) earlier)
                                  (not-eq_true _ free) in
                              Triple-bind _ _
                                (Triple-weaken _
                                  (At-add_approval RowSafe id r p a fields.own
                                    (safe_row (approved_row a r) item found safe))
                                  (λ s h. h) (λ x s h. h.0) (λ s h. h.safe))
                                λ _.
                                  finish p id (approved_row a r) item found [] _ actor _
                                    λ now allowed. elim (Bool-cases (decision == "approved")) [
                                      | inl given ↦ rw given (
                                          closed-Safe item r.plan (r.approvals ++ a ∷ [])
                                            r.executions now safe (rw awaiting refl)
                                            (record {
                                              before = r.approvals;
                                              closure = a;
                                              split = refl;
                                              stage = fields.for;
                                              decision =
                                                  fields.given
                                                  ∙ (eq_iff decision "approved").0 given;
                                              not_creator = rw fields.by independent.0;
                                              not_approver =
                                                  rw (fields.by, listed)
                                                    (All-map actor earlier independent.1.1);
                                              execution = result;
                                              ran = ran;
                                              not_executor = rw fields.by independent.1.0;
                                            }))
                                      | inr refused ↦ rw refused (
                                          manual-Safe item r.plan (r.approvals ++ a ∷ [])
                                            r.executions now safe)
                                    ]
