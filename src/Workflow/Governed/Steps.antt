-- ===== src/Workflow/Governed/Steps.antt =====
-- Each write of a workflow operation keeps the separation of duties and the retry budget.
use agentic_engineering_cont.Prelude.{
  ℕ, String, ◌≡◌, ◌≢◌, refl, sym, subst, inl, inr, true, false, Option, none, some, List, [], ◌∷◌,
  ◌++◌, ltb, arith, last, keep, All, Bool-cases, ltb→lt, if◌then◌else◌,
}
use agentic_engineering_cont.Workflow.Lifecycle.{
  WorkState, triaged, planned, awaiting_execution_approval, approved, executing, validating,
  awaiting_closure_approval, closed, manual_review, WorkItem, RemediationPlan, Approval,
  ExecutionResult,
}
use agentic_engineering_cont.Workflow.Store.{Update, owner, plan_id, retry_count, last_error}
use agentic_engineering_cont.Workflow.Store.Rows.{moved, keep-append_pass, keep-append_fail}
use agentic_engineering_cont.Workflow.Governed.{is_execution_approval, attempt_of}
use agentic_engineering_cont.Workflow.Duties.{is_released, is_fresh, Released, ClosedBy, ItemSafe}

module _ (item : WorkItem) (plan : Option RemediationPlan) (approvals : List Approval)
    (executions : List ExecutionResult) (now : ℕ) where
  abbrev Safe : WorkItem → Type 0
  Safe i = ItemSafe i plan approvals executions

  -- A move to a state that asks for nothing new.
  pub triaged-Safe : (who : String) → Safe item → Safe (moved (owner who ∷ []) now triaged item)
  triaged-Safe who s = ground arith

  pub manual-Safe : Safe item → Safe (moved [] now manual_review item)
  manual-Safe s = ground arith

  pub planned-Safe :
      (i : String)
      → Safe item
      → executions ≡ []
      → item.retry_count ≡ 0
      → Safe (moved (plan_id i ∷ []) now planned item)
  planned-Safe i s none_yet zero_yet = ground arith

  pub awaiting-Safe :
      Safe item → item.state ≡ planned → Safe (moved [] now awaiting_execution_approval item)
  awaiting-Safe s h = let f = s.fresh (rw h refl) in ground arith

  -- Along the released states the approval stays what it was.
  Released-moved :
      (us : List Update) (target : WorkState)
      → (moved us now target item).created_by ≡ item.created_by
      → Released item plan approvals executions
      → Released (moved us now target item) plan approvals executions
  Released-moved us target same r = record {
    approval = r.approval;
    latest = r.latest;
    remediation = r.remediation;
    under_plan = r.under_plan;
    not_creator = rw same r.not_creator;
    not_planner = r.not_planner;
    not_executor = r.not_executor;
  }

  pub executing-Safe : Safe item → item.state ≡ approved → Safe (moved [] now executing item)
  executing-Safe s h = record {
    unplanned = s.unplanned;
    fresh = λ e. cc;
    released = λ e. Released-moved [] executing refl (s.released (rw h refl));
    closed_by = λ e. cc;
    bounded = s.bounded;
    ready = λ e. s.ready (rw h refl);
  }

  -- After an attempt: the count goes up by one, to a state that is not ready unless the budget
  -- leaves another attempt.
  pub validating-Safe :
      Safe item
      → item.state ≡ executing
      → plan ≢ none
      → Safe (moved (retry_count (attempt_of item) ∷ last_error none ∷ []) now validating item)
  validating-Safe s h some_plan =
      let r = s.ready (rw h refl) in
      record {
        unplanned = λ e. absurd (some_plan e);
        fresh = λ e. cc;
        released = λ e.
            Released-moved (retry_count (attempt_of item) ∷ last_error none ∷ []) validating refl
              (s.released (rw h refl));
        closed_by = λ e. cc;
        bounded = ground arith;
        ready = λ e. cc;
      }

  abbrev failed_updates : String → List Update
  failed_updates why = retry_count (attempt_of item) ∷ last_error (some why) ∷ []

  pub retried-Safe :
      (why : String)
      → Safe item
      → item.state ≡ executing
      → plan ≢ none
      → Safe (
          moved
            (failed_updates why)
            now
            (if ltb (attempt_of item) item.max_retries then approved else manual_review)
            item)
  retried-Safe why s h some_plan = elim (Bool-cases (ltb (attempt_of item) item.max_retries)) [
    | inl more ↦ rw more (record {
      unplanned = λ e. absurd (some_plan e);
      fresh = λ e. cc;
      released = λ e. Released-moved (failed_updates why) approved refl (s.released (rw h refl));
      closed_by = λ e. cc;
      bounded = let r = s.ready (rw h refl) in ground arith;
      ready = λ e. inr (ltb→lt _ _ more);
    })
    | inr spent ↦ rw spent (record {
      unplanned = λ e. absurd (some_plan e);
      fresh = λ e. cc;
      released = λ e. cc;
      closed_by = λ e. cc;
      bounded = let r = s.ready (rw h refl) in ground arith;
      ready = λ e. cc;
    })
  ]

  pub closable-Safe :
      Safe item → item.state ≡ validating → Safe (moved [] now awaiting_closure_approval item)
  closable-Safe s h = record {
    unplanned = s.unplanned;
    fresh = λ e. cc;
    released = λ e. Released-moved [] awaiting_closure_approval refl (s.released (rw h refl));
    closed_by = λ e. cc;
    bounded = s.bounded;
    ready = λ e. cc;
  }

  pub revalidated-Safe :
      (why : String)
      → Safe item
      → item.state ≡ validating
      → Safe (
          moved
            (last_error (some why) ∷ [])
            now
            (if ltb item.retry_count item.max_retries then approved else manual_review)
            item)
  revalidated-Safe why s h = elim (Bool-cases (ltb item.retry_count item.max_retries)) [
    | inl more ↦ rw more (record {
      unplanned = s.unplanned;
      fresh = λ e. cc;
      released =
          λ e. Released-moved (last_error (some why) ∷ []) approved refl (s.released (rw h refl));
      closed_by = λ e. cc;
      bounded = s.bounded;
      ready = λ e. inr (ltb→lt _ _ more);
    })
    | inr spent ↦ rw spent (record {
      unplanned = s.unplanned;
      fresh = λ e. cc;
      released = λ e. cc;
      closed_by = λ e. cc;
      bounded = s.bounded;
      ready = λ e. cc;
    })
  ]

  -- The first approval: of a fresh item, by an actor that the code has found independent.
  pub approved-Safe :
      (a : Approval) (remediation : RemediationPlan)
      → Safe item
      → is_fresh item.state ≡ true
      → last (keep is_execution_approval approvals) ≡ some a
      → plan ≡ some remediation
      → a.actor ≢ item.created_by
      → a.actor ≢ remediation.planner
      → Safe (moved [] now approved item)
  approved-Safe a remediation s f latest under creator planner =
      let none_yet = s.fresh f in
      record {
        unplanned = s.unplanned;
        fresh = λ e. cc;
        released = λ e. record {
          approval = a;
          latest = latest;
          remediation = remediation;
          under_plan = under;
          not_creator = creator;
          not_planner = planner;
          not_executor =
              subst (All (λ (r : ExecutionResult). r.actor ≢ a.actor)) (sym none_yet.0) tt;
        };
        closed_by = λ e. cc;
        bounded = s.bounded;
        ready = λ e. inl none_yet.1;
      }

  pub closed-Safe :
      Safe item
      → is_released item.state ≡ true
      → ClosedBy item approvals executions
      → Safe (moved [] now closed item)
  closed-Safe s h c = record {
    unplanned = s.unplanned;
    fresh = λ e. cc;
    released = λ e. Released-moved [] closed refl (s.released h);
    closed_by = λ e. record {
      before = c.before;
      closure = c.closure;
      split = c.split;
      stage = c.stage;
      decision = c.decision;
      not_creator = c.not_creator;
      not_approver = c.not_approver;
      execution = c.execution;
      ran = c.ran;
      not_executor = c.not_executor;
    };
    bounded = s.bounded;
    ready = λ e. cc;
  }

All-append {ℓ κ} :
    {A : Type ℓ} (P : A → Type κ) (xs : List A) (x : A) → All P xs → P x → All P (xs ++ x ∷ [])
All-append P [] y h p = (p, tt)
All-append P (x ∷ xs) y h p = (h.0, All-append P xs y h.1 p)

last-append : {A : Type 0} (xs : List A) (x : A) → last (xs ++ x ∷ []) ≡ some x
last-append [] y = refl
last-append (x ∷ []) y = refl
last-append (x ∷ z ∷ xs) y = last-append (z ∷ xs) y

pub latest-append :
    (approvals : List Approval) (a : Approval)
    → is_execution_approval a ≡ true
    → last (keep is_execution_approval (approvals ++ a ∷ [])) ≡ some a
latest-append approvals a h =
    rw (keep-append_pass is_execution_approval approvals a h)
      (last-append (keep is_execution_approval approvals) a)

module _ (item : WorkItem) (plan : Option RemediationPlan) (approvals : List Approval)
    (executions : List ExecutionResult) where
  pub plan_saved-Safe :
      (r : RemediationPlan)
      → ItemSafe item plan approvals executions
      → item.state ≡ triaged
      → ItemSafe item (some r) approvals executions
  plan_saved-Safe r s h = record {
    unplanned = λ e. cc;
    fresh = s.fresh;
    released = λ e. cc;
    closed_by = λ e. cc;
    bounded = s.bounded;
    ready = s.ready;
  }

  pub approval_added-Safe :
      (a : Approval)
      → ItemSafe item plan approvals executions
      → item.state ≡ awaiting_execution_approval
      → ItemSafe item plan (approvals ++ a ∷ []) executions
  approval_added-Safe a s h = record {
    unplanned = s.unplanned;
    fresh = s.fresh;
    released = λ e. cc;
    closed_by = λ e. cc;
    bounded = s.bounded;
    ready = s.ready;
  }

  pub closure_added-Safe :
      (a : Approval)
      → ItemSafe item plan approvals executions
      → item.state ≡ awaiting_closure_approval
      → is_execution_approval a ≡ false
      → ItemSafe item plan (approvals ++ a ∷ []) executions
  closure_added-Safe a s h other = record {
    unplanned = s.unplanned;
    fresh = s.fresh;
    released = λ e.
        let r = s.released e in
        record {
          approval = r.approval;
          latest = rw (keep-append_fail is_execution_approval approvals a other) r.latest;
          remediation = r.remediation;
          under_plan = r.under_plan;
          not_creator = r.not_creator;
          not_planner = r.not_planner;
          not_executor = r.not_executor;
        };
    closed_by = λ e. cc;
    bounded = s.bounded;
    ready = s.ready;
  }

  pub execution_added-Safe :
      (x : ExecutionResult) (a : Approval)
      → ItemSafe item plan approvals executions
      → item.state ≡ executing
      → last (keep is_execution_approval approvals) ≡ some a
      → x.actor ≢ a.actor
      → ItemSafe item plan approvals (executions ++ x ∷ [])
  execution_added-Safe x a s h latest other = record {
    unplanned = λ e. absurd (planned e);
    fresh = λ e. cc;
    released = λ e.
        let r = s.released e in
        record {
          approval = r.approval;
          latest = r.latest;
          remediation = r.remediation;
          under_plan = r.under_plan;
          not_creator = r.not_creator;
          not_planner = r.not_planner;
          not_executor = All-append _ executions x r.not_executor (
              subst (λ (b : Approval). x.actor ≢ b.actor) (same_approval r.approval r.latest)
                other);
        };
    closed_by = λ e. cc;
    bounded = s.bounded;
    ready = s.ready;
  }
    where
      same_approval : (b : Approval) → last (keep is_execution_approval approvals) ≡ some b → a ≡ b
      same_approval b e = cc (latest, e)

      planned : plan ≢ none
      planned e = let r = s.released (rw h refl) in cc (e, r.under_plan)
