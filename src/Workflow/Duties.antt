-- ===== src/Workflow/Duties.antt =====
-- The separation of duties and the retry budget that the workflow promises for one work item, as
-- a property of its row in the tables.
use agentic_engineering_cont.Prelude.{
  ◌≤◌, ◌<◌, max, ◌≡◌, ◌≢◌, ◌⊎◌, Bool, true, false, Option, none, some, List, [], ◌∷◌, ◌++◌, last,
  keep, All,
}
use agentic_engineering_cont.Workflow.Lifecycle.{
  WorkState, planned, awaiting_execution_approval, approved, executing, validating,
  awaiting_closure_approval, closed, WorkItem, RemediationPlan, Approval, ExecutionResult,
}
use agentic_engineering_cont.Workflow.Store.{newest}
use agentic_engineering_cont.Workflow.Store.Rows.{Row}
use agentic_engineering_cont.Workflow.Governed.{is_execution_approval}

-- From the approved execution on, up to the closure.
abbrev pub is_released : WorkState → Bool
is_released approved = true
is_released executing = true
is_released validating = true
is_released awaiting_closure_approval = true
is_released closed = true
is_released _ = false

-- With a plan, and before any execution.
abbrev pub is_fresh : WorkState → Bool
is_fresh planned = true
is_fresh awaiting_execution_approval = true
is_fresh _ = false

-- Where the next execution may start, or runs.
abbrev pub is_ready : WorkState → Bool
is_ready approved = true
is_ready executing = true
is_ready _ = false

-- The latest approval of the execution is of somebody who neither created the item nor planned
-- it, and who has executed none of its attempts.
pub record Released (item : WorkItem) (plan : Option RemediationPlan) (approvals : List Approval)
    (executions : List ExecutionResult) : Type 0 where
  pub approval : Approval
  pub latest : last (keep is_execution_approval approvals) ≡ some approval
  pub remediation : RemediationPlan
  pub under_plan : plan ≡ some remediation
  pub not_creator : approval.actor ≢ item.created_by
  pub not_planner : approval.actor ≢ remediation.planner
  pub not_executor : All (λ (r : ExecutionResult). r.actor ≢ approval.actor) executions

-- The last approval is one of the closure, of somebody who gave no earlier approval, did not
-- create the item and did not run its newest execution.
pub record ClosedBy (item : WorkItem) (approvals : List Approval)
    (executions : List ExecutionResult) : Type 0 where
  pub before : List Approval
  pub closure : Approval
  pub split : approvals ≡ before ++ closure ∷ []
  pub stage : closure.stage ≡ "closure"
  pub decision : closure.decision ≡ "approved"
  pub not_creator : closure.actor ≢ item.created_by
  pub not_approver : All (λ (a : Approval). closure.actor ≢ a.actor) before
  pub execution : ExecutionResult
  pub ran : newest executions ≡ some execution
  pub not_executor : closure.actor ≢ execution.actor

pub record ItemSafe (item : WorkItem) (plan : Option RemediationPlan) (approvals : List Approval)
    (executions : List ExecutionResult) : Type 0 where
  pub unplanned : plan ≡ none → (executions ≡ []) × (item.retry_count ≡ 0)
  pub fresh : is_fresh item.state ≡ true → (executions ≡ []) × (item.retry_count ≡ 0)
  pub released : is_released item.state ≡ true → Released item plan approvals executions
  pub closed_by : item.state ≡ closed → ClosedBy item approvals executions
  pub bounded : item.retry_count ≤ max 1 item.max_retries
  pub ready :
      is_ready item.state ≡ true → (item.retry_count ≡ 0) ⊎ (item.retry_count < item.max_retries)

abbrev FoundSafe :
    Option WorkItem → Option RemediationPlan → List Approval → List ExecutionResult → Type 0
FoundSafe none plan approvals executions = (plan ≡ none) × (approvals ≡ []) × (executions ≡ [])
FoundSafe (some item) plan approvals executions = ItemSafe item plan approvals executions

-- Rows of other tables exist only beside their item, and the item keeps its promises.
abbrev pub RowSafe : Row → Type 0
RowSafe r = FoundSafe r.item r.plan r.approvals r.executions
