-- ===== src/Workflow/Governed.antt =====
-- ae_control_plane/workflow.py: GovernedWorkflow. Each method is an action on the store.
pub mod Steps
pub mod Moves
pub mod Preparing
pub mod Approvals
pub mod Attempts
pub mod Ingest
pub mod Chained
use agentic_engineering_cont.Prelude.{
  ℕ, ◌+◌, ◌*◌, String, Bool, true, false, not, ◌&&◌, ◌||◌, Option, none, some, List, [], ◌∷◌, ◌++◌,
  map, ◌==◌, ltb, concat, join, find, keep, last, contains, is_blank, is_empty, if◌then◌else◌,
}
use agentic_engineering_cont.Prelude.Platform.{
  Platform, Json, Fields, end, field, bool, obj, list, Error, describe, value_error,
  permission_error, key_error,
}
use agentic_engineering_cont.Exec.{
  Result, ok, err, Exec, pure, raise, lift, gets, guard, ◌>>=◌, ◌>>◌, try_except,
}
use agentic_engineering_cont.Workflow.Lifecycle.{
  WorkState, triaged, planned, awaiting_execution_approval, approved, executing, validating,
  awaiting_closure_approval, closed, manual_review, new, same_state, WorkItem, post_init,
  RemediationPlan, Approval, check_approval, ExecutionResult, stable_id,
}
use agentic_engineering_cont.Workflow.Planning.{
  ToolSpec, get_tool, create_plan, planner_name, commit_or_none,
}
use agentic_engineering_cont.Workflow.Store.{
  State, Update, owner, plan_id, retry_count, last_error, utc_now, create_work_item, get_work_item,
  transition, save_plan, get_plan, add_approval, approvals_of, add_execution, latest_execution,
  append_event,
}
use agentic_engineering_cont.Workflow.Execution.{execute_plan, validate_result}

-- The fields of AuditPolicy that the workflow reads.
pub record WorkflowPolicy : Type 0 where
  pub sla_hours : List (String × ℕ)
  pub max_retries : ℕ

-- One element of a report's `findings`, and the parts of a report file that are read.
pub record RawFinding : Type 0 where
  pub finding_id : String
  pub title : String
  pub category : String
  pub severity : String
  pub recommendation : String
  pub evidence : List String

pub record Report : Type 0 where
  pub status : String
  pub reviewer_passed : Bool
  pub full_name : String
  pub commit_sha : Option String
  pub findings : List RawFinding

pub record Summary : Type 0 where
  pub created : ℕ
  pub existing : ℕ
  pub skipped : ℕ

abbrev hours_of : String → List (String × ℕ) → Option ℕ
hours_of key [] = none
hours_of key ((k, h) ∷ rest) = if k == key then some h else hours_of key rest

abbrev hours_or_info : Option ℕ → Option ℕ → Result ℕ
hours_or_info found none = err (key_error "info")
hours_or_info none (some info) = ok info
hours_or_info (some h) (some info) = ok h

-- sla_hours.get(severity, sla_hours["info"]): the default is read first.
pub sla_hours_for : WorkflowPolicy → String → Result ℕ
sla_hours_for policy severity =
    hours_or_info (hours_of severity policy.sla_hours) (hours_of "info" policy.sla_hours)

abbrev pub is_execution_approval : Approval → Bool
is_execution_approval a = (a.stage == "execution") && (a.decision == "approved")

abbrev pub latest_approver : List Approval → Result String
latest_approver approvals = elim (last (keep is_execution_approval approvals)) [
  | none ↦ err (permission_error "approved execution record is required")
  | some a ↦ ok a.actor
]

abbrev pub attempt_of : WorkItem → ℕ
attempt_of item = item.retry_count + 1

module _ (p : Platform) (runtime_root : String) (policy : WorkflowPolicy) where
  due_at_for : String → Exec State ℕ
  due_at_for severity = do
    hours ← lift (sla_hours_for policy severity)
    now ← utc_now p
    pure (now + hours * 3600000000)

  new_item : String → String → Report → RawFinding → Exec State WorkItem
  new_item run_id actor report raw = do
    due ← due_at_for raw.severity
    created_at ← utc_now p
    updated_at ← utc_now p
    lift (
        post_init (record {
          work_item_id =
              stable_id p "WORK"
                (report.full_name ∷ raw.finding_id ∷ commit_or_none report.commit_sha ∷ []);
          finding_id = raw.finding_id;
          repository = report.full_name;
          source_commit = report.commit_sha;
          source_run_id = run_id;
          title = raw.title;
          category = raw.category;
          severity = raw.severity;
          recommendation = raw.recommendation;
          evidence = raw.evidence;
          state = new;
          owner = none;
          created_by = actor;
          plan_id = none;
          due_at = some due;
          retry_count = 0;
          max_retries = policy.max_retries;
          last_error = none;
          created_at = created_at;
          updated_at = updated_at;
        }))

  ingest_findings : String → String → Report → List RawFinding → Summary → Exec State Summary
  ingest_findings run_id actor report [] summary = pure summary
  ingest_findings run_id actor report (raw ∷ rest) summary = do
    item ← new_item run_id actor report raw
    (row, was_created) ← create_work_item p item
    ingest_findings run_id actor report rest (
        if was_created
        then record summary { created = summary.created + 1 }
        else record summary { existing = summary.existing + 1 })

  ingest_report : String → String → Report → Summary → Exec State Summary
  ingest_report run_id actor report summary =
      if not (report.status == "audited") || not report.reviewer_passed
      then pure (record summary { skipped = summary.skipped + 1 })
      else ingest_findings run_id actor report report.findings summary

  ingest_reports : String → String → List Report → Summary → Exec State Summary
  ingest_reports run_id actor [] summary = pure summary
  ingest_reports run_id actor (report ∷ rest) summary = do
    next ← ingest_report run_id actor report summary
    ingest_reports run_id actor rest next

  -- `ingest_run`, of the reports in the order of their file names
  pub ingest_run : String → String → List Report → Exec State Summary
  ingest_run run_id actor reports =
      ingest_reports run_id actor reports (record { created = 0; existing = 0; skipped = 0 })

  pub triage : String → String → String → Exec State WorkItem
  triage id actor new_owner = do
    guard (not (is_blank actor || is_blank new_owner)) (value_error "actor and owner are required")
    transition p id triaged actor "Ownership and SLA confirmed." (owner new_owner ∷ [])

  -- `type(plan)(**{**plan.to_dict(), "planner": actor, …})`
  abbrev pub planned_by : String → RemediationPlan → RemediationPlan
  planned_by actor plan = if actor == planner_name then plan else record plan { planner = actor }

  pub plan : String → String → Exec State WorkItem
  plan id actor = do
    item ← get_work_item p id
    guard (same_state item.state triaged) (value_error "work item must be triaged before planning")
    now ← utc_now p
    let draft = planned_by actor (create_plan p item policy.max_retries now)
    tool ← lift (get_tool draft.tool_name)
    guard (tool.enabled && not tool.side_effects)
        (permission_error "planner selected a tool outside the safe policy")
    save_plan p draft
    transition p id planned actor "Bounded remediation plan created." (plan_id draft.plan_id ∷ [])
    transition p id awaiting_execution_approval actor
        "All remediation execution requires human approval." []

  new_approval : String → String → String → String → String → Exec State Approval
  new_approval id stage actor decision comment = do
    now ← utc_now p
    lift (
        check_approval (record {
          work_item_id = id;
          stage = stage;
          actor = actor;
          decision = decision;
          comment = comment;
          created_at = now;
        }))

  pub approve_execution : String → String → String → String → Exec State WorkItem
  approve_execution id actor decision comment = do
    item ← get_work_item p id
    guard (same_state item.state awaiting_execution_approval)
        (value_error "work item is not awaiting execution approval")
    remediation ← get_plan p id
    guard (not (contains (item.created_by ∷ remediation.planner ∷ []) actor))
        (permission_error "execution approver must be independent")
    approval ← new_approval id "execution" actor decision comment
    add_approval p approval
    transition p id (if decision == "approved" then approved else manual_review) actor
        (concat ("Execution approval decision: " ∷ decision ∷ "." ∷ [])) []

  -- The body of the `try` of `execute`.
  run_attempt : String → String → WorkItem → RemediationPlan → Exec State WorkItem
  run_attempt id actor item remediation = do
    result ← execute_plan p runtime_root item remediation actor (attempt_of item)
    add_execution p result
    transition p id validating actor "Dry-run artifact generated; validation required."
        (retry_count (attempt_of item) ∷ last_error none ∷ [])

  -- Its `except`.
  retry_or_fall_back : String → String → WorkItem → Error → Exec State WorkItem
  retry_or_fall_back id actor item error =
      transition p id (if ltb (attempt_of item) item.max_retries then approved else manual_review)
        actor "Execution failed; bounded retry/fallback applied."
        (retry_count (attempt_of item) ∷ last_error (some (describe p error)) ∷ [])

  pub execute : String → String → Exec State WorkItem
  execute id actor = do
    item ← get_work_item p id
    guard (same_state item.state approved)
        (value_error "work item must be approved before execution")
    approvals ← approvals_of p id
    approver ← lift (latest_approver approvals)
    guard (not (actor == approver)) (permission_error "executor must be independent from approver")
    remediation ← get_plan p id
    started ← transition p id executing actor "Approved dry-run execution started." []
    try_except (run_attempt id actor started remediation) (retry_or_fall_back id actor started)

  -- The last step of `validate`, on the verdict.
  after_validation : String → String → WorkItem → Bool → List String → Exec State WorkItem
  after_validation id actor item passed failures =
      if passed
      then transition p id awaiting_closure_approval actor "Independent validation passed." []
      else transition p id
          (if ltb item.retry_count item.max_retries then approved else manual_review) actor
          "Validation failed; retry or manual fallback selected."
          (last_error (some (join "," failures)) ∷ [])

  pub validate : String → String → Exec State WorkItem
  validate id actor = do
    item ← get_work_item p id
    guard (same_state item.state validating) (value_error "work item is not awaiting validation")
    result ← latest_execution p id
    guard (not (actor == result.actor))
        (permission_error "validator must be independent from executor")
    (passed, failures) ← validate_result p runtime_root result
    append_event p (some id) "validation_completed" actor
        (obj (field "passed" (bool passed) (field "failures" (list failures) end)))
    after_validation id actor item passed failures

  pub approve_closure : String → String → String → String → Exec State WorkItem
  approve_closure id actor decision comment = do
    item ← get_work_item p id
    guard (same_state item.state awaiting_closure_approval)
        (value_error "work item is not awaiting closure approval")
    approvals ← approvals_of p id
    result ← latest_execution p id
    guard
        (not (
          contains (item.created_by ∷ result.actor ∷ map (λ (a : Approval). a.actor) approvals)
            actor))
        (permission_error "closure approver must be independent")
    approval ← new_approval id "closure" actor decision comment
    add_approval p approval
    transition p id (if decision == "approved" then closed else manual_review) actor
        (concat ("Closure approval decision: " ∷ decision ∷ "." ∷ [])) []

-- All that a run computes with here, under one name.
unfoldable pub governed_code : Unit {0}
unfolding sla_hours_for due_at_for new_item ingest_findings ingest_report ingest_reports ingest_run
    triage plan new_approval approve_execution run_attempt retry_or_fall_back execute
    after_validation validate approve_closure
governed_code = tt
