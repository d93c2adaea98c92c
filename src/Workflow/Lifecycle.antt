-- ===== src/Workflow/Lifecycle.antt =====
-- ae_control_plane/lifecycle.py: the states of a work item and the records of the workflow.
use agentic_engineering_cont.Prelude.{
  ℕ, String, Bool, true, not, Option, List, [], ◌∷◌, ◌==◌, ◌≡◌, refl, sym, ap, ◌∙◌, eqb→eq, ◌||◌,
  eqb, any, is_empty, concat, join, take, if◌then◌else◌,
}
use agentic_engineering_cont.Prelude.Platform.{
  Platform, Json, end, field, bool, str, obj, num, list, value_error,
}
use agentic_engineering_cont.Exec.{Result, ok, err}

-- WORK_STATES
pub data WorkState : Type 0 where
  new triaged planned awaiting_execution_approval approved executing validating : WorkState
  awaiting_closure_approval closed manual_review failed : WorkState

abbrev pub state_name : WorkState → String
state_name new = "new"
state_name triaged = "triaged"
state_name planned = "planned"
state_name awaiting_execution_approval = "awaiting_execution_approval"
state_name approved = "approved"
state_name executing = "executing"
state_name validating = "validating"
state_name awaiting_closure_approval = "awaiting_closure_approval"
state_name closed = "closed"
state_name manual_review = "manual_review"
state_name failed = "failed"

abbrev pub state_index : WorkState → ℕ
state_index new = 0
state_index triaged = 1
state_index planned = 2
state_index awaiting_execution_approval = 3
state_index approved = 4
state_index executing = 5
state_index validating = 6
state_index awaiting_closure_approval = 7
state_index closed = 8
state_index manual_review = 9
state_index failed = 10

abbrev pub same_state : WorkState → WorkState → Bool
same_state a b = eqb (state_index a) (state_index b)

abbrev state_at : ℕ → WorkState
state_at n =
    if eqb n 0
    then new
    else if eqb n 1
    then triaged
    else if eqb n 2
    then planned
    else if eqb n 3
    then awaiting_execution_approval
    else if eqb n 4
    then approved
    else if eqb n 5
    then executing
    else if eqb n 6
    then validating
    else if eqb n 7
    then awaiting_closure_approval
    else if eqb n 8
    then closed
    else if eqb n 9
    then manual_review
    else failed

state_at_index : (a : WorkState) → state_at (state_index a) ≡ a
state_at_index new = refl
state_at_index _ = refl

pub same_state-eq : (a b : WorkState) → same_state a b ≡ true → a ≡ b
same_state-eq a b h =
    sym (state_at_index a)
    ∙ ap state_at (eqb→eq (state_index a) (state_index b) h)
    ∙ state_at_index b

-- ALLOWED_TRANSITIONS
unfoldable pub allowed_transitions : WorkState → List WorkState
allowed_transitions new = triaged ∷ []
allowed_transitions triaged = planned ∷ manual_review ∷ []
allowed_transitions planned = awaiting_execution_approval ∷ manual_review ∷ []
allowed_transitions awaiting_execution_approval = approved ∷ manual_review ∷ []
allowed_transitions approved = executing ∷ manual_review ∷ []
allowed_transitions executing = validating ∷ approved ∷ manual_review ∷ failed ∷ []
allowed_transitions validating = awaiting_closure_approval ∷ approved ∷ manual_review ∷ failed ∷ []
allowed_transitions awaiting_closure_approval = closed ∷ manual_review ∷ []
allowed_transitions manual_review = triaged ∷ planned ∷ approved ∷ failed ∷ []
allowed_transitions closed = []
allowed_transitions failed = triaged ∷ []

-- `target in ALLOWED_TRANSITIONS[source]`
unfoldable pub may_move : WorkState → WorkState → Bool
unfolding allowed_transitions
may_move source target = any (λ s. same_state s target) (allowed_transitions source)

pub record WorkItem : Type 0 where
  pub work_item_id : String
  pub finding_id : String
  pub repository : String
  pub source_commit : Option String
  pub source_run_id : String
  pub title : String
  pub category : String
  pub severity : String
  pub recommendation : String
  pub evidence : List String
  pub state : WorkState
  pub owner : Option String
  pub created_by : String
  pub plan_id : Option String
  pub due_at : Option ℕ
  pub retry_count : ℕ
  pub max_retries : ℕ
  pub last_error : Option String
  pub created_at : ℕ
  pub updated_at : ℕ

-- WorkItem.__post_init__; the type of the states leaves its other test nothing to refuse.
unfoldable pub post_init : WorkItem → Result WorkItem
post_init item =
    if is_empty item.evidence then err (value_error "work item evidence is required") else ok item

pub record RemediationPlan : Type 0 where
  pub plan_id : String
  pub work_item_id : String
  pub planner : String
  pub tool_name : String
  pub execution_mode : String
  pub steps : List String
  pub validation_checks : List String
  pub fallback : String
  pub max_retries : ℕ
  pub source_repository_mutation : Bool
  pub created_at : ℕ

pub record Approval : Type 0 where
  pub work_item_id : String
  pub stage : String
  pub actor : String
  pub decision : String
  pub comment : String
  pub created_at : ℕ

-- Approval.__post_init__
unfoldable pub check_approval : Approval → Result Approval
check_approval a =
    if not (a.stage == "execution" || a.stage == "closure")
    then err (value_error (concat ("unsupported approval stage: " ∷ a.stage ∷ [])))
    else if not (a.decision == "approved" || a.decision == "rejected")
    then err (value_error (concat ("unsupported approval decision: " ∷ a.decision ∷ [])))
    else ok a

pub record ExecutionResult : Type 0 where
  pub execution_id : String
  pub work_item_id : String
  pub actor : String
  pub tool_name : String
  pub attempt : ℕ
  pub status : String
  pub artifact_path : String
  pub artifact_sha256 : String
  pub source_repository_mutation : Bool
  pub details : Json
  pub created_at : ℕ

module _ (p : Platform) where
  -- stable_id(prefix, *parts)
  unfoldable pub stable_id : String → List String → String
  stable_id prefix parts = concat (prefix ∷ "-" ∷ take 16 (p.sha256 (join "|" parts)) ∷ [])

  pub plan_to_dict : RemediationPlan → Json
  plan_to_dict r = obj (
      field "plan_id" (str r.plan_id) (
        field "work_item_id" (str r.work_item_id) (
          field "planner" (str r.planner) (
            field "tool_name" (str r.tool_name) (
              field "execution_mode" (str r.execution_mode) (
                field "steps" (list r.steps) (
                  field "validation_checks" (list r.validation_checks) (
                    field "fallback" (str r.fallback) (
                      field "max_retries" (num r.max_retries) (
                        field "source_repository_mutation" (bool r.source_repository_mutation)
                          (field "created_at" (str (p.isoformat r.created_at)) end)))))))))))

  pub approval_to_dict : Approval → Json
  approval_to_dict a = obj (
      field "work_item_id" (str a.work_item_id) (
        field "stage" (str a.stage) (
          field "actor" (str a.actor) (
            field "decision" (str a.decision) (
              field "comment" (str a.comment)
                (field "created_at" (str (p.isoformat a.created_at)) end))))))

  pub execution_to_dict : ExecutionResult → Json
  execution_to_dict r = obj (
      field "execution_id" (str r.execution_id) (
        field "work_item_id" (str r.work_item_id) (
          field "actor" (str r.actor) (
            field "tool_name" (str r.tool_name) (
              field "attempt" (num r.attempt) (
                field "status" (str r.status) (
                  field "artifact_path" (str r.artifact_path) (
                    field "artifact_sha256" (str r.artifact_sha256) (
                      field "source_repository_mutation" (bool r.source_repository_mutation) (
                        field "details" r.details
                          (field "created_at" (str (p.isoformat r.created_at)) end)))))))))))

-- All that a run computes with here, under one name.
unfoldable pub lifecycle_code : Unit {0}
unfolding allowed_transitions may_move post_init check_approval stable_id plan_to_dict
    approval_to_dict execution_to_dict
lifecycle_code = tt
