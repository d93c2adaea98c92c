-- ===== src/Development/Task.antt =====
-- The states of a development task and the task record (TASK_STATES, TRANSITIONS and the
-- dictionary that DevelopmentController.start builds, with the keys that later steps add).
use agentic_engineering_cont.Prelude.{
  ℕ, String, ◌≡◌, refl, sym, ap, ◌∙◌, Bool, true, Option, List, [], ◌∷◌, eqb, eqb→eq, any,
  if◌then◌else◌,
}
use agentic_engineering_cont.Prelude.Platform.{ℤ}

pub data TaskState : Type 0 where
  created planned workspace_ready changes_applied tests_passed tests_failed : TaskState
  review_passed review_failed awaiting_publish_approval publish_approved : TaskState
  published merged_verified manual_review cancelled : TaskState

abbrev pub state_name : TaskState → String
state_name created = "created"
state_name planned = "planned"
state_name workspace_ready = "workspace_ready"
state_name changes_applied = "changes_applied"
state_name tests_passed = "tests_passed"
state_name tests_failed = "tests_failed"
state_name review_passed = "review_passed"
state_name review_failed = "review_failed"
state_name awaiting_publish_approval = "awaiting_publish_approval"
state_name publish_approved = "publish_approved"
state_name published = "published"
state_name merged_verified = "merged_verified"
state_name manual_review = "manual_review"
state_name cancelled = "cancelled"

abbrev pub state_index : TaskState → ℕ
state_index created = 0
state_index planned = 1
state_index workspace_ready = 2
state_index changes_applied = 3
state_index tests_passed = 4
state_index tests_failed = 5
state_index review_passed = 6
state_index review_failed = 7
state_index awaiting_publish_approval = 8
state_index publish_approved = 9
state_index published = 10
state_index merged_verified = 11
state_index manual_review = 12
state_index cancelled = 13

abbrev pub same_state : TaskState → TaskState → Bool
same_state a b = eqb (state_index a) (state_index b)

abbrev state_at : ℕ → TaskState
state_at n =
    if eqb n 0
    then created
    else if eqb n 1
    then planned
    else if eqb n 2
    then workspace_ready
    else if eqb n 3
    then changes_applied
    else if eqb n 4
    then tests_passed
    else if eqb n 5
    then tests_failed
    else if eqb n 6
    then review_passed
    else if eqb n 7
    then review_failed
    else if eqb n 8
    then awaiting_publish_approval
    else if eqb n 9
    then publish_approved
    else if eqb n 10
    then published
    else if eqb n 11
    then merged_verified
    else if eqb n 12
    then manual_review
    else cancelled

state_at_index : (a : TaskState) → state_at (state_index a) ≡ a
state_at_index created = refl
state_at_index _ = refl

pub same_state-eq : (a b : TaskState) → same_state a b ≡ true → a ≡ b
same_state-eq a b h =
    sym (state_at_index a)
    ∙ ap state_at (eqb→eq (state_index a) (state_index b) h)
    ∙ state_at_index b

-- TRANSITIONS
unfoldable pub transitions : TaskState → List TaskState
transitions created = planned ∷ manual_review ∷ cancelled ∷ []
transitions planned = workspace_ready ∷ manual_review ∷ cancelled ∷ []
transitions workspace_ready = changes_applied ∷ manual_review ∷ cancelled ∷ []
transitions changes_applied = tests_passed ∷ tests_failed ∷ manual_review ∷ cancelled ∷ []
transitions tests_failed = changes_applied ∷ manual_review ∷ cancelled ∷ []
transitions tests_passed = review_passed ∷ review_failed ∷ manual_review ∷ cancelled ∷ []
transitions review_failed = changes_applied ∷ manual_review ∷ cancelled ∷ []
transitions review_passed = awaiting_publish_approval ∷ manual_review ∷ cancelled ∷ []
transitions awaiting_publish_approval = publish_approved ∷ manual_review ∷ cancelled ∷ []
transitions publish_approved = published ∷ manual_review ∷ []
transitions published = merged_verified ∷ manual_review ∷ []
transitions merged_verified = []
transitions manual_review = planned ∷ changes_applied ∷ cancelled ∷ []
transitions cancelled = []

unfoldable pub may_move : TaskState → TaskState → Bool
unfolding transitions
may_move source target = any (λ s. same_state s target) (transitions source)

-- An entry of the repository registry. `required_post_merge_checks` may be missing.
pub record Repository : Type 0 where
  pub name : String
  pub full_name : String
  pub clone_url : String
  pub default_branch : String
  pub status : String
  pub test_commands : List (List String)
  pub required_post_merge_checks : Option (List String)
  pub onboarded_source_sha : Option String
  pub onboarding_id : Option String

-- RepositoryRegistry: the repositories of its file, those of the overlay file where one is
-- configured and exists, and the dictionary in memory, under the names in lower case.
pub record Registry : Type 0 where
  pub base : List Repository
  pub has_overlay_path : Bool
  pub overlay : List Repository
  pub repositories : List Repository

pub record Plan : Type 0 where
  pub planner : String
  pub steps : List String
  pub agents : List String
  pub fallback : String
  pub max_repair_attempts : ℕ

pub record TestResult : Type 0 where
  pub argv : List String
  pub exit_code : ℤ
  pub stdout : String
  pub stderr : String

pub record Metrics : Type 0 where
  pub changed_files : List String
  pub changed_file_count : ℕ
  pub added_lines : ℕ
  pub deleted_lines : ℕ

pub record Review : Type 0 where
  pub passed : Bool
  pub failures : List String
  pub acceptance_evidence : List String
  pub change_sha256 : String

pub record PublishApproval : Type 0 where
  pub actor : String
  pub comment : String
  pub confirmation : String
  pub approved_at : ℕ

pub record PullRequest : Type 0 where
  pub number : ℕ
  pub url : String
  pub draft : Bool
  pub head_sha : String

pub record EvidenceRef : Type 0 where
  pub evidence_id : String
  pub path : String
  pub sha256 : String

pub record MergeVerification : Type 0 where
  pub merge_sha : String
  pub merged_at : String
  pub check_runs : ℕ
  pub required_checks : List String

pub record Cancellation : Type 0 where
  pub cancelled_by : String
  pub cancelled_at : ℕ
  pub cancellation_reason : String

pub record Task : Type 0 where
  pub task_id : String
  pub repository : Repository
  pub intent : String
  pub acceptance_criteria : List String
  pub risk : String
  pub state : TaskState
  pub base_branch : String
  pub branch : String
  pub required_post_merge_checks : Option (List String)
  pub source_sha : Option String
  pub workspace : Option String
  pub plan : Option Plan
  pub coder : Option String
  pub test_runner : Option String
  pub reviewer : Option String
  pub review : Option Review
  pub publish_approval : Option PublishApproval
  pub test_results : List TestResult
  pub change_metrics : Option Metrics
  pub change_set_sha256 : Option String
  pub repair_attempts : ℕ
  pub evidence_manifest : Option EvidenceRef
  pub pull_request : Option PullRequest
  pub merge_verification : Option MergeVerification
  pub cancellation : Option Cancellation
  pub created_by : String
  pub created_at : ℕ
  pub updated_at : ℕ

-- All that a run computes with here, under one name.
unfoldable pub task_code : Unit {0}
unfolding transitions may_move
task_code = tt
