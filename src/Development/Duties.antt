-- ===== src/Development/Duties.antt =====
-- Who has done what by the time a task is in a state, and how many change sets were applied.
use agentic_engineering_cont.Prelude.{ℕ, ◌≤◌, String, ◌≡◌, ◌≢◌, true, some, List, [], All}
use agentic_engineering_cont.Development.Task.{
  TaskState, changes_applied, tests_passed, review_passed, awaiting_publish_approval,
  publish_approved, published, merged_verified, Review, PublishApproval, Task,
}
use agentic_engineering_cont.Development.Store.{Entry}

-- A coder applied a change set.
pub record Coded (t : Task) : Type 0 where
  pub coder : String
  pub is_coder : t.coder ≡ some coder

-- Another person ran the tests.
pub record Tested (t : Task) : Type 0 where
  pub coder : String
  pub runner : String
  pub is_coder : t.coder ≡ some coder
  pub is_runner : t.test_runner ≡ some runner
  pub apart : coder ≢ runner

-- A third person reviewed the change set, without a failure.
pub record Reviewed (t : Task) : Type 0 where
  pub tested : Tested t
  pub reviewer : String
  pub review : Review
  pub is_reviewer : t.reviewer ≡ some reviewer
  pub is_review : t.review ≡ some review
  pub not_coder : reviewer ≢ tested.coder
  pub not_runner : reviewer ≢ tested.runner
  pub no_failure : review.failures ≡ []
  pub has_passed : review.passed ≡ true

-- A fourth person approved the publication.
pub record Released (t : Task) : Type 0 where
  pub reviewed : Reviewed t
  pub approval : PublishApproval
  pub is_approval : t.publish_approval ≡ some approval
  pub not_coder : approval.actor ≢ reviewed.tested.coder
  pub not_runner : approval.actor ≢ reviewed.tested.runner
  pub not_reviewer : approval.actor ≢ reviewed.reviewer

abbrev pub Duties : TaskState → Task → Type 0
Duties changes_applied t = Coded t
Duties tests_passed t = Tested t
Duties review_passed t = Reviewed t
Duties awaiting_publish_approval t = Reviewed t
Duties publish_approved t = Released t
Duties published t = Released t
Duties merged_verified t = Released t
Duties _ t = Unit {0}

pub record TaskSafe (budget : ℕ) (t : Task) : Type 0 where
  pub duties : Duties t.state t
  pub within : t.repair_attempts ≤ budget

abbrev pub TasksSafe : ℕ → List Entry → Type 0
TasksSafe budget entries = All (λ e. TaskSafe budget e.task) entries
