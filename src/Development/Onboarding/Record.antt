-- ===== src/Development/Onboarding/Record.antt =====
-- The onboarding record of a repository and its event log, as OnboardingStore keeps them.
use agentic_engineering_cont.Prelude.{
  ℕ, String, ◌≡◌, refl, sym, ap, ◌∙◌, Bool, true, Option, List, eqb, eqb→eq, if◌then◌else◌,
}
use agentic_engineering_cont.Prelude.Platform.{Json}
use agentic_engineering_cont.Development.Task.{TestResult}

-- ONBOARDING_STATES
pub data OnboardingState : Type 0 where
  discovered assessment_blocked awaiting_onboarding_approval approved : OnboardingState
  smoke_failed active suspended : OnboardingState

abbrev pub state_name : OnboardingState → String
state_name discovered = "discovered"
state_name assessment_blocked = "assessment_blocked"
state_name awaiting_onboarding_approval = "awaiting_onboarding_approval"
state_name approved = "approved"
state_name smoke_failed = "smoke_failed"
state_name active = "active"
state_name suspended = "suspended"

abbrev pub state_index : OnboardingState → ℕ
state_index discovered = 0
state_index assessment_blocked = 1
state_index awaiting_onboarding_approval = 2
state_index approved = 3
state_index smoke_failed = 4
state_index active = 5
state_index suspended = 6

abbrev pub same_state : OnboardingState → OnboardingState → Bool
same_state a b = eqb (state_index a) (state_index b)

abbrev state_at : ℕ → OnboardingState
state_at n =
    if eqb n 0
    then discovered
    else if eqb n 1
    then assessment_blocked
    else if eqb n 2
    then awaiting_onboarding_approval
    else if eqb n 3
    then approved
    else if eqb n 4
    then smoke_failed
    else if eqb n 5
    then active
    else suspended

state_at-index : (a : OnboardingState) → state_at (state_index a) ≡ a
state_at-index discovered = refl
state_at-index _ = refl

pub same_state-eq : (a b : OnboardingState) → same_state a b ≡ true → a ≡ b
same_state-eq a b h =
    sym (state_at-index a)
    ∙ ap state_at (eqb→eq (state_index a) (state_index b) h)
    ∙ state_at-index b

-- The keys of a repository's metadata that are read; `clone_url` and `default_branch` may be missing.
pub record Metadata : Type 0 where
  pub full_name : String
  pub name : String
  pub clone_url : Option String
  pub default_branch : Option String
  pub archived : Bool

pub record Assessment : Type 0 where
  pub actor : String
  pub source_sha : String
  pub workspace : String
  pub risks : List String
  pub assessed_at : ℕ

pub record OnboardingApproval : Type 0 where
  pub actor : String
  pub confirmation : String
  pub comment : String
  pub approved_at : ℕ

pub record SmokeResult : Type 0 where
  pub actor : String
  pub passed : Bool
  pub results : List TestResult
  pub completed_at : ℕ

pub record Suspension : Type 0 where
  pub actor : String
  pub reason : String
  pub suspended_at : ℕ

pub record OnboardingRecord : Type 0 where
  pub onboarding_id : String
  pub full_name : String
  pub name : String
  pub state : OnboardingState
  pub metadata : Metadata
  pub frameworks : List String
  pub proposed_test_commands : List (List String)
  pub assessment : Option Assessment
  pub approval : Option OnboardingApproval
  pub smoke_result : Option SmokeResult
  pub suspension : Option Suspension
  pub resumed_by : Option String
  pub resume_reason : Option String
  pub created_at : ℕ
  pub updated_at : ℕ

-- A line of events.jsonl. A line without the key "event_hash" has `none`.
pub record OnboardingEvent : Type 0 where
  pub onboarding_id : String
  pub full_name : String
  pub event_type : String
  pub actor : String
  pub payload : Json
  pub previous_hash : String
  pub created_at : ℕ
  pub event_hash : Option String

-- The directory of an onboarding id.
pub record Folder : Type 0 where
  pub onboarding_id : String
  pub entry : OnboardingRecord
  pub events : List OnboardingEvent
