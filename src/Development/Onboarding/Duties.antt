-- ===== src/Development/Onboarding/Duties.antt =====
-- Who has done what by the time an onboarding record is in a state.
use agentic_engineering_cont.Prelude.{◌≡◌, ◌≢◌, ◌∙◌, true, false, some, List, All, is_empty}
use agentic_engineering_cont.Development.Onboarding.Record.{
  OnboardingState, discovered, assessment_blocked, awaiting_onboarding_approval, approved,
  smoke_failed, active, suspended, Assessment, OnboardingApproval, SmokeResult, OnboardingRecord,
  Folder,
}

pub record Assessed (r : OnboardingRecord) : Type 0 where
  pub assessment : Assessment
  pub is_assessment : r.assessment ≡ some assessment

-- There is a test command to run.
pub record Awaiting (r : OnboardingRecord) : Type 0 where
  pub assessed : Assessed r
  pub has_contract : is_empty r.proposed_test_commands ≡ false

-- The approver is not the assessor.
pub record Approved (r : OnboardingRecord) : Type 0 where
  pub awaiting : Awaiting r
  pub approval : OnboardingApproval
  pub is_approval : r.approval ≡ some approval
  pub not_assessor : approval.actor ≢ awaiting.assessed.assessment.actor

-- The test commands passed, in a run by somebody who is not the approver.
pub record Activated (r : OnboardingRecord) : Type 0 where
  pub agreed : Approved r
  pub smoke : SmokeResult
  pub is_smoke : r.smoke_result ≡ some smoke
  pub has_passed : smoke.passed ≡ true
  pub not_approver : smoke.actor ≢ agreed.approval.actor

abbrev pub Duties : OnboardingState → OnboardingRecord → Type 0
Duties assessment_blocked r = Assessed r
Duties awaiting_onboarding_approval r = Awaiting r
Duties approved r = Approved r
Duties smoke_failed r = Assessed r
Duties active r = Activated r
Duties _ r = Unit {0}

abbrev pub RecordSafe : OnboardingRecord → Type 0
RecordSafe r = Duties r.state r

abbrev pub FoldersSafe : List Folder → Type 0
FoldersSafe fs = All (λ f. RecordSafe f.entry) fs

-- What the duties speak of is the same in both records.
pub record Agrees (r q : OnboardingRecord) : Type 0 where
  pub assessment : q.assessment ≡ r.assessment
  pub approval : q.approval ≡ r.approval
  pub commands : q.proposed_test_commands ≡ r.proposed_test_commands

unfoldable pub Assessed-of :
    (r q : OnboardingRecord) → q.assessment ≡ r.assessment → Assessed r → Assessed q
Assessed-of r q a d = record { assessment = d.assessment; is_assessment = a ∙ d.is_assessment }

unfoldable pub Awaiting-of : (r q : OnboardingRecord) → Agrees r q → Awaiting r → Awaiting q
unfolding Assessed-of
Awaiting-of r q a d = record {
  assessed = Assessed-of r q a.assessment d.assessed;
  has_contract = rw a.commands d.has_contract;
}

unfoldable pub Approved-of : (r q : OnboardingRecord) → Agrees r q → Approved r → Approved q
unfolding Assessed-of Awaiting-of
Approved-of r q a d = record {
  awaiting = Awaiting-of r q a d.awaiting;
  approval = d.approval;
  is_approval = a.approval ∙ d.is_approval;
  not_assessor = d.not_assessor;
}

Activated-of :
    (r q : OnboardingRecord)
    → Agrees r q
    → q.smoke_result ≡ r.smoke_result
    → Activated r
    → Activated q
unfolding Assessed-of Awaiting-of Approved-of
Activated-of r q a s d = record {
  agreed = Approved-of r q a d.agreed;
  smoke = d.smoke;
  is_smoke = s ∙ d.is_smoke;
  has_passed = d.has_passed;
  not_approver = d.not_approver;
}

pub Duties-of :
    (s : OnboardingState) (r q : OnboardingRecord)
    → Agrees r q
    → q.smoke_result ≡ r.smoke_result
    → Duties s r
    → Duties s q
Duties-of assessment_blocked r q a e d = Assessed-of r q a.assessment d
Duties-of awaiting_onboarding_approval r q a e d = Awaiting-of r q a d
Duties-of approved r q a e d = Approved-of r q a d
Duties-of smoke_failed r q a e d = Assessed-of r q a.assessment d
Duties-of active r q a e d = Activated-of r q a e d
Duties-of discovered r q a e d = tt
Duties-of suspended r q a e d = tt
