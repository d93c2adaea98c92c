-- ===== src/Development/Onboarding/Activation.antt =====
-- RepositoryOnboardingController: approval, activation, suspension and resumption.
use agentic_engineering_cont.Prelude.{
  ℕ, String, Bool, true, false, not, ◌&&◌, Option, none, some, List, [], ◌∷◌, ◌==◌, concat,
  is_blank, if◌then◌else◌,
}
use agentic_engineering_cont.Prelude.Platform.{
  Items, nil, cons, arr, str, obj, int, end, field, list, value_error, permission_error, type_error,
}
use agentic_engineering_cont.Exec.{
  Result, ok, err, Exec, pure, lift, gets, modify, guard, ◌>>=◌, ◌>>◌,
}
use agentic_engineering_cont.Development.Host.{Host}
use agentic_engineering_cont.Development.Task.{Repository, TestResult}
use agentic_engineering_cont.Development.Store.{State, utc_now}
use agentic_engineering_cont.Development.Workspace.{Policy, run_command, run_tests, first_word}
use agentic_engineering_cont.Development.Registry.{get_repository, save_overlay}
use agentic_engineering_cont.Development.Onboarding.Record.{
  discovered, awaiting_onboarding_approval, approved, smoke_failed, active, suspended, same_state,
  state_name, Assessment, OnboardingApproval, OnboardingRecord,
}
use agentic_engineering_cont.Development.Onboarding.Store.{
  onboarding_id, exists, load, save, append_event,
}
use agentic_engineering_cont.Development.Onboarding.Controller.{value_of, commands_json}

abbrev pub assessment_of : Option Assessment → Result Assessment
assessment_of none = err (type_error "'NoneType' object is not subscriptable")
assessment_of (some a) = ok a

abbrev pub approval_of : Option OnboardingApproval → Result OnboardingApproval
approval_of none = err (type_error "'NoneType' object is not subscriptable")
approval_of (some a) = ok a

abbrev result_items : List TestResult → Items
result_items [] = nil
result_items (r ∷ rs) =
    cons
      (obj (
        field "argv" (list r.argv) (
          field "exit_code" (int r.exit_code)
            (field "stdout" (str r.stdout) (field "stderr" (str r.stderr) end)))))
      (result_items rs)

module _ {W : Type 0} (h : Host W) (policy : Policy) where
  unfoldable pub approve : String → String → String → String → Exec (State W) OnboardingRecord
  approve full_name actor confirmation comment = do
    r ← load h full_name
    guard (same_state r.state awaiting_onboarding_approval)
        (value_error (concat ("cannot approve from state: " ∷ state_name r.state ∷ [])))
    a ← lift (assessment_of r.assessment)
    guard (not (actor == a.actor))
        (permission_error "onboarding approver must be independent from assessor")
    guard (confirmation == concat ("APPROVE ONBOARD " ∷ full_name ∷ [])) (
        permission_error
          (concat ("confirmation must exactly equal: APPROVE ONBOARD " ∷ full_name ∷ [])))
    now ← utc_now h
    saved ← save h (record r {
      state = approved;
      approval = some (record {
        actor = actor;
        confirmation = confirmation;
        comment = comment;
        approved_at = now;
      });
    })
    append_event h full_name "onboarding_approved" actor (obj (field "comment" (str comment) end))
    pure saved

  unfoldable pub fail_smoke :
      OnboardingRecord → String → String → List TestResult → Exec (State W) OnboardingRecord
  fail_smoke r full_name actor results = do
    saved ← save h (record r { state = smoke_failed })
    append_event h full_name "onboarding_smoke_failed" actor
        (obj (field "results" (arr (result_items results)) end))
    pure saved

  unfoldable pub registered : OnboardingRecord → String → String → String → String → Repository
  registered r full_name clone_url default_branch source_sha = record {
    name = r.name;
    full_name = full_name;
    clone_url = clone_url;
    default_branch = default_branch;
    status = "active";
    test_commands = r.proposed_test_commands;
    required_post_merge_checks = none;
    onboarded_source_sha = some source_sha;
    onboarding_id = some r.onboarding_id;
  }

  -- self.registry.save_overlay(repository)
  unfoldable pub write_overlay : Repository → Exec (State W) (Unit {0})
  write_overlay repository = do
    outcome ← gets (λ s. save_overlay repository s.registry)
    registry ← lift outcome
    modify (λ s. record s { registry = registry })

  unfoldable pub pass_smoke :
      OnboardingRecord → Assessment → String → String → Exec (State W) OnboardingRecord
  pass_smoke r a full_name actor = do
    clone_url ← lift (value_of "clone_url" r.metadata.clone_url)
    default_branch ← lift (value_of "default_branch" r.metadata.default_branch)
    write_overlay (registered r full_name clone_url default_branch a.source_sha)
    saved ← save h (record r { state = active })
    append_event h full_name "repository_activated" actor (
        obj (
          field "source_sha" (str a.source_sha)
            (field "test_commands" (commands_json r.proposed_test_commands) end)))
    pure saved

  unfoldable pub finish_smoke :
      OnboardingRecord
      → Assessment
      → String
      → String
      → Bool × List TestResult
      → Exec (State W) OnboardingRecord
  finish_smoke r a full_name actor (passed, results) = do
    now ← utc_now h
    let tried : OnboardingRecord = record r {
      smoke_result =
          some (record { actor = actor; passed = passed; results = results; completed_at = now });
    }
    if passed then pass_smoke tried a full_name actor else fail_smoke tried full_name actor results

  -- `root` is the directory of the record.
  unfoldable pub activate : String → String → String → Exec (State W) OnboardingRecord
  activate root full_name actor = do
    r ← load h full_name
    guard (same_state r.state approved)
        (value_error (concat ("cannot activate from state: " ∷ state_name r.state ∷ [])))
    approval ← lift (approval_of r.approval)
    guard (not (actor == approval.actor))
        (permission_error "smoke-test runner must be independent from approver")
    a ← lift (assessment_of r.assessment)
    branch ← lift (value_of "default_branch" r.metadata.default_branch)
    remote ←
        run_command h ("git" ∷ "ls-remote" ∷ "origin" ∷ concat ("refs/heads/" ∷ branch ∷ []) ∷ [])
          a.workspace true
    guard (not (is_blank remote.stdout) && first_word remote.stdout == a.source_sha)
        (permission_error "repository default branch moved after assessment; reassessment required")
    outcome ←
        run_tests h policy r.proposed_test_commands a.workspace
          (concat (root ∷ "/container-output" ∷ []))
    finish_smoke r a full_name actor outcome

  -- The record of a repository that was registered without onboarding.
  unfoldable pub registry_record : Repository → ℕ → OnboardingRecord
  registry_record repository now = record {
    onboarding_id = onboarding_id h.platform repository.full_name;
    full_name = repository.full_name;
    name = repository.name;
    state = active;
    metadata = record {
      full_name = repository.full_name;
      name = repository.name;
      clone_url = some repository.clone_url;
      default_branch = some repository.default_branch;
      archived = false;
    };
    frameworks = [];
    proposed_test_commands = repository.test_commands;
    assessment = none;
    approval = none;
    smoke_result = none;
    suspension = none;
    resumed_by = none;
    resume_reason = none;
    created_at = now;
    updated_at = now;
  }

  unfoldable pub make_record : Repository → Exec (State W) OnboardingRecord
  make_record repository = do now ← utc_now h; pure (registry_record repository now)

  unfoldable pub suspend : String → String → String → String → Exec (State W) OnboardingRecord
  suspend name actor confirmation reason = do
    found ← gets (λ s. get_repository s.registry.repositories name)
    repository ← lift found
    guard (confirmation == concat ("SUSPEND " ∷ repository.full_name ∷ [])) (
        permission_error
          (concat ("confirmation must exactly equal: SUSPEND " ∷ repository.full_name ∷ [])))
    write_overlay (record repository { status = "suspended" })
    known ← exists h repository.full_name
    r ← if known then load h repository.full_name else make_record repository
    now ← utc_now h
    saved ← save h (record r {
      state = suspended;
      suspension = some (record { actor = actor; reason = reason; suspended_at = now });
    })
    append_event h repository.full_name "repository_suspended" actor
        (obj (field "reason" (str reason) end))
    pure saved

  unfoldable pub resume_onboarding :
      String → String → String → String → Exec (State W) OnboardingRecord
  resume_onboarding full_name actor confirmation reason = do
    r ← load h full_name
    guard (same_state r.state suspended)
        (value_error (concat ("cannot resume from state: " ∷ state_name r.state ∷ [])))
    guard (confirmation == concat ("RESUME ONBOARDING " ∷ full_name ∷ [])) (
        permission_error
          (concat ("confirmation must exactly equal: RESUME ONBOARDING " ∷ full_name ∷ [])))
    saved ← save h (record r {
      state = discovered;
      assessment = none;
      approval = none;
      smoke_result = none;
      resumed_by = some actor;
      resume_reason = some reason;
    })
    append_event h full_name "repository_onboarding_resumed" actor
        (obj (field "reason" (str reason) end))
    pure saved

-- All that a run computes with here, under one name.
unfoldable pub activation_code : Unit {0}
unfolding approve fail_smoke registered write_overlay pass_smoke finish_smoke activate
    registry_record make_record suspend resume_onboarding
activation_code = tt
