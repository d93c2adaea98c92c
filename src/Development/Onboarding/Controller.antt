-- ===== src/Development/Onboarding/Controller.antt =====
-- RepositoryOnboardingController: discovery, assessment and the test contract of a repository.
use agentic_engineering_cont.Prelude.{
  ℕ, suc, String, Bool, true, false, not, ◌||◌, Option, none, some, List, [], ◌∷◌, ◌++◌, map, ◌==◌,
  any, contains, concat, is_empty, lower, strip, split_first, if◌then◌else◌,
}
use agentic_engineering_cont.Prelude.Platform.{
  Json, Items, nil, cons, arr, str, obj, end, field, list, value_error, permission_error, key_error,
}
use agentic_engineering_cont.Exec.{
  Result, ok, err, Exec, pure, lift, gets, modify, guard, ◌>>=◌, ◌>>◌,
}
use agentic_engineering_cont.Development.Host.{Host}
use agentic_engineering_cont.Development.Task.{Repository}
use agentic_engineering_cont.Development.Store.{State, utc_now}
use agentic_engineering_cont.Development.Workspace.{Policy, executable_of, run_command}
use agentic_engineering_cont.Development.Registry.{list_repositories}
use agentic_engineering_cont.Development.Onboarding.Record.{
  OnboardingState, discovered, assessment_blocked, awaiting_onboarding_approval, smoke_failed,
  same_state, state_name, Metadata, OnboardingRecord,
}
use agentic_engineering_cont.Development.Onboarding.Store.{
  onboarding_id, exists, load, save, append_event,
}
use agentic_engineering_cont.Development.Onboarding.Detect.{Detected, detect_contract}

abbrev newer : Option String → Option String → Option String
newer new old = elim new [ none ↦ old | some s ↦ some s ]

-- {**old, **new}
abbrev pub merged : Metadata → Metadata → Metadata
merged old new = record {
  full_name = new.full_name;
  name = new.name;
  clone_url = newer new.clone_url old.clone_url;
  default_branch = newer new.default_branch old.default_branch;
  archived = new.archived;
}

pub record Discovery : Type 0 where
  pub discovered_count : ℕ
  pub existing : ℕ
  pub ignored : ℕ
  pub records : List OnboardingRecord

abbrev pub value_of : String → Option String → Result String
value_of key none = err (key_error key)
value_of key (some s) = ok s

abbrev json_commands : List (List String) → Items
json_commands [] = nil
json_commands (argv ∷ rest) = cons (list argv) (json_commands rest)

-- A list of commands, as JSON.
abbrev pub commands_json : List (List String) → Json
commands_json commands = arr (json_commands commands)

abbrev pub state_payload : OnboardingState → Json
state_payload state = obj (field "state" (str (state_name state)) end)

module _ {W : Type 0} (h : Host W) (policy : Policy) where
  unfoldable pub new_record : Metadata → ℕ → OnboardingRecord
  new_record repository now = record {
    onboarding_id = onboarding_id h.platform repository.full_name;
    full_name = repository.full_name;
    name = repository.name;
    state = discovered;
    metadata = repository;
    frameworks = [];
    proposed_test_commands = [];
    assessment = none;
    approval = none;
    smoke_result = none;
    suspension = none;
    resumed_by = none;
    resume_reason = none;
    created_at = now;
    updated_at = now;
  }

  unfoldable pub update_record : Metadata → Exec (State W) OnboardingRecord
  update_record repository = do
    r ← load h repository.full_name
    save h (record r { metadata = merged r.metadata repository })

  unfoldable pub add_record : Metadata → String → Exec (State W) OnboardingRecord
  add_record repository actor = do
    now ← utc_now h
    saved ← save h (new_record repository now)
    append_event h repository.full_name "repository_discovered" actor (state_payload discovered)
    pure saved

  abbrev counted : Bool → OnboardingRecord → Discovery → Discovery
  counted true r d = record d { existing = suc d.existing; records = d.records ++ r ∷ [] }
  counted false r d = record d {
    discovered_count = suc d.discovered_count;
    records = d.records ++ r ∷ [];
  }

  unfoldable pub discover_one : Metadata → String → Discovery → Exec (State W) Discovery
  discover_one repository actor d = do
    known ← exists h repository.full_name
    r ← if known then update_record repository else add_record repository actor
    pure (counted known r d)

  -- The loop of discover; `active_names` are the names of the active repositories in lower case.
  unfoldable pub discover_all :
      List String → List Metadata → String → Discovery → Exec (State W) Discovery
  discover_all active_names [] actor d = pure d
  discover_all active_names (repository ∷ rest) actor d =
      if not (contains policy.allowed_owners (split_first 47 repository.full_name))
        || repository.archived
      then discover_all active_names rest actor (record d { ignored = suc d.ignored })
      else if contains active_names (lower repository.full_name)
      then discover_all active_names rest actor (record d { existing = suc d.existing })
      else (do next ← discover_one repository actor d; discover_all active_names rest actor next)

  unfoldable pub discover : List Metadata → String → Exec (State W) Discovery
  discover repositories actor = do
    registered ← gets (λ s. list_repositories false s.registry.repositories)
    discover_all (map (λ (r : Repository). lower r.full_name) registered) repositories actor
        (record { discovered_count = 0; existing = 0; ignored = 0; records = [] })

  -- The workspace of an earlier assessment is removed.
  unfoldable pub clear_assessment : String → String → Exec (State W) (Unit {0})
  clear_assessment root workspace = do
    present ← gets (λ s. h.exists workspace s.world)
    direct ←
        gets (λ s. h.resolve (concat (workspace ∷ "/.." ∷ [])) s.world == h.resolve root s.world)
    guard (not present || direct) (permission_error "invalid assessment workspace")
    modify (λ s. record s { world = if present then h.remove_tree workspace s.world else s.world })

  abbrev clone_prefix : String → W → List String
  clone_prefix source w =
      if h.exists source w
      then "git"
        ∷ "-c"
        ∷ concat ("safe.directory=" ∷ h.resolve source w ∷ [])
        ∷ "-c"
        ∷ concat ("safe.directory=" ∷ h.resolve (concat (source ∷ "/.git" ∷ [])) w ∷ [])
        ∷ []
      else "git" ∷ []

  -- _clone_for_assessment; `root` is the directory of the record.
  unfoldable pub clone_for_assessment : String → OnboardingRecord → Exec (State W) String
  clone_for_assessment root r = do
    let workspace = concat (root ∷ "/assessment" ∷ [])
    clear_assessment root workspace
    source ← lift (value_of "clone_url" r.metadata.clone_url)
    prefix ← gets (λ s. clone_prefix source s.world)
    branch ← lift (value_of "default_branch" r.metadata.default_branch)
    run_command h
        (prefix
          ++ "clone" ∷ "--no-tags" ∷ "--single-branch" ∷ "--branch" ∷ branch ∷ source ∷ workspace
            ∷ [])
        root true
    pure workspace

  unfoldable pub may_assess : OnboardingState → Bool
  may_assess state = any (same_state state) (discovered ∷ assessment_blocked ∷ smoke_failed ∷ [])

  unfoldable pub assessed :
      OnboardingRecord → String → String → String → Detected → ℕ → OnboardingRecord
  assessed r actor source_sha workspace d now = record r {
    frameworks = d.frameworks;
    proposed_test_commands = d.commands;
    assessment = some (record {
      actor = actor;
      source_sha = source_sha;
      workspace = workspace;
      risks = d.risks;
      assessed_at = now;
    });
    approval = none;
    smoke_result = none;
    state = if is_empty d.commands then assessment_blocked else awaiting_onboarding_approval;
  }

  -- `root` is the directory of the record.
  unfoldable pub assess : String → String → String → Exec (State W) OnboardingRecord
  assess root full_name actor = do
    r ← load h full_name
    guard (may_assess r.state)
        (value_error (concat ("cannot assess from state: " ∷ state_name r.state ∷ [])))
    workspace ← clone_for_assessment root r
    head ← run_command h ("git" ∷ "rev-parse" ∷ "HEAD" ∷ []) workspace true
    d ← detect_contract h workspace
    resolved ← gets (λ s. h.resolve workspace s.world)
    now ← utc_now h
    saved ← save h (assessed r actor (strip head.stdout) resolved d now)
    append_event h full_name "repository_assessed" actor (
        obj (
          field "state" (str (state_name saved.state)) (
            field "frameworks" (list d.frameworks) (
              field "test_commands" (commands_json d.commands)
                (field "risks" (list d.risks) end)))))
    pure saved

  unfoldable pub may_replace : OnboardingState → Bool
  may_replace state =
      any (same_state state) (assessment_blocked ∷ awaiting_onboarding_approval ∷ smoke_failed ∷ [])

  abbrev check_command : List String → Result (Unit {0})
  check_command [] = err (value_error "test commands must be non-empty argument arrays")
  check_command (program ∷ arguments) =
      if contains policy.allowed_test_executables (executable_of program)
      then ok tt
      else err (
          permission_error
            (concat ("test executable is not allowed: " ∷ executable_of program ∷ [])))

  unfoldable pub check_commands : List (List String) → Exec (State W) (Unit {0})
  check_commands [] = pure tt
  check_commands (argv ∷ rest) = do lift (check_command argv); check_commands rest

  unfoldable pub set_contract :
      String → List (List String) → String → Exec (State W) OnboardingRecord
  set_contract full_name commands actor = do
    r ← load h full_name
    guard (may_replace r.state)
        (value_error (concat ("cannot replace contract from state: " ∷ state_name r.state ∷ [])))
    guard (not (is_empty commands)) (value_error "at least one test command is required")
    check_commands commands
    saved ← save h (record r {
      proposed_test_commands = commands;
      state = awaiting_onboarding_approval;
      approval = none;
      smoke_result = none;
    })
    append_event h full_name "test_contract_replaced" actor
        (obj (field "test_commands" (commands_json commands) end))
    pure saved

-- All that a run computes with here, under one name.
unfoldable pub discovery_code : Unit {0}
unfolding new_record update_record add_record discover_one discover_all discover clear_assessment
    clone_for_assessment may_assess assessed assess may_replace check_commands set_contract
discovery_code = tt
