-- ===== src/Development/Samples.antt =====
-- A host that can be computed with, and a run of the development protocol on it from the intent to
-- the verified merge.
use agentic_engineering_cont.Prelude.{
  concat, Bool, ℕ, zero, suc, String, ◌≡◌, refl, is_some, true, false, Option, none, some, List, [],
  ◌∷◌, contains, strip, lower, is_blank, split_first, if◌then◌else◌,
}
use agentic_engineering_cont.Prelude.Platform.{
  Json, end, field, str, arr, obj, nil, cons, pos, get_field, describe,
}
use agentic_engineering_cont.Exec.{Result, ok, err, exec_code}
use agentic_engineering_cont.Workflow.Lifecycle.{lifecycle_code}
use agentic_engineering_cont.Isolation.Docker
use agentic_engineering_cont.Isolation.Docker.{docker_code}
use agentic_engineering_cont.Isolation.Samples.{machine, docker_config}
use agentic_engineering_cont.Workflow.Samples.{toy}
use agentic_engineering_cont.Development.Task.{Repository, Task, task_code}
use agentic_engineering_cont.Development.Host.{Host}
use agentic_engineering_cont.Development.Store.{Entry, State, entry_of, store_code}
use agentic_engineering_cont.Development.Log.{log_code}
use agentic_engineering_cont.Development.Paths.{safe_relative, paths_code}
use agentic_engineering_cont.Development.Inside.{LiesBelow, safe_relative-LiesBelow}
use agentic_engineering_cont.Development.Workspace.{Policy, workspace_code}
use agentic_engineering_cont.Development.Registry.{registry_code}
use agentic_engineering_cont.Development.Controller.{new_task, controller_code}
use agentic_engineering_cont.Development.Chained.{AllChained}
use agentic_engineering_cont.Development.Evidence.{build_evidence, evidence_code}
use agentic_engineering_cont.Development.Gates.{publish, verify_merge, gates_code}
use agentic_engineering_cont.Development.Published.{WasReviewed, publish-WasReviewed}
use agentic_engineering_cont.Development.Merged.{WasVerified, verify_merge-WasVerified}
use agentic_engineering_cont.Development.Duties.{Released}
use agentic_engineering_cont.Development.Runs.{
  Operation, starting, planning, preparing, applying, testing, reviewing, approving, publishing,
  verifying, empty_state, run, is_released, runs_code, run-AllChained, published-separates_duties,
}

abbrev change_set : Json
change_set = obj (
    field "operations"
      (arr (
        cons
          (obj (
            field "path" (str "src/app.py")
              (field "op" (str "write") (field "content" (str "x") end))))
          nil))
      end)

abbrev shown : ℕ → String
shown zero = "base"
shown (suc n) = "head"

abbrev tally : ℕ → String
tally zero = "EVD-"
tally (suc n) = concat (tally n ∷ "1" ∷ [])

-- The world counts the commits. The workspace has one untracked file.
abbrev reply : List String → ℕ → String
reply argv commits =
    if contains argv "ls-files"
    then "src/app.py\n"
    else if contains argv "rev-parse"
    then shown commits
    else if contains argv "ls-remote"
    then "base refs/heads/main"
    else if contains argv "status"
    then "?? src/app.py"
    else ""

abbrev pub toy_host : Host ℕ
toy_host = record {
  platform = record toy { loads = λ s. some change_set };
  spawn = λ argv cwd n. (
    some (record { returncode = pos 0; stdout = reply argv n; stderr = "" }),
    if contains argv "commit" then suc n else n,
  );
  docker_run =
      λ argv workspace output_dir. Docker.run machine docker_config argv workspace output_dir 600;
  python = "python3";
  exists = λ path n. false;
  is_file = λ path n. true;
  read_text = λ path n. ok "x";
  read_bytes = λ path n. ok "x";
  write_bytes = λ path content n. n;
  unlink = λ path n. n;
  remove_tree = λ path n. n;
  resolve = λ path n. path;
  is_parent = λ parent path n. true;
  create_pull = λ repository token title body head base n.
      (ok (record { number = 7; html_url = "https://example.org/7"; draft = true }), n);
  get_pull = λ repository number token n. (
    ok (record { merged_at = some "later"; head_sha = some "head"; merge_commit_sha = "merge" }),
    n,
  );
  get_check_runs = λ repository sha token n.
      (ok (record { name = "ci"; status = "completed"; conclusion = "success" } ∷ []), n);
  tree = λ path n. [];
  github_token = some "token";
  finds_secret = λ text. false;
  evidence_id = tally;
  str_of = λ j. "";
  task_text = λ t. "task";
}

abbrev pub policy : Policy
policy = record {
  allowed_owners = "deadbeefcafe" ∷ [];
  max_changed_files = 5;
  max_added_lines = 50;
  max_deleted_lines = 50;
  max_file_bytes = 1000;
  max_repair_attempts = 2;
  allowed_test_executables = "python" ∷ [];
  required_post_merge_checks = "ci" ∷ [];
  uses_docker = true;
}

abbrev repository : Repository
repository = record {
  name = "app";
  full_name = "deadbeefcafe/app";
  clone_url = "https://example.org/app.git";
  default_branch = "main";
  status = "active";
  test_commands = ("python" ∷ "-m" ∷ "pytest" ∷ []) ∷ [];
  required_post_merge_checks = none;
  onboarded_source_sha = none;
  onboarding_id = none;
}

abbrev registry : List Repository
registry = repository ∷ []

abbrev task_id : String
task_id = "DEV-f00df00ddeadbeef"

abbrev whole_life : List (Operation ℕ)
whole_life =
    starting "App" "Add a file" ("It is there" ∷ []) "ida"
    ∷ planning task_id "paula"
    ∷ preparing "/tasks/1" task_id "wim"
    ∷ applying task_id "/changes.json" "carol"
    ∷ testing "/tasks/1" task_id "tom"
    ∷ reviewing task_id "rita" ("seen" ∷ [])
    ∷ approving task_id "ann" "APPROVE DEV-f00df00ddeadbeef" "go"
    ∷ publishing "/tasks/1" task_id "bot" "Add a file" "body" none
    ∷ verifying "/tasks/1" task_id "bot" none
    ∷ []

program : Unit {0}
unfolding log_code exec_code lifecycle_code task_code paths_code workspace_code docker_code
    registry_code store_code evidence_code controller_code gates_code runs_code strip lower is_blank
    split_first get_field describe
program = tt

abbrev final : State ℕ
final = run toy_host policy registry (empty_state 0) whole_life

abbrev found_or : Option Entry → Entry → Entry
found_or none d = d
found_or (some e) d = e

abbrev no_task : Task
unfolding new_task
no_task = new_task toy_host policy registry repository [] "" "" [] "" 0 0

abbrev merged : Entry
merged = found_or (entry_of task_id final.entries) (record { task = no_task; events = [] })

found_or-some :
    (found : Option Entry) (d : Entry) → is_some found ≡ true → found ≡ some (found_or found d)
found_or-some none d h = cc
found_or-some (some e) d h = refl

has_merged : is_some (entry_of task_id final.entries) ≡ true
unfolding program
has_merged = refl

found_merged :
    entry_of task_id (run toy_host policy registry (empty_state 0) whole_life).entries ≡ some merged
found_merged = found_or-some _ _ has_merged

is_merged : is_released merged.task.state ≡ true
unfolding program
is_merged = refl

published-separates_duties_example : Released merged.task
published-separates_duties_example =
    published-separates_duties toy_host policy registry 0 whole_life task_id merged found_merged
      is_merged

app_path : safe_relative "src\\app/./main.py" ≡ ok ("src" ∷ "app" ∷ "main.py" ∷ [])
unfolding program
app_path = refl

safe_relative-LiesBelow_example : LiesBelow "src\\app/./main.py" ("src" ∷ "app" ∷ "main.py" ∷ [])
safe_relative-LiesBelow_example = safe_relative-LiesBelow "src\\app/./main.py" _ app_path

abbrev until_approval : List (Operation ℕ)
until_approval =
    starting "App" "Add a file" ("It is there" ∷ []) "ida"
    ∷ planning task_id "paula"
    ∷ preparing "/tasks/1" task_id "wim"
    ∷ applying task_id "/changes.json" "carol"
    ∷ testing "/tasks/1" task_id "tom"
    ∷ reviewing task_id "rita" ("seen" ∷ [])
    ∷ approving task_id "ann" "APPROVE DEV-f00df00ddeadbeef" "go"
    ∷ []

abbrev approved_state : State ℕ
approved_state = run toy_host policy registry (empty_state 0) until_approval

abbrev is_ok : Result Task → Bool
is_ok (ok t) = true
is_ok (err e) = false

abbrev returned_or : Result Task → Task → Task
returned_or (ok t) d = t
returned_or (err e) d = d

returned_or-ok : (r : Result Task) (d : Task) → is_ok r ≡ true → r ≡ ok (returned_or r d)
returned_or-ok (ok t) d h = refl
returned_or-ok (err e) d h = cc

publishes :
    is_ok
      (publish toy_host policy "/tasks/1" task_id "bot" "Add a file" "body" none approved_state).0
    ≡ true
unfolding program
publishes = refl

publish-WasReviewed_example : WasReviewed toy_host task_id approved_state
publish-WasReviewed_example =
    publish-WasReviewed toy_host policy "/tasks/1" task_id "bot" "Add a file" "body" none
      approved_state
      (returned_or
        (publish toy_host policy "/tasks/1" task_id "bot" "Add a file" "body" none approved_state).0
        no_task)
      (returned_or-ok _ no_task publishes)

run-AllChained_example :
    AllChained toy_host (run toy_host policy registry (empty_state 0) whole_life).entries
run-AllChained_example = run-AllChained toy_host policy registry (empty_state 0) whole_life tt

abbrev packed_state : State ℕ
packed_state = (build_evidence toy_host "/tasks/1" task_id "bot" approved_state).1

abbrev published_state : State ℕ
published_state =
    (publish toy_host policy "/tasks/1" task_id "bot" "Add a file" "body" none approved_state).1

merges :
    is_ok (verify_merge toy_host policy registry "/tasks/1" task_id "mia" none published_state).0
    ≡ true
unfolding program
merges = refl

verify_merge-WasVerified_example : WasVerified toy_host policy registry task_id none published_state
verify_merge-WasVerified_example =
    verify_merge-WasVerified toy_host policy registry "/tasks/1" task_id "mia" none published_state
      (returned_or
        (verify_merge toy_host policy registry "/tasks/1" task_id "mia" none published_state).0
        no_task)
      (returned_or-ok _ no_task merges)
