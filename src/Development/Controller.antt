-- ===== src/Development/Controller.antt =====
-- DevelopmentController: the steps of a task up to its change set (start, plan, cancel, prepare,
-- apply_changes). A method that reads its task first has a second part that is given the task.
use agentic_engineering_cont.Prelude.{
  ℕ, suc, String, Bool, true, not, ◌&&◌, ◌||◌, Option, none, some, List, [], ◌∷◌, ◌==◌, any, concat,
  join, is_empty, length, strip, lower, is_blank, leb, or_else, if◌then◌else◌,
}
use agentic_engineering_cont.Prelude.Platform.{
  Json, str, arr, obj, Items, nil, cons, get_field, list, value_error, key_error, type_error,
  permission_error, file_exists_error, file_not_found_error, attribute_error,
}
use agentic_engineering_cont.Exec.Convert.{is_truthy}
use agentic_engineering_cont.Exec.{
  Result, ok, err, Exec, pure, raise, lift, gets, modify, guard, ◌>>=◌, ◌>>◌,
}
use agentic_engineering_cont.Workflow.Lifecycle.{stable_id}
use agentic_engineering_cont.Development.Task.{
  TaskState, created, planned, workspace_ready, tests_failed, review_failed, manual_review,
  changes_applied, cancelled, same_state, state_name, Repository, Plan, Task,
}
use agentic_engineering_cont.Development.Host.{Host}
use agentic_engineering_cont.Development.Store.{State, utc_now, load, transition, create}
use agentic_engineering_cont.Development.Paths.{safe_relative}
use agentic_engineering_cont.Development.Workspace.{
  Policy, run_command, diff_metrics, enforce_budget, utf8_size,
}
use agentic_engineering_cont.Development.Registry.{
  get_repository, check_owner, repository_required_checks, classify_risk,
}

abbrev pub unchanged : Task → Task
unchanged task = task

-- Path(task["workspace"])
abbrev pub path_of : Option String → Result String
path_of none = err (type_error "argument should be a str or an os.PathLike object")
path_of (some w) = ok w

abbrev pub workspace_of : Task → Result String
workspace_of task = path_of task.workspace

abbrev items : Items → List Json
items nil = []
items (cons j js) = j ∷ items js

abbrev array_of : Json → Result (List Json)
array_of (arr js) = ok (items js)
array_of j = if is_truthy j then err (type_error "operations") else ok []

abbrev operations_field : Option Json → Result (List Json)
operations_field none = ok []
operations_field (some j) = array_of j

abbrev operations_of : Option Json → Result (List Json)
operations_of none = err (value_error "change set is not JSON")
operations_of (some (obj fs)) = operations_field (get_field "operations" fs)
operations_of (some j) = err (attribute_error "get")

abbrev required : String → Option Json → Result Json
required key none = err (key_error key)
required key (some j) = ok j

-- operation[key]
abbrev member_of : String → Json → Result Json
member_of key (obj fs) = required key (get_field key fs)
member_of key j = err (type_error key)

-- operation.get("content", ""), of an operation that has a member
abbrev content_of : Json → Json
content_of (obj fs) = or_else (get_field "content" fs) (str "")
content_of j = str ""

module _ {W : Type 0} (h : Host W) where
  -- str(value)
  abbrev text_of : Json → String
  text_of (str s) = s
  text_of j = h.str_of j

  unfoldable pub write_file : Policy → String → String → String → Exec (State W) (Unit {0})
  write_file policy target relative content = do
    guard (leb (utf8_size content) policy.max_file_bytes)
        (value_error (concat ("file exceeds size budget: " ∷ relative ∷ [])))
    modify (λ s. record s { world = h.write_bytes target content s.world })

  unfoldable pub delete_file : String → String → Exec (State W) (Unit {0})
  delete_file target relative = do
    present ← gets (λ s. h.is_file target s.world)
    guard present (file_not_found_error (concat ("delete target is not a file: " ∷ relative ∷ [])))
    modify (λ s. record s { world = h.unlink target s.world })

  -- One turn of the loop of apply_changes.
  unfoldable pub apply_operation : Policy → String → Json → Exec (State W) (Unit {0})
  apply_operation policy workspace operation = do
    path ← lift (member_of "path" operation)
    relative ← lift (safe_relative (text_of path))
    let target = concat (workspace ∷ "/" ∷ join "/" relative ∷ [])
    inside ← gets (λ s. h.is_parent workspace target s.world)
    guard inside (permission_error (concat ("change escapes workspace: " ∷ join "/" relative ∷ [])))
    op ← lift (member_of "op" operation)
    if text_of op == "write"
        then write_file policy target (join "/" relative) (text_of (content_of operation))
        else if text_of op == "delete"
        then delete_file target (join "/" relative)
        else raise (value_error (concat ("unsupported change operation: " ∷ text_of op ∷ [])))

  unfoldable pub apply_operations : Policy → String → List Json → Exec (State W) (Unit {0})
  apply_operations policy workspace [] = pure tt
  apply_operations policy workspace (operation ∷ rest) = do
    apply_operation policy workspace operation
    apply_operations policy workspace rest

module _ {W : Type 0} (h : Host W) (policy : Policy) (registry : List Repository) where
  unfoldable pub new_task :
      Repository → List String → String → String → List String → String → ℕ → ℕ → Task
  new_task repository required_checks task_id intent acceptance_criteria actor now later = record {
    task_id = task_id;
    repository = repository;
    intent = strip intent;
    acceptance_criteria = acceptance_criteria;
    risk = classify_risk intent;
    state = created;
    base_branch = repository.default_branch;
    branch = concat ("agentic/" ∷ lower task_id ∷ []);
    required_post_merge_checks = some required_checks;
    source_sha = none;
    workspace = none;
    plan = none;
    coder = none;
    test_runner = none;
    reviewer = none;
    review = none;
    publish_approval = none;
    test_results = [];
    change_metrics = none;
    change_set_sha256 = none;
    repair_attempts = 0;
    evidence_manifest = none;
    pull_request = none;
    merge_verification = none;
    cancellation = none;
    created_by = actor;
    created_at = now;
    updated_at = later;
  }

  unfoldable pub start : String → String → List String → String → Exec (State W) Task
  start repository_name intent acceptance_criteria actor = do
    guard (not (is_blank intent || is_empty acceptance_criteria))
        (value_error "intent and acceptance criteria are required")
    repository ← lift (get_repository registry repository_name)
    lift (check_owner policy repository)
    required_checks ← lift (repository_required_checks policy repository.required_post_merge_checks)
    let task_id =
        stable_id h.platform "DEV" (
          repository.full_name ∷ intent ∷ h.platform.canonical_json (list acceptance_criteria) ∷ [])
    now ← utc_now h
    later ← utc_now h
    create h
        (new_task repository required_checks task_id intent acceptance_criteria actor now later)
        actor

module _ {W : Type 0} (h : Host W) (policy : Policy) where
  pub bounded_plan : String → Plan
  bounded_plan actor = record {
    planner = actor;
    steps =
        "Prepare an immutable source identity and isolated clone."
        ∷ "Route a bounded change set to the coder agent." ∷ "Run the repository test contract."
        ∷ "Require independent diff, secret, budget, and evidence review."
        ∷ "Stop for explicit human publish approval."
        ∷ "Commit, push only the task branch, and create a draft PR."
        ∷ "Verify merge and post-merge checks before closure." ∷ [];
    agents =
        "intent_guard" ∷ "planner" ∷ "workspace_manager" ∷ "coder" ∷ "test_runner"
        ∷ "security_reviewer" ∷ "independent_reviewer" ∷ "human_publish_approver" ∷ "publisher"
        ∷ "post_merge_verifier" ∷ "memory_monitor" ∷ [];
    fallback = "manual_review";
    max_repair_attempts = policy.max_repair_attempts;
  }

  unfoldable pub plan : String → String → Exec (State W) Task
  plan task_id actor = do
    task ← load h task_id
    transition h task planned actor "Intent classified and bounded plan created."
        (λ t. record t { plan = some (bounded_plan actor) })

  unfoldable pub cancel : String → String → String → Exec (State W) Task
  cancel task_id actor reason = do
    task ← load h task_id
    guard (not (is_blank actor || is_blank reason))
        (value_error "cancellation actor and reason are required")
    now ← utc_now h
    transition h task cancelled actor (strip reason) (λ t. record t {
      cancellation =
          some (record {
            cancelled_by = actor;
            cancelled_at = now;
            cancellation_reason = strip reason;
          });
    })

  -- The parent of the resolved workspace, where it exists without a repository, is the task's
  -- directory; it is removed.
  unfoldable pub remove_incomplete : String → String → Exec (State W) (Unit {0})
  remove_incomplete root workspace = do
    complete ← gets (λ s. h.exists (concat (workspace ∷ "/.git" ∷ [])) s.world)
    guard (not complete)
        (file_exists_error (concat ("isolated workspace already exists: " ∷ workspace ∷ [])))
    direct ←
        gets (λ s. h.resolve (concat (workspace ∷ "/.." ∷ [])) s.world == h.resolve root s.world)
    guard direct (permission_error "invalid incomplete workspace path")
    modify (λ s. record s { world = h.remove_tree workspace s.world })

  unfoldable pub clear_workspace : String → String → Exec (State W) (Unit {0})
  clear_workspace root workspace = do
    present ← gets (λ s. h.exists workspace s.world)
    if present then remove_incomplete root workspace else pure tt

  pub source_of : Repository → Result String
  source_of repository =
      if is_blank repository.clone_url
      then err (value_error "repository clone_url is required")
      else ok (strip repository.clone_url)

  -- `root` is the directory of the task.
  unfoldable pub prepare : String → String → String → Exec (State W) Task
  prepare root task_id actor = do
    task ← load h task_id
    lift (check_owner policy task.repository)
    let workspace = concat (root ∷ "/workspace" ∷ [])
    clear_workspace root workspace
    source ← lift (source_of task.repository)
    run_command h
        ("git" ∷ "clone" ∷ "--no-tags" ∷ "--single-branch" ∷ "--branch" ∷ task.base_branch ∷ source
          ∷ workspace ∷ [])
        root true
    head ← run_command h ("git" ∷ "rev-parse" ∷ "HEAD" ∷ []) workspace true
    run_command h ("git" ∷ "checkout" ∷ "-b" ∷ task.branch ∷ []) workspace true
    resolved ← gets (λ s. h.resolve workspace s.world)
    transition h task workspace_ready actor
        "Immutable base captured and isolated task branch created."
        (λ t. record t { workspace = some resolved; source_sha = some (strip head.stdout) })

  pub may_apply : TaskState → Bool
  may_apply state =
      any (same_state state) (workspace_ready ∷ tests_failed ∷ review_failed ∷ manual_review ∷ [])

  -- Nobody is assigned yet, or the actor is.
  pub retains : Option String → String → Bool
  retains none actor = true
  retains (some c) actor = c == "" || c == actor

  -- A task that comes back from the manual review is repaired like one that failed its review.
  pub resumed : Task → Task
  resumed task =
      if same_state task.state manual_review then record task { state = review_failed } else task

  unfoldable pub apply_set : Task → String → String → Exec (State W) Task
  apply_set task change_set_path actor = do
    read ← gets (λ s. h.read_text change_set_path s.world)
    content ← lift read
    operations ← lift (operations_of (h.platform.loads content))
    guard (not (is_empty operations) && leb (length operations) policy.max_changed_files)
        (value_error "change set is empty or exceeds file budget")
    workspace ← lift (workspace_of task)
    apply_operations h policy workspace operations
    metrics ← diff_metrics h workspace
    enforce_budget h policy metrics
    again ← gets (λ s. h.read_text change_set_path s.world)
    bytes ← lift again
    transition h (resumed task) changes_applied actor
        "Coder change set applied inside isolated workspace."
        (λ t. record t {
          coder = some actor;
          repair_attempts = suc task.repair_attempts;
          change_metrics = some metrics;
          change_set_sha256 = some (h.platform.sha256 bytes);
        })

  unfoldable pub apply_changes : String → String → String → Exec (State W) Task
  apply_changes task_id change_set_path actor = do
    task ← load h task_id
    guard (may_apply task.state)
        (value_error (concat ("cannot apply changes from state: " ∷ state_name task.state ∷ [])))
    guard (retains task.coder actor)
        (permission_error "repair attempts must retain the assigned coder")
    if leb policy.max_repair_attempts task.repair_attempts
        then transition h task manual_review actor "Repair budget exhausted." unchanged
        else apply_set task change_set_path actor

-- All that a run computes with here, under one name.
unfoldable pub controller_code : Unit {0}
unfolding write_file delete_file apply_operation apply_operations new_task start bounded_plan plan
    cancel remove_incomplete clear_workspace source_of prepare may_apply retains resumed apply_set
    apply_changes
controller_code = tt
