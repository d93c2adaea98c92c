-- ===== src/Development/Gates.antt =====
-- DevelopmentController: the gates that a change set passes (test, review, approve_publish), and
-- what follows them (publish, verify_merge).
use agentic_engineering_cont.Prelude.{
  String, Bool, true, false, not, ◌&&◌, ◌||◌, Option, none, some, List, [], ◌∷◌, ◌++◌, ◌==◌, any,
  keep, map, concat, join, is_empty, length, strip, is_blank, eqb, if◌then◌else◌,
}
use agentic_engineering_cont.Prelude.Platform.{
  value_error, type_error, permission_error, runtime_error,
}
use agentic_engineering_cont.Exec.{Result, ok, err, Exec, pure, lift, guard, ◌>>=◌, ◌>>◌}
use agentic_engineering_cont.Development.Task.{
  changes_applied, tests_passed, tests_failed, review_passed, review_failed,
  awaiting_publish_approval, publish_approved, published, merged_verified, manual_review,
  same_state, state_name, Repository, TestResult, Metrics, Review, PullRequest, Task,
}
use agentic_engineering_cont.Development.Host.{Host, CheckRun}
use agentic_engineering_cont.Development.Store.{State, utc_now, load, transition}
use agentic_engineering_cont.Development.Workspace.{
  Policy, is_zero, split_lines, run_command, untracked_files, read_file, diff_metrics,
  enforce_budget, binary_diff, change_digest, run_tests, in_world, first_word,
}
use agentic_engineering_cont.Development.Registry.{
  get_repository, repository_required_checks, has_prefix,
}
use agentic_engineering_cont.Development.Controller.{unchanged, workspace_of}
use agentic_engineering_cont.Development.Evidence.{build_evidence}

-- actor == value, where the value may be None
abbrev pub is_actor : Option String → String → Bool
is_actor none actor = false
is_actor (some a) actor = a == actor

drop_char : String → String
drop_char String.[] = ""
drop_char (String.◌∷◌ c s) = s

-- The loop of added_diff_content, with `inside_hunk`.
added_lines : Bool → List String → List String
unfolding drop_char
added_lines inside_hunk [] = []
added_lines inside_hunk (line ∷ lines) =
    let outside = added_lines false lines in
    let inside = added_lines true lines in
    if has_prefix "diff --git " line
    then outside
    else if has_prefix "@@" line
    then inside
    else if inside_hunk
    then (if has_prefix "+" line then drop_char line ∷ inside else inside)
    else outside

pub added_diff_content : String → String
unfolding added_lines
added_diff_content diff = join "\n" (added_lines false (split_lines diff))

-- The failures of a review, in the order of the code.
pub review_failures : (String → Bool) → Task → Metrics → String → List String → List String
review_failures finds_secret task metrics content acceptance_evidence =
    (if is_empty metrics.changed_files then "no_changes" ∷ [] else [])
    ++ ((if finds_secret content then "potential_secret_detected" ∷ [] else [])
        ++ ((if is_empty task.test_results || any (λ r. not (is_zero r.exit_code)) task.test_results
              then "tests_not_verified" ∷ []
              else [])
            ++ ((if eqb (length acceptance_evidence) (length task.acceptance_criteria)
                  then []
                  else "acceptance_criteria_not_fully_verified" ∷ [])
                ++ (if any is_blank acceptance_evidence
                    then "acceptance_evidence_empty" ∷ []
                    else []))))

abbrev pub digest_of : Option Review → Result String
digest_of none = err (type_error "'NoneType' object is not subscriptable")
digest_of (some r) = ok r.change_sha256

abbrev pub is_text : Option String → String → Bool
is_text none s = false
is_text (some t) s = t == s

-- token or os.environ.get("GITHUB_TOKEN"), which must not be empty
abbrev filled : Option String → String
filled none = ""
filled (some t) = t

pub chosen_token : Option String → Option String → String
chosen_token token environment = if filled token == "" then filled environment else filled token

abbrev pub pull_of : Option PullRequest → Result PullRequest
pull_of none = err (value_error "task has no pull request")
pull_of (some pr) = ok pr

abbrev merged_at_of : Option String → Result String
merged_at_of none = err (runtime_error "pull request is not merged")
merged_at_of (some t) = if t == "" then err (runtime_error "pull request is not merged") else ok t

-- The names of the required checks that no run has, and those of the runs that did not succeed.
unfoldable pub missing_checks : List String → List CheckRun → List String
missing_checks required runs = keep (λ name. not (any (λ c. c.name == name) runs)) required

abbrev pub is_success : CheckRun → Bool
is_success c = c.status == "completed" && c.conclusion == "success"

unfoldable pub incomplete_checks : List CheckRun → List String
incomplete_checks runs = map (λ c. c.name) (keep (λ c. not (is_success c)) runs)

module _ {W : Type 0} (h : Host W) (policy : Policy) where
  unfoldable pub after_tests : Task → String → Bool × List TestResult → Exec (State W) Task
  after_tests task actor (passed, results) =
      transition h task (if passed then tests_passed else tests_failed) actor
        (if passed then "Repository test contract passed." else "Test contract failed.")
        (λ t. record t { test_runner = some actor; test_results = results })

  unfoldable pub run_contract : String → Task → String → Exec (State W) Task
  run_contract root task actor = do
    workspace ← lift (workspace_of task)
    outcome ←
        run_tests h policy task.repository.test_commands workspace
          (concat (root ∷ "/container-output" ∷ []))
    after_tests task actor outcome

  -- `root` is the directory of the task.
  unfoldable pub test : String → String → String → Exec (State W) Task
  test root task_id actor = do
    task ← load h task_id
    guard (same_state task.state changes_applied)
        (value_error (concat ("cannot test from state: " ∷ state_name task.state ∷ [])))
    guard (not (is_actor task.coder actor))
        (permission_error "coder cannot act as the independent test runner")
    if is_empty task.repository.test_commands
        then transition h task manual_review actor
            "No test contract is registered for this repository." unchanged
        else run_contract root task actor

  unfoldable pub read_all : String → List String → Exec (State W) String
  read_all workspace [] = pure ""
  read_all workspace (relative ∷ rest) = do
    content ← read_file h workspace relative
    others ← read_all workspace rest
    pure (concat (content ∷ others ∷ []))

  unfoldable pub offer : Task → Bool → String → Exec (State W) Task
  offer task passed actor =
      if passed
      then transition h task awaiting_publish_approval actor
          "All automated and independent gates passed." unchanged
      else pure task

  unfoldable pub conclude :
      Task → String → List String → Metrics → List String → String → Exec (State W) Task
  conclude task actor acceptance_evidence metrics failures digest = do
    reviewed ←
        transition h task (if is_empty failures then review_passed else review_failed) actor
          (if is_empty failures then "Independent review passed." else "Independent review failed.")
          (λ t. record t {
            reviewer = some actor;
            review = some (record {
              passed = is_empty failures;
              failures = failures;
              acceptance_evidence = acceptance_evidence;
              change_sha256 = digest;
            });
            change_metrics = some metrics;
          })
    offer reviewed (is_empty failures) actor

  unfoldable pub review : String → String → List String → Exec (State W) Task
  review task_id actor acceptance_evidence = do
    task ← load h task_id
    guard (same_state task.state tests_passed)
        (value_error (concat ("cannot review from state: " ∷ state_name task.state ∷ [])))
    guard (not (is_actor task.coder actor || is_actor task.test_runner actor))
        (permission_error "reviewer must be independent from coder and test runner")
    workspace ← lift (workspace_of task)
    metrics ← diff_metrics h workspace
    enforce_budget h policy metrics
    diff ← binary_diff h workspace
    untracked ← untracked_files h workspace
    untracked_content ← read_all workspace untracked
    digest ← change_digest h workspace
    conclude task actor acceptance_evidence metrics
        (review_failures h.finds_secret task metrics
          (concat (added_diff_content diff ∷ untracked_content ∷ [])) acceptance_evidence)
        digest

  unfoldable pub approve_publish : String → String → String → String → Exec (State W) Task
  approve_publish task_id actor confirmation comment = do
    task ← load h task_id
    guard
        (not (
          is_actor task.coder actor
          || is_actor task.test_runner actor
          || is_actor task.reviewer actor))
        (permission_error "publish approver must be independent")
    guard (confirmation == concat ("APPROVE " ∷ task_id ∷ []))
        (permission_error (concat ("confirmation must exactly equal: APPROVE " ∷ task_id ∷ [])))
    now ← utc_now h
    transition h task publish_approved actor
        "Human approved task-branch push and draft PR creation."
        (λ t. record t {
          publish_approval = some (record {
            actor = actor;
            comment = comment;
            confirmation = confirmation;
            approved_at = now;
          });
        })

  unfoldable pub commit_all : String → String → Exec (State W) (Unit {0})
  commit_all workspace title = do
    run_command h ("git" ∷ "add" ∷ "--all" ∷ []) workspace true
    run_command h
        ("git" ∷ "-c" ∷ "user.name=Agentic Engineering" ∷ "-c"
          ∷ "user.email=agentic-engineering@users.noreply.github.com" ∷ "commit" ∷ "-m" ∷ title
          ∷ [])
        workspace true
    pure tt

  -- Pushes the commit that stands for the reviewed change set; the head that was pushed.
  unfoldable pub push : Task → String → String → Exec (State W) String
  push task workspace title = do
    remote ←
        run_command h
          ("git" ∷ "ls-remote" ∷ "origin" ∷ concat ("refs/heads/" ∷ task.base_branch ∷ []) ∷ [])
          workspace true
    guard (is_text task.source_sha (first_word remote.stdout) && not (is_blank remote.stdout))
        (permission_error "base branch moved after workspace preparation; replan")
    status ← run_command h ("git" ∷ "status" ∷ "--porcelain" ∷ []) workspace true
    if is_blank status.stdout then pure tt else commit_all workspace title
    head ← run_command h ("git" ∷ "rev-parse" ∷ "HEAD" ∷ []) workspace true
    guard (not (is_text task.source_sha (strip head.stdout))) (value_error "nothing to publish")
    run_command h ("git" ∷ "push" ∷ "--set-upstream" ∷ "origin" ∷ task.branch ∷ []) workspace true
    pure (strip head.stdout)

  -- `root` is the directory of the task.
  unfoldable pub publish :
      String → String → String → String → String → Option String → Exec (State W) Task
  publish root task_id actor title body token = do
    task ← load h task_id
    guard (same_state task.state publish_approved)
        (permission_error "publish requires an approved publish gate")
    workspace ← lift (workspace_of task)
    let github_token = chosen_token token h.github_token
    guard (not (github_token == ""))
        (permission_error "GITHUB_TOKEN is required before commit, push, or draft PR creation")
    digest ← change_digest h workspace
    reviewed ← lift (digest_of task.review)
    guard (digest == reviewed) (permission_error "workspace changed after independent review")
    head_sha ← push task workspace title
    answer ← in_world h (
        h.create_pull task.repository.full_name github_token title body task.branch
          task.base_branch)
    pr ← lift answer
    transition h task published actor "Approved task branch pushed and draft PR created." (λ t.
        record t {
          pull_request = some (record {
            number = pr.number;
            url = pr.html_url;
            draft = pr.draft;
            head_sha = head_sha;
          });
        })
    build_evidence h root task_id actor

module _ {W : Type 0} (h : Host W) (policy : Policy) (registry : List Repository) where
  -- _task_required_checks
  pub task_required_checks : Task → Result (List String)
  task_required_checks task = elim task.required_post_merge_checks [
    | some names ↦ repository_required_checks policy (some names)
    | none ↦ elim (get_repository registry task.repository.name) [
      | ok repository ↦ repository_required_checks policy repository.required_post_merge_checks
      | err e ↦ err e
    ]
  ]

  -- `root` is the directory of the task.
  unfoldable pub verify_merge : String → String → String → Option String → Exec (State W) Task
  verify_merge root task_id actor token = do
    task ← load h task_id
    guard (same_state task.state published)
        (value_error (concat ("cannot verify merge from state: " ∷ state_name task.state ∷ [])))
    pull ← lift (pull_of task.pull_request)
    let github_token = chosen_token token h.github_token
    guard (not (github_token == ""))
        (permission_error "GITHUB_TOKEN is required for merge verification")
    answer ← in_world h (h.get_pull task.repository.full_name pull.number github_token)
    pr ← lift answer
    merged_at ← lift (merged_at_of pr.merged_at)
    guard (not (pull.head_sha == "") && is_text pr.head_sha pull.head_sha)
        (permission_error "merged pull-request head does not match the reviewed published head")
    checks ←
        in_world h (h.get_check_runs task.repository.full_name pr.merge_commit_sha github_token)
    check_runs ← lift checks
    required_checks ← lift (task_required_checks task)
    guard (is_empty (missing_checks required_checks check_runs)) (
        runtime_error (
          concat (
            "required post-merge checks are missing: "
            ∷ join ", " (missing_checks required_checks check_runs)
            ∷ [])))
    guard (is_empty (incomplete_checks check_runs)) (
        runtime_error (
          concat (
            "post-merge checks are not successful: "
            ∷ join ", " (incomplete_checks check_runs)
            ∷ [])))
    transition h task merged_verified actor "GitHub merge and post-merge checks verified." (λ t.
        record t {
          merge_verification = some (record {
            merge_sha = pr.merge_commit_sha;
            merged_at = merged_at;
            check_runs = length check_runs;
            required_checks = required_checks;
          });
        })
    build_evidence h root task_id actor

-- All that a run computes with here, under one name.
unfoldable pub gates_code : Unit {0}
unfolding drop_char added_lines added_diff_content review_failures chosen_token missing_checks
    incomplete_checks after_tests run_contract test read_all offer conclude review approve_publish
    commit_all push publish task_required_checks verify_merge
gates_code = tt
