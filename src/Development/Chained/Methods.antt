-- ===== src/Development/Chained/Methods.antt =====
-- The methods of DevelopmentController keep the hash chain of each task's event log.
use agentic_engineering_cont.Prelude.{String, Bool, Option, List}
use agentic_engineering_cont.Exec.{Exec}
use agentic_engineering_cont.Development.Task.{Task, Metrics, TestResult, Repository}
use agentic_engineering_cont.Development.Host.{Host}
use agentic_engineering_cont.Development.Store.{State}
use agentic_engineering_cont.Development.Workspace.{Policy}
use agentic_engineering_cont.Development.Controller.{
  start, plan, cancel, prepare, apply_changes, apply_set,
}
use agentic_engineering_cont.Development.Gates.{
  test, run_contract, after_tests, review, conclude, offer, approve_publish, publish, verify_merge,
}
use agentic_engineering_cont.Development.Evidence.{build_evidence}
use agentic_engineering_cont.Development.Steady.{
  Steady, Steady-run_command, Steady-untracked, Steady-diff_metrics, Steady-budget,
  Steady-binary_diff, Steady-change_digest, Steady-run_tests, Steady-apply_operations,
  Steady-clear_workspace, Steady-read_all, Steady-push, Steady-write_files,
}
use agentic_engineering_cont.Development.Chained.{AllChained, logged_store}

module _ {W : Type 0} (h : Host W) (policy : Policy) where
  abbrev pub Logged : {A : Type 0} → Exec (State W) A → Type 0
  Logged m = Steady h (λ es _. AllChained h es) m

  pub Logged-plan : (id actor : String) → Logged (plan h policy id actor)
  unfolding plan
  Logged-plan id actor = search logged_store depth 8

  pub Logged-cancel : (id actor reason : String) → Logged (cancel h policy id actor reason)
  unfolding cancel
  Logged-cancel id actor reason = search logged_store depth 8

  pub Logged-prepare : (root id actor : String) → Logged (prepare h policy root id actor)
  unfolding prepare
  Logged-prepare root id actor =
      search (logged_store, Steady-clear_workspace, Steady-run_command) depth 20

  Logged-apply_set :
      (task : Task) (path actor : String) → Logged (apply_set h policy task path actor)
  unfolding apply_set
  Logged-apply_set task path actor =
      search (logged_store, Steady-apply_operations, Steady-diff_metrics, Steady-budget) depth 20

  pub Logged-apply_changes :
      (id path actor : String) → Logged (apply_changes h policy id path actor)
  unfolding apply_changes
  Logged-apply_changes id path actor = search (logged_store, Logged-apply_set) depth 10

  Logged-after_tests :
      (task : Task) (actor : String) (outcome : Bool × List TestResult)
      → Logged (after_tests h policy task actor outcome)
  unfolding after_tests
  Logged-after_tests task actor (passed, results) = search logged_store

  pub Logged-test : (root id actor : String) → Logged (test h policy root id actor)
  unfolding test run_contract
  Logged-test root id actor = search (logged_store, Steady-run_tests, Logged-after_tests) depth 14

  Logged-conclude :
      (task : Task) (actor : String) (evidence : List String) (metrics : Metrics)
      (failures : List String) (digest : String)
      → Logged (conclude h policy task actor evidence metrics failures digest)
  unfolding conclude offer
  Logged-conclude task actor evidence metrics failures digest = search logged_store depth 8

  pub Logged-review :
      (id actor : String) (evidence : List String) → Logged (review h policy id actor evidence)
  unfolding review
  Logged-review id actor evidence =
      search
        (
          logged_store, Steady-diff_metrics, Steady-budget, Steady-binary_diff, Steady-untracked,
          Steady-read_all, Steady-change_digest, Logged-conclude,
        )
        depth 24

  pub Logged-approve_publish :
      (id actor confirmation comment : String)
      → Logged (approve_publish h policy id actor confirmation comment)
  unfolding approve_publish
  Logged-approve_publish id actor confirmation comment = search logged_store depth 12

  pub Logged-evidence : (root id actor : String) → Logged (build_evidence h root id actor)
  unfolding build_evidence
  Logged-evidence root id actor = search (logged_store, Steady-write_files) depth 30

  pub Logged-publish :
      (root id actor title body : String) (token : Option String)
      → Logged (publish h policy root id actor title body token)
  unfolding publish
  Logged-publish root id actor title body token =
      search (logged_store, Steady-change_digest, Steady-push, Logged-evidence) depth 26

  pub Logged-verify_merge :
      (registry : List Repository) (root id actor : String) (token : Option String)
      → Logged (verify_merge h policy registry root id actor token)
  unfolding verify_merge
  Logged-verify_merge registry root id actor token = search (logged_store, Logged-evidence) depth 30

  pub Logged-start :
      (registry : List Repository) (name intent : String) (criteria : List String) (actor : String)
      → Logged (start h policy registry name intent criteria actor)
  unfolding start
  Logged-start registry name intent criteria actor = search logged_store depth 14
