-- ===== src/Development/Runs.antt =====
-- Whole runs of the development protocol: any methods in any order, each by any actor, with
-- workspaces and a GitHub that may change in between.
use agentic_engineering_cont.Prelude.{String, ◌≡◌, Bool, true, false, Option, some, List, [], ◌∷◌}
use agentic_engineering_cont.Development.Task.{
  TaskState, published, merged_verified, Repository, Task,
}
use agentic_engineering_cont.Development.Host.{Host}
use agentic_engineering_cont.Development.Store.{Entry, State, entry_of}
use agentic_engineering_cont.Development.Workspace.{Policy}
use agentic_engineering_cont.Development.Controller.{start, plan, cancel, prepare, apply_changes}
use agentic_engineering_cont.Development.Gates.{
  test, review, approve_publish, publish, verify_merge,
}
use agentic_engineering_cont.Development.Evidence.{build_evidence}
use agentic_engineering_cont.Development.Duties.{Released, Duties, TaskSafe, TasksSafe}
use agentic_engineering_cont.Development.Saving.{found-safe}
use agentic_engineering_cont.Development.Steps.{
  Guarded-start, Guarded-plan, Guarded-cancel, Guarded-prepare, Guarded-apply_changes, Guarded-test,
  Guarded-review, Guarded-approve_publish, Guarded-publish, Guarded-verify_merge, Guarded-evidence,
}
use agentic_engineering_cont.Development.Chained.{AllChained}
use agentic_engineering_cont.Development.Chained.Methods.{
  Logged-start, Logged-plan, Logged-cancel, Logged-prepare, Logged-apply_changes, Logged-test,
  Logged-review, Logged-approve_publish, Logged-publish, Logged-verify_merge, Logged-evidence,
}

-- A call of a method of DevelopmentController, or a change of the world from outside.
pub data Operation (W : Type 0) : Type 0 where
  starting : (name intent : String) (criteria : List String) (actor : String) → Operation W
  planning : (id actor : String) → Operation W
  cancelling : (id actor reason : String) → Operation W
  preparing : (root id actor : String) → Operation W
  applying : (id change_set_path actor : String) → Operation W
  testing : (root id actor : String) → Operation W
  reviewing : (id actor : String) (evidence : List String) → Operation W
  approving : (id actor confirmation comment : String) → Operation W
  publishing : (root id actor title body : String) (token : Option String) → Operation W
  verifying : (root id actor : String) (token : Option String) → Operation W
  packaging : (root id actor : String) → Operation W
  changing_world : W → Operation W

abbrev pub empty_state : {W : Type 0} → W → State W
empty_state w = record {
  entries = [];
  packages = [];
  folders = [];
  registry = record { base = []; has_overlay_path = true; overlay = []; repositories = [] };
  readings = 0;
  world = w;
}

module _ {W : Type 0} (h : Host W) (policy : Policy) (registry : List Repository) where
  -- The state after a call, whether it returned or raised.
  pub perform : State W → Operation W → State W
  perform s (starting name intent criteria actor) =
      (start h policy registry name intent criteria actor s).1
  perform s (planning id actor) = (plan h policy id actor s).1
  perform s (cancelling id actor reason) = (cancel h policy id actor reason s).1
  perform s (preparing root id actor) = (prepare h policy root id actor s).1
  perform s (applying id path actor) = (apply_changes h policy id path actor s).1
  perform s (testing root id actor) = (test h policy root id actor s).1
  perform s (reviewing id actor evidence) = (review h policy id actor evidence s).1
  perform s (approving id actor confirmation comment) =
      (approve_publish h policy id actor confirmation comment s).1
  perform s (publishing root id actor title body token) =
      (publish h policy root id actor title body token s).1
  perform s (verifying root id actor token) =
      (verify_merge h policy registry root id actor token s).1
  perform s (packaging root id actor) = (build_evidence h root id actor s).1
  perform s (changing_world w) = record s { world = w }

  pub run : State W → List (Operation W) → State W
  unfolding perform
  run s [] = s
  run s (o ∷ os) = run (perform s o) os

  perform-safe :
      (s : State W) (o : Operation W)
      → TasksSafe policy.max_repair_attempts s.entries
      → TasksSafe policy.max_repair_attempts (perform s o).entries
  unfolding perform
  perform-safe s (starting name intent criteria actor) k =
      (Guarded-start h policy registry name intent criteria actor).at s k
  perform-safe s (planning id actor) k = (Guarded-plan h policy id actor).at s k
  perform-safe s (cancelling id actor reason) k = (Guarded-cancel h policy id actor reason).at s k
  perform-safe s (preparing root id actor) k = (Guarded-prepare h policy root id actor).at s k
  perform-safe s (applying id path actor) k = (Guarded-apply_changes h policy id path actor).at s k
  perform-safe s (testing root id actor) k = (Guarded-test h policy root id actor).at s k
  perform-safe s (reviewing id actor evidence) k =
      (Guarded-review h policy id actor evidence).at s k
  perform-safe s (approving id actor confirmation comment) k =
      (Guarded-approve_publish h policy id actor confirmation comment).at s k
  perform-safe s (publishing root id actor title body token) k =
      (Guarded-publish h policy root id actor title body token).at s k
  perform-safe s (verifying root id actor token) k =
      (Guarded-verify_merge h policy registry root id actor token).at s k
  perform-safe s (packaging root id actor) k = (Guarded-evidence h policy root id actor).at s k
  perform-safe s (changing_world w) k = k

  run-safe :
      (s : State W) (os : List (Operation W))
      → TasksSafe policy.max_repair_attempts s.entries
      → TasksSafe policy.max_repair_attempts (run s os).entries
  unfolding run
  run-safe s [] k = k
  run-safe s (o ∷ os) k = run-safe (perform s o) os (perform-safe s o k)

  task_of-safe :
      (w : W) (os : List (Operation W)) (id : String) (e : Entry)
      → entry_of id (run (empty_state w) os).entries ≡ some e
      → TaskSafe policy.max_repair_attempts e.task
  task_of-safe w os id e found =
      found-safe policy.max_repair_attempts _ (run (empty_state w) os).entries e
        (run-safe (empty_state w) os tt) found

  perform-AllChained :
      (s : State W) (o : Operation W) → AllChained h s.entries → AllChained h (perform s o).entries
  unfolding perform
  perform-AllChained s (starting name intent criteria actor) k =
      (Logged-start h policy registry name intent criteria actor).at s k
  perform-AllChained s (planning id actor) k = (Logged-plan h policy id actor).at s k
  perform-AllChained s (cancelling id actor reason) k =
      (Logged-cancel h policy id actor reason).at s k
  perform-AllChained s (preparing root id actor) k = (Logged-prepare h policy root id actor).at s k
  perform-AllChained s (applying id path actor) k =
      (Logged-apply_changes h policy id path actor).at s k
  perform-AllChained s (testing root id actor) k = (Logged-test h policy root id actor).at s k
  perform-AllChained s (reviewing id actor evidence) k =
      (Logged-review h policy id actor evidence).at s k
  perform-AllChained s (approving id actor confirmation comment) k =
      (Logged-approve_publish h policy id actor confirmation comment).at s k
  perform-AllChained s (publishing root id actor title body token) k =
      (Logged-publish h policy root id actor title body token).at s k
  perform-AllChained s (verifying root id actor token) k =
      (Logged-verify_merge h policy registry root id actor token).at s k
  perform-AllChained s (packaging root id actor) k = (Logged-evidence h policy root id actor).at s k
  perform-AllChained s (changing_world w) k = k

  -- From a state in which the log of each task passes verify_events, any methods in any order, each
  -- called by any actor, with any changes of the world in between, lead to such a state, also
  -- through methods that raise.
  pub run-AllChained :
      (s : State W) (os : List (Operation W))
      → AllChained h s.entries
      → AllChained h (run s os).entries
  unfolding run
  run-AllChained s [] k = k
  run-AllChained s (o ∷ os) k = run-AllChained (perform s o) os (perform-AllChained s o k)

abbrev pub is_released : TaskState → Bool
is_released published = true
is_released merged_verified = true
is_released _ = false

Released-Duties : (s : TaskState) (t : Task) → is_released s ≡ true → Duties s t → Released t
Released-Duties published t h d = d
Released-Duties merged_verified t h d = d
Released-Duties _ t h d = cc

-- From an empty store, after any methods in any order, each called by any actor, with any changes
-- of the world in between: a task that is published or merged_verified has a coder, a test runner,
-- a reviewer and a publish approver, who are four different people, and its review has passed with
-- no failure.
pub published-separates_duties :
    {W : Type 0} (h : Host W) (policy : Policy) (registry : List Repository) (w : W)
    (os : List (Operation W)) (id : String) (e : Entry)
    → entry_of id (run h policy registry (empty_state w) os).entries ≡ some e
    → is_released e.task.state ≡ true
    → Released e.task
published-separates_duties h policy registry w os id e found is =
    Released-Duties e.task.state e.task is (task_of-safe h policy registry w os id e found).duties

-- All that a run computes with here, under one name.
unfoldable pub runs_code : Unit {0}
unfolding perform run
runs_code = tt
