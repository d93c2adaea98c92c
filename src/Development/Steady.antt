-- ===== src/Development/Steady.antt =====
-- What happens in the workspace, at GitHub and in the evidence packages leaves the tasks alone.
use agentic_engineering_cont.Prelude.{String, Bool, List, [], ◌∷◌, if◌then◌else◌}
use agentic_engineering_cont.Prelude.Platform.{Json, Error}
use agentic_engineering_cont.Exec.{Result, Exec, pure, raise, lift, gets, modify, guard, ◌>>=◌}
use agentic_engineering_cont.Exec.Keeps.{
  Keeps, Any, Keeps-bind, Keeps-pure, Keeps-raise, Keeps-gets, Keeps-lift, Keeps-modify,
  Keeps-guard, Keeps-if, Keeps-weaken,
}
use agentic_engineering_cont.Development.Task.{Task, Metrics}
use agentic_engineering_cont.Development.Host.{Host}
use agentic_engineering_cont.Development.Evidence.{write_package, write_files}
use agentic_engineering_cont.Development.Onboarding.Record.{Folder}
use agentic_engineering_cont.Development.Store.{Event, Package, Entry, State, utc_now}
use agentic_engineering_cont.Development.Workspace.{
  Policy, Tally, in_world, run_command, untracked_files, read_file, read_bytes, tally_untracked,
  diff_metrics, enforce_budget, binary_diff, digest_untracked, change_digest, in_docker,
  execute_test_command, run_tests,
}
use agentic_engineering_cont.Development.Controller.{
  write_file, delete_file, apply_operation, apply_operations, remove_incomplete, clear_workspace,
}
use agentic_engineering_cont.Development.Gates.{read_all, commit_all, push}

module _ {W : Type 0} (h : Host W) (F : List Entry → List Folder → Type 0) where
  -- `m` keeps what `F` says of the task directories.
  abbrev pub Steady : {A : Type 0} → Exec (State W) A → Type 0
  Steady m = Keeps (λ s. F s.entries s.folders) m Any

  pub Steady-bind :
      {A B : Type 0} (m : Exec (State W) A) (f : A → Exec (State W) B)
      → Steady m
      → ((a : A) → Steady (f a))
      → Steady (m >>= f)
  Steady-bind m f km kf = Keeps-bind m f km λ a q. kf a

  pub Steady-pure : {A : Type 0} (a : A) → Steady (pure a)
  Steady-pure a = Keeps-pure a tt

  pub Steady-raise : {A : Type 0} (e : Error) → Steady (raise {A = A} e)
  Steady-raise e = Keeps-raise e

  pub Steady-lift : {A : Type 0} (r : Result A) → Steady (lift r)
  Steady-lift r = Keeps-lift r λ a e. tt

  pub Steady-gets : {A : Type 0} (f : State W → A) → Steady (gets f)
  Steady-gets f = Keeps-gets f λ s k. tt

  pub Steady-guard : (b : Bool) (e : Error) → Steady (guard b e)
  Steady-guard b e = Keeps-weaken (guard b e) (Keeps-guard b e) λ a k. tt

  pub Steady-if :
      {A : Type 0} (b : Bool) (m n : Exec (State W) A)
      → Steady m
      → Steady n
      → Steady (if b then m else n)
  Steady-if b m n km kn = Keeps-if b m n (λ _. km) (λ _. kn)

  pub Steady-world : (f : W → W) → Steady (modify (λ s. record s { world = f s.world }))
  Steady-world f = Keeps-modify _ λ s k. k

  pub Steady-in_world : {A : Type 0} (f : W → A × W) → Steady (in_world h f)
  unfolding in_world
  Steady-in_world f = record { at = λ s k. k; gives = λ s k a e. tt }

  pub Steady-utc_now : Steady (utc_now h)
  unfolding utc_now
  Steady-utc_now = record { at = λ s k. k; gives = λ s k a e. tt }

pub ruleset steady_rules = (
  Steady-bind, Steady-pure, Steady-raise, Steady-lift, Steady-gets, Steady-guard, Steady-if,
  Steady-world, Steady-in_world, Steady-utc_now,
)

module _ {W : Type 0} (h : Host W) (F : List Entry → List Folder → Type 0) where
  pub Steady-run_command :
      (argv : List String) (cwd : String) (check : Bool) → Steady h F (run_command h argv cwd check)
  unfolding run_command
  Steady-run_command argv cwd check = search steady_rules depth 10

  pub Steady-untracked : (workspace : String) → Steady h F (untracked_files h workspace)
  unfolding untracked_files
  Steady-untracked workspace = search (steady_rules, Steady-run_command)

  pub Steady-read_file : (workspace relative : String) → Steady h F (read_file h workspace relative)
  unfolding read_file
  Steady-read_file workspace relative = search steady_rules

  pub Steady-read_bytes :
      (workspace relative : String) → Steady h F (read_bytes h workspace relative)
  unfolding read_bytes
  Steady-read_bytes workspace relative = search steady_rules

  pub Steady-tally :
      (workspace : String) (files : List String) (t : Tally)
      → Steady h F (tally_untracked h workspace files t)
  unfolding tally_untracked
  Steady-tally workspace [] t = search steady_rules
  Steady-tally workspace (f ∷ files) t =
      Steady-bind h F _ _ (Steady-read_file workspace f) λ content. Steady-tally workspace files _

  pub Steady-diff_metrics : (workspace : String) → Steady h F (diff_metrics h workspace)
  unfolding diff_metrics
  Steady-diff_metrics workspace =
      search (steady_rules, Steady-run_command, Steady-untracked, Steady-tally) depth 10

  pub Steady-budget :
      (policy : Policy) (metrics : Metrics) → Steady h F (enforce_budget h policy metrics)
  unfolding enforce_budget
  Steady-budget policy metrics = search steady_rules

  pub Steady-binary_diff : (workspace : String) → Steady h F (binary_diff h workspace)
  unfolding binary_diff
  Steady-binary_diff workspace = search (steady_rules, Steady-run_command)

  pub Steady-digest_untracked :
      (workspace : String) (files : List String) (material : String)
      → Steady h F (digest_untracked h workspace files material)
  unfolding digest_untracked
  Steady-digest_untracked workspace [] material = search steady_rules
  Steady-digest_untracked workspace (f ∷ files) material =
      Steady-bind h F _ _ (Steady-read_bytes workspace f)
        λ content. Steady-digest_untracked workspace files _

  pub Steady-change_digest : (workspace : String) → Steady h F (change_digest h workspace)
  unfolding change_digest
  Steady-change_digest workspace =
      search (steady_rules, Steady-binary_diff, Steady-untracked, Steady-digest_untracked) depth 10

  pub Steady-test_command :
      (policy : Policy) (argv : List String) (workspace output_dir : String)
      → Steady h F (execute_test_command h policy argv workspace output_dir)
  unfolding execute_test_command in_docker
  Steady-test_command policy argv workspace output_dir =
      search (steady_rules, Steady-run_command) depth 10

  pub Steady-run_tests :
      (policy : Policy) (commands : List (List String)) (workspace output_dir : String)
      → Steady h F (run_tests h policy commands workspace output_dir)
  unfolding run_tests
  Steady-run_tests policy [] workspace output_dir = search steady_rules
  Steady-run_tests policy (argv ∷ rest) workspace output_dir =
      Steady-bind h F _ _ (Steady-test_command policy argv workspace output_dir) λ result.
        Steady-if h F _ _ _
          (Steady-bind h F _ _ (Steady-run_tests policy rest workspace output_dir)
            λ (passed, results). Steady-pure h F _)
          (Steady-pure h F _)

  pub Steady-apply_operation :
      (policy : Policy) (workspace : String) (operation : Json)
      → Steady h F (apply_operation h policy workspace operation)
  unfolding apply_operation write_file delete_file ◌>>=◌
  Steady-apply_operation policy workspace operation = search steady_rules depth 20

  pub Steady-apply_operations :
      (policy : Policy) (workspace : String) (operations : List Json)
      → Steady h F (apply_operations h policy workspace operations)
  unfolding apply_operations
  Steady-apply_operations policy workspace [] = search steady_rules
  Steady-apply_operations policy workspace (operation ∷ rest) =
      Steady-bind h F _ _ (Steady-apply_operation policy workspace operation)
        λ _. Steady-apply_operations policy workspace rest

  pub Steady-clear_workspace :
      (policy : Policy) (root workspace : String)
      → Steady h F (clear_workspace h policy root workspace)
  unfolding clear_workspace remove_incomplete ◌>>=◌
  Steady-clear_workspace policy root workspace = search steady_rules depth 14

  pub Steady-read_all :
      (policy : Policy) (workspace : String) (files : List String)
      → Steady h F (read_all h policy workspace files)
  unfolding read_all
  Steady-read_all policy workspace [] = search steady_rules
  Steady-read_all policy workspace (f ∷ files) =
      Steady-bind h F _ _ (Steady-read_file workspace f) λ content.
        Steady-bind h F _ _ (Steady-read_all policy workspace files) λ others. Steady-pure h F _

  pub Steady-commit_all :
      (policy : Policy) (workspace title : String)
      → Steady h F (commit_all h policy workspace title)
  unfolding commit_all
  Steady-commit_all policy workspace title = search (steady_rules, Steady-run_command)

  pub Steady-push :
      (policy : Policy) (task : Task) (workspace title : String)
      → Steady h F (push h policy task workspace title)
  unfolding push
  Steady-push policy task workspace title =
      search (steady_rules, Steady-run_command, Steady-commit_all) depth 20

  pub Steady-package : (k : Package) → Steady h F (modify (write_package h k))
  unfolding write_package
  Steady-package k = Keeps-modify _ λ s l. l

  pub Steady-write_files :
      (task_id evidence_id : String) (task : Task) (log : List Event)
      → Steady h F (write_files h task_id evidence_id task log)
  unfolding write_files
  Steady-write_files task_id evidence_id task log = search (steady_rules, Steady-package) depth 30
