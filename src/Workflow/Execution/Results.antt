-- ===== src/Workflow/Execution/Results.antt =====
-- What the executor returns, and that it writes no table.
use agentic_engineering_cont.Prelude.{ℕ, String, ◌≡◌, refl}
use agentic_engineering_cont.Prelude.Platform.{Platform}
use agentic_engineering_cont.Exec.Keeps.{
  Keeps, Any, Keeps-bind, Keeps-gets, Keeps-lift, Keeps-pure, Keeps-guard, Keeps-modify,
}
use agentic_engineering_cont.Workflow.Lifecycle.{WorkItem, RemediationPlan, ExecutionResult}
use agentic_engineering_cont.Workflow.Store.{State, utc_now}
use agentic_engineering_cont.Workflow.Execution.{
  check_plan, execution_result, execute_plan, validate_result,
}

pub record Ran (item : WorkItem) (actor : String) (r : ExecutionResult) : Type 0 where
  pub own : r.work_item_id ≡ item.work_item_id
  pub by : r.actor ≡ actor

-- A property of states that depends on the tables alone.
abbrev pub OfTables : (State → Type 0) → Type 0
OfTables P = (s s' : State) → s'.db ≡ s.db → P s → P s'

module _ (p : Platform) (runtime_root : String) (P : State → Type 0) (tables : OfTables P) where
  pub Keeps-utc_now : Keeps P (utc_now p) Any
  unfolding utc_now
  Keeps-utc_now = record { at = λ s h. tables s _ refl h; gives = λ s h a e. tt }

  Keeps-check_plan : (plan : RemediationPlan) → Keeps P (check_plan p runtime_root plan) Any
  unfolding check_plan
  Keeps-check_plan plan = Keeps-bind {Q = Any} _ _ (Keeps-lift _ λ t e. tt) λ tool _.
      Keeps-bind _ _ (Keeps-guard _ _) λ _ _. Keeps-bind _ _ (Keeps-guard _ _) λ _ _.
        Keeps-bind _ _ (Keeps-guard _ _)
          λ _ _. Keeps-bind _ _ (Keeps-guard _ _) λ _ _. Keeps-pure _ tt

  pub Keeps-execute_plan :
      (item : WorkItem) (plan : RemediationPlan) (actor : String) (attempt : ℕ)
      → Keeps P (execute_plan p runtime_root item plan actor attempt) (Ran item actor)
  unfolding execute_plan execution_result
  Keeps-execute_plan item plan actor attempt = Keeps-bind _ _ (Keeps-check_plan plan) λ tool _.
      Keeps-bind _ _ Keeps-utc_now λ stamp _. Keeps-bind _ _ Keeps-utc_now λ now _.
        Keeps-bind _ _ (Keeps-modify _ λ s h. tables s _ refl h) λ _ _.
          Keeps-bind _ _ Keeps-utc_now
            λ created_at _. Keeps-pure _ (record { own = refl; by = refl })

  pub Keeps-validate_result : (r : ExecutionResult) → Keeps P (validate_result p runtime_root r) Any
  unfolding validate_result
  Keeps-validate_result r =
      Keeps-bind {Q = Any} _ _ (Keeps-gets _ λ s h. tt) λ verdict _. Keeps-lift _ λ v e. tt
