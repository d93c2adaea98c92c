-- ===== src/Workflow/Planning.antt =====
-- ae_control_plane/planning.py: the registered tools and the plan of a work item.
use agentic_engineering_cont.Prelude.{
  ℕ, String, Bool, true, false, Option, none, some, List, [], ◌∷◌, ◌==◌, concat, find,
  if◌then◌else◌,
}
use agentic_engineering_cont.Prelude.Platform.{Platform, key_error}
use agentic_engineering_cont.Exec.{Result, ok, err}
use agentic_engineering_cont.Workflow.Lifecycle.{WorkItem, RemediationPlan, stable_id}

pub record ToolSpec : Type 0 where
  pub name : String
  pub enabled : Bool
  pub side_effects : Bool
  pub requires_human_approval : Bool
  pub purpose : String

-- ToolRegistry._tools
abbrev pub tools : List ToolSpec
tools =
    record {
      name = "mock_remediation";
      enabled = true;
      side_effects = false;
      requires_human_approval = true;
      purpose = "Produce a bounded remediation proposal and evidence artifact.";
    }
    ∷ record {
      name = "github_draft_pr";
      enabled = false;
      side_effects = true;
      requires_human_approval = true;
      purpose = "Reserved boundary for an approved isolated-branch change.";
    }
    ∷ record {
      name = "live_infrastructure_action";
      enabled = false;
      side_effects = true;
      requires_human_approval = true;
      purpose = "Reserved boundary; production actions are prohibited.";
    }
    ∷ []

found_tool : String → Option ToolSpec → Result ToolSpec
found_tool name none = err (key_error (concat ("unknown tool: " ∷ name ∷ [])))
found_tool name (some tool) = ok tool

-- ToolRegistry.get
unfoldable pub get_tool : String → Result ToolSpec
unfolding found_tool
get_tool name = found_tool name (find (λ tool. tool.name == name) tools)

abbrev pub planner_name : String
planner_name = "planner"

-- CATEGORY_STEPS.get(category, …)
unfoldable pub category_step : String → String
category_step category =
    if category == "architecture"
    then "Draft an architecture and execution-flow documentation change."
    else if category == "workflow"
    then "Draft explicit states, retries, fallback, and terminal behavior."
    else if category == "repository_integrity"
    then "Prepare an integrity repair and independent verification checklist."
    else if category == "secret_handling"
    then "Prepare secret removal, rotation, and history-review instructions."
    else if category == "code_execution"
    then "Prepare a safe argument-array and allowlist remediation."
    else if category == "live_action_boundary"
    then "Prepare fail-closed dry-run and approval controls."
    else if category == "testing"
    then "Draft focused tests and negative controls."
    else if category == "continuous_integration"
    then "Draft least-privilege CI validation."
    else if category == "documentation"
    then "Draft reproducible validation and scope documentation."
    else if category == "claim_integrity"
    then "Align claims with verified implementation evidence."
    else if category == "integration"
    then "Draft a versioned schema, fixture, and contract test."
    else if category == "governance"
    then "Draft ownership, approval, evidence, verification, and closure controls."
    else "Prepare a bounded remediation proposal for manual review."

-- source_commit or "no-commit"
abbrev pub commit_or_none : Option String → String
commit_or_none none = "no-commit"
commit_or_none (some c) = if c == "" then "no-commit" else c

module _ (p : Platform) where
  -- RemediationPlanner.create_plan, at the clock reading `now`
  unfoldable pub create_plan : WorkItem → ℕ → ℕ → RemediationPlan
  create_plan item max_retries now = record {
    plan_id = stable_id p "PLAN" (item.work_item_id ∷ commit_or_none item.source_commit ∷ []);
    work_item_id = item.work_item_id;
    planner = planner_name;
    tool_name = "mock_remediation";
    execution_mode = "dry_run";
    steps =
        "Reconfirm finding evidence against the captured source identity."
        ∷ category_step item.category
        ∷ "Generate a dry-run artifact without changing the source repository."
        ∷ "Validate artifact integrity and the source-mutation guard."
        ∷ "Request independent closure approval."
        ∷ [];
    validation_checks =
        "artifact_exists" ∷ "artifact_sha256_matches" ∷ "source_repository_mutation_is_false"
        ∷ "execution_actor_is_not_execution_approver" ∷ "closure_approver_is_independent" ∷ [];
    fallback = "Move to manual_review with the error and event-chain evidence.";
    max_retries = max_retries;
    source_repository_mutation = false;
    created_at = now;
  }

-- All that a run computes with here, under one name.
unfoldable pub planning_code : Unit {0}
unfolding found_tool get_tool category_step create_plan
planning_code = tt
