-- ===== src/Workflow/Execution.antt =====
-- ae_control_plane/execution.py: the dry-run executor and the validator of its artifact.
pub mod Results
use agentic_engineering_cont.Prelude.{
  ℕ, String, Bool, true, false, not, ◌&&◌, ◌||◌, Option, none, some, List, [], ◌∷◌, ◌++◌, ◌==◌,
  concat, find, is_empty, if◌then◌else◌,
}
use agentic_engineering_cont.Prelude.Platform.{
  Platform, Json, Fields, end, field, null, bool, str, obj, num, list, opt, int, arr, get_field,
  permission_error, attribute_error,
}
use agentic_engineering_cont.Exec.{
  Result, ok, err, Exec, pure, raise, lift, gets, modify, guard, ◌>>=◌, ◌>>◌,
}
use agentic_engineering_cont.Workflow.Lifecycle.{
  WorkItem, RemediationPlan, ExecutionResult, stable_id, plan_to_dict,
}
use agentic_engineering_cont.Workflow.Planning.{ToolSpec, get_tool}
use agentic_engineering_cont.Workflow.Store.{State, utc_now}

-- The file behind a path: write_bytes puts it in front of what was there.
abbrev pub read_file : String → List (String × String) → Option String
read_file path [] = none
read_file path ((at, content) ∷ rest) = if at == path then some content else read_file path rest

abbrev pub write_file : String → String → State → State
write_file path content s = record s { files = (path, content) ∷ s.files }

-- `payload.get(key) is not False`
abbrev is_not_false : Option Json → Bool
is_not_false (some (bool b)) = b
is_not_false _ = true

-- `payload.get("status") != "simulated"`
abbrev is_not_simulated : Option Json → Bool
is_not_simulated (some (str t)) = not (t == "simulated")
is_not_simulated _ = true

abbrev when_failed : Bool → String → List String
when_failed b name = if b then name ∷ [] else []

-- The three tests on the parsed artifact; a value that is no object has no `get`.
unfoldable pub payload_failures : Json → Result (List String)
payload_failures (obj fields) = ok (
    when_failed (is_not_false (get_field "source_repository_mutation" fields))
      "source_repository_mutation_guard_failed"
    ++ (when_failed (is_not_false (get_field "production_execution" fields))
          "production_execution_guard_failed"
        ++ when_failed (is_not_simulated (get_field "status" fields))
            "unexpected_execution_status"))
payload_failures _ = err (attribute_error "object has no attribute 'get'")

module _ (p : Platform) (runtime_root : String) where
  -- The JSON object that the executor writes.
  pub artifact : WorkItem → RemediationPlan → String → ℕ → String → ℕ → Json
  artifact item plan actor attempt execution_id now = obj (
      field "schema_version" (str "1.0.0") (
        field "execution_id" (str execution_id) (
          field "work_item_id" (str item.work_item_id) (
            field "repository" (str item.repository) (
              field "source_commit" (opt item.source_commit) (
                field "finding"
                  (obj (
                    field "finding_id" (str item.finding_id) (
                      field "title" (str item.title) (
                        field "category" (str item.category) (
                          field "severity" (str item.severity)
                            (field "evidence" (list item.evidence) end))))))
                  (field "plan" (plan_to_dict p plan) (
                    field "actor" (str actor) (
                      field "attempt" (num attempt) (
                        field "status" (str "simulated") (
                          field "source_repository_mutation" (bool false) (
                            field "production_execution" (bool false) (
                              field "proposed_change" (str item.recommendation)
                                (field "generated_at" (str (p.isoformat now)) end))))))))))))))

  abbrev artifact_path : WorkItem → ℕ → String
  artifact_path item attempt = concat (
      runtime_root
      ∷ "/workflow/executions/"
      ∷ item.work_item_id
      ∷ "/attempt-"
      ∷ p.show attempt
      ∷ ".json"
      ∷ [])

  -- SafeExecutor.execute, the tests that stand before any effect
  check_plan : RemediationPlan → Exec State ToolSpec
  check_plan plan = do
    tool ← lift (get_tool plan.tool_name)
    guard tool.enabled (permission_error (concat ("tool is disabled by policy: " ∷ tool.name ∷ [])))
    guard (not tool.side_effects)
        (permission_error "side-effecting tools are not available in safe execution")
    guard ((plan.execution_mode == "dry_run") || (plan.execution_mode == "mock"))
        (permission_error (concat ("unsupported safe execution mode: " ∷ plan.execution_mode ∷ [])))
    guard (not plan.source_repository_mutation)
        (permission_error "source mutation plans are prohibited")
    pure tool

  execution_result : WorkItem → String → ToolSpec → ℕ → String → String → ℕ → ExecutionResult
  execution_result item actor tool attempt execution_id encoded now = record {
    execution_id = execution_id;
    work_item_id = item.work_item_id;
    actor = actor;
    tool_name = tool.name;
    attempt = attempt;
    status = "simulated";
    artifact_path = p.resolve (artifact_path item attempt);
    artifact_sha256 = p.sha256 encoded;
    source_repository_mutation = false;
    details = obj (
        field "production_execution" (bool false)
          (field "proposed_change" (str item.recommendation) end));
    created_at = now;
  }

  -- SafeExecutor.execute
  pub execute_plan : WorkItem → RemediationPlan → String → ℕ → Exec State ExecutionResult
  execute_plan item plan actor attempt = do
    tool ← check_plan plan
    stamp ← utc_now p
    let execution_id =
        stable_id p "EXEC" (item.work_item_id ∷ p.show attempt ∷ p.isoformat stamp ∷ [])
    now ← utc_now p
    let encoded = concat (p.dumps (artifact item plan actor attempt execution_id now) ∷ "\n" ∷ [])
    modify (write_file (p.resolve (artifact_path item attempt)) encoded)
    created_at ← utc_now p
    pure (execution_result item actor tool attempt execution_id encoded created_at)

  abbrev verdict : List String → Result (List String) → Result (Bool × List String)
  verdict failures (err e) = err e
  verdict failures (ok more) = ok (is_empty (failures ++ more), failures ++ more)

  abbrev parsed_failures : Option Json → List String → Result (Bool × List String)
  parsed_failures none failures = ok (false, failures ++ "artifact_invalid_json" ∷ [])
  parsed_failures (some payload) failures = verdict failures (payload_failures payload)

  -- What `validate` finds in the file, if it is there.
  unfoldable pub validate_content : ExecutionResult → Option String → Result (Bool × List String)
  validate_content result none = ok (false, "artifact_missing" ∷ [])
  validate_content result (some content) =
      parsed_failures (p.loads content)
        (when_failed (not (p.sha256 content == result.artifact_sha256)) "artifact_sha256_mismatch")

  -- ExecutionValidator.validate
  pub validate_result : ExecutionResult → Exec State (Bool × List String)
  validate_result result = do
    verdict ←
        gets (λ s. validate_content result (read_file (p.resolve result.artifact_path) s.files))
    lift verdict

-- All that a run computes with here, under one name.
unfoldable pub execution_code : Unit {0}
unfolding payload_failures artifact check_plan execution_result execute_plan validate_content
    validate_result
execution_code = tt
