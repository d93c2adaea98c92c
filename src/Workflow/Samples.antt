-- ===== src/Workflow/Samples.antt =====
-- A platform that can be computed with, and a run of the workflow on it from the finding to the
-- closure.
use agentic_engineering_cont.Exec.{err, exec_code}
use agentic_engineering_cont.Workflow.Event.{Event, genesis, verify_event_chain, event_code}
use agentic_engineering_cont.Workflow.Event.Chain.{
  Clash, hashed_text, columns, verify_event_chain_unique,
}
use agentic_engineering_cont.Workflow.Planning.{planning_code}
use agentic_engineering_cont.Workflow.Execution.{execution_code}
use agentic_engineering_cont.Prelude.{
  arith, strip, lower, is_blank, String, ◌≡◌, ◌≢◌, refl, true, false, Option, none, some, List, [],
  ◌∷◌, eq_iff, ap, map, ◌⊎◌,
}
use agentic_engineering_cont.Prelude.Platform.{
  Platform, Json, end, field, bool, str, obj, get_field, describe, value_error,
}
use agentic_engineering_cont.Workflow.Lifecycle.{WorkItem, closed, triaged, lifecycle_code}
use agentic_engineering_cont.Workflow.Store.{State, transition, store_code}
use agentic_engineering_cont.Workflow.Store.Atomic.{transition-Unchanged}
use agentic_engineering_cont.Workflow.Store.Rows.{row, item_of}
use agentic_engineering_cont.Workflow.Governed.{WorkflowPolicy, Report, governed_code}
use agentic_engineering_cont.Workflow.Store.Chained.{IsChained}
use agentic_engineering_cont.Workflow.Duties.{Released, ClosedBy}
use agentic_engineering_cont.Workflow.Runs.{
  Operation, ingesting, triaging, planning, approving_execution, executing_plan, validating_result,
  approving_closure, empty_state, perform, run, closed-separates_duties, run-IsChained,
}

abbrev text_of : Option Json → String
text_of (some (str s)) = s
text_of _ = ""

abbrev prepend : String → String → String
prepend String.[] s = s
prepend (String.◌∷◌ c cs) s = String.◌∷◌ c (prepend cs s)

-- The canonical text of an event is one letter longer than the hash before it, and stands for
-- itself as its hash, so that the hashes of a chain differ.
abbrev pub toy_json : Json → String
unfolding get_field
toy_json (obj fields) = prepend "x" (text_of (get_field "previous_hash" fields))
toy_json _ = "x"

abbrev safe_artifact : Json
safe_artifact = obj (
    field "source_repository_mutation" (bool false)
      (field "production_execution" (bool false) (field "status" (str "simulated") end)))

abbrev pub toy : Platform
toy = record {
  sha256 = λ s. prepend "f00df00d" s;
  canonical_json = toy_json;
  dumps = λ j. "artifact";
  loads = λ s. some safe_artifact;
  clock = λ n. n;
  isoformat = λ t. "now";
  show = λ n. "1";
  repr = λ s. s;
  resolve = λ s. s;
}

abbrev pub policy : WorkflowPolicy
policy = record { sla_hours = ("info", 720) ∷ []; max_retries = 2 }

abbrev report : Report
report = record {
  status = "audited";
  reviewer_passed = true;
  full_name = "acme/repo";
  commit_sha = none;
  findings =
      record {
        finding_id = "F-1";
        title = "No tests";
        category = "testing";
        severity = "high";
        recommendation = "Add tests.";
        evidence = "README.md" ∷ [];
      }
      ∷ [];
}

abbrev pub work_id : String
work_id = "WORK-f00df00dacme/rep"

abbrev pub whole_life : List Operation
whole_life =
    ingesting "run-1" "audit-ingest" (report ∷ [])
    ∷ triaging work_id "tina" "otto"
    ∷ planning work_id "planner"
    ∷ approving_execution work_id "anna" "approved" "go"
    ∷ executing_plan work_id "eve"
    ∷ validating_result work_id "victor"
    ∷ approving_closure work_id "carl" "approved" "done"
    ∷ []

program : Unit {0}
unfolding exec_code event_code lifecycle_code planning_code store_code execution_code governed_code
    perform get_field strip lower is_blank describe
program = tt

final : State
unfolding program
final = run toy "/runtime" policy empty_state whole_life

abbrev closed_item : WorkItem
closed_item = record {
  work_item_id = work_id;
  finding_id = "F-1";
  repository = "acme/repo";
  source_commit = none;
  source_run_id = "run-1";
  title = "No tests";
  category = "testing";
  severity = "high";
  recommendation = "Add tests.";
  evidence = "README.md" ∷ [];
  state = closed;
  owner = some "otto";
  created_by = "audit-ingest";
  plan_id = some "PLAN-f00df00dWORK-f00";
  due_at = some 2592000000000;
  retry_count = 1;
  max_retries = 2;
  last_error = none;
  created_at = 1;
  updated_at = 29;
}

found_closed :
    item_of work_id (run toy "/runtime" policy empty_state whole_life).db.items ≡ some closed_item
unfolding program
found_closed = refl

closed-separates_duties_example :
    Released closed_item
      (row work_id (run toy "/runtime" policy empty_state whole_life).db).plan
      (row work_id (run toy "/runtime" policy empty_state whole_life).db).approvals
      (row work_id (run toy "/runtime" policy empty_state whole_life).db).executions
    × ClosedBy closed_item
        (row work_id (run toy "/runtime" policy empty_state whole_life).db).approvals
        (row work_id (run toy "/runtime" policy empty_state whole_life).db).executions
closed-separates_duties_example =
    closed-separates_duties toy "/runtime" policy whole_life work_id closed_item found_closed refl

IsChained-empty : IsChained toy empty_state
unfolding program
IsChained-empty = refl

run-IsChained_example : IsChained toy (run toy "/runtime" policy empty_state whole_life)
run-IsChained_example = run-IsChained toy "/runtime" policy empty_state whole_life IsChained-empty

-- A hash that gives one value, and two logs that end in it.
abbrev weak : Platform
weak = record toy { sha256 = λ text. "f00d" }

abbrev first_row : Event
first_row = record {
  work_item_id = none;
  event_type = "created";
  actor = "amy";
  payload = str "";
  previous_hash = genesis;
  event_hash = "f00d";
  created_at = 0;
}

abbrev second_row : Event
second_row = record first_row { previous_hash = "f00d" }

abbrev rest_of : String → String
rest_of String.[] = ""
rest_of (String.◌∷◌ c s) = s

one_row : verify_event_chain weak (first_row ∷ []) ≡ true
unfolding program
one_row = refl

two_rows : verify_event_chain weak (first_row ∷ second_row ∷ []) ≡ true
unfolding program
two_rows = refl

text_shows_previous :
    (x y : Event) → hashed_text weak x ≡ hashed_text weak y → x.previous_hash ≡ y.previous_hash
unfolding hashed_text program
text_shows_previous x y e = ap rest_of e

weak_no_genesis : (text : String) → weak.sha256 text ≢ genesis
weak_no_genesis text e = ground (arith, eq_iff "f00d" genesis)

verify_event_chain_unique_example :
    Clash weak (first_row ∷ []) (first_row ∷ second_row ∷ [])
    ⊎ (map (columns weak) (first_row ∷ []) ≡ map (columns weak) (first_row ∷ second_row ∷ []))
verify_event_chain_unique_example =
    verify_event_chain_unique weak weak_no_genesis text_shows_previous (first_row ∷ [])
      (first_row ∷ second_row ∷ []) one_row two_rows refl

abbrev whole_state : State
whole_state = run toy "/runtime" policy empty_state whole_life

-- A closed item is not triaged again.
refuses :
    (transition toy work_id triaged "amy" "again" [] whole_state).0
    ≡ err (value_error "invalid transition: closed -> triaged")
unfolding program
refuses = refl

transition-Unchanged_example :
    (transition toy work_id triaged "amy" "again" [] whole_state).1.db ≡ whole_state.db
transition-Unchanged_example =
    transition-Unchanged toy work_id triaged "amy" "again" [] whole_state
      (value_error "invalid transition: closed -> triaged") refuses
