-- ===== src/Workflow/Store.antt =====
-- ae_control_plane/store.py: WorkflowStore. The tables are lists of rows in the order of
-- insertion; a method is an action on the database, the clock and the artifact files.
pub mod Rows
pub mod Writes
pub mod Atomic
pub mod Chained
use agentic_engineering_cont.Prelude.{
  ℕ, suc, ◌+◌, String, Bool, true, false, not, ◌&&◌, ◌||◌, Option, none, some, List, [], ◌∷◌, ◌++◌,
  map, ◌==◌, concat, find, any, keep, last, ltb, if◌then◌else◌,
}
use mathlib.Core.List.{foldl}
use agentic_engineering_cont.Prelude.Platform.{
  Platform, Json, Fields, end, field, null, str, obj, num, opt, Error, value_error, key_error,
  integrity_error,
}
use agentic_engineering_cont.Exec.{
  Result, ok, err, Exec, pure, raise, lift, gets, modify, guard, ◌>>=◌, ◌>>◌, transaction,
}
use agentic_engineering_cont.Workflow.Lifecycle.{
  WorkState, state_name, may_move, WorkItem, RemediationPlan, Approval, ExecutionResult,
  plan_to_dict, approval_to_dict, execution_to_dict,
}
use agentic_engineering_cont.Workflow.Event.{Event, previous_of, digest}

pub record Db : Type 0 where
  pub items : List WorkItem
  pub plans : List RemediationPlan
  pub approvals : List Approval
  pub executions : List ExecutionResult
  pub events : List Event

-- The database, how often the clock has been read, and the files by their resolved path.
pub record State : Type 0 where
  pub db : Db
  pub readings : ℕ
  pub files : List (String × String)

abbrev pub put_db : Db → State → State
put_db d s = record s { db = d }

-- The keyword argument `updates` of `transition`, entry by entry.
pub data Update : Type 0 where
  owner : String → Update
  plan_id : String → Update
  retry_count : ℕ → Update
  last_error : Option String → Update
  due_at : Option ℕ → Update
  unsupported : String → Json → Update

abbrev pub is_unsupported : Update → Bool
is_unsupported (unsupported k v) = true
is_unsupported (owner o) = false
is_unsupported (plan_id i) = false
is_unsupported (retry_count n) = false
is_unsupported (last_error e) = false
is_unsupported (due_at t) = false

-- One assignment of the UPDATE statement.
abbrev pub assign : WorkItem → Update → WorkItem
assign item (owner o) = record item { owner = some o }
assign item (plan_id i) = record item { plan_id = some i }
assign item (retry_count n) = record item { retry_count = n }
assign item (last_error e) = record item { last_error = e }
assign item (due_at t) = record item { due_at = t }
assign item (unsupported k v) = item

found_item : String → Option WorkItem → Result WorkItem
found_item id none = err (key_error (concat ("work item not found: " ∷ id ∷ [])))
found_item id (some item) = ok item

found_plan : String → Option RemediationPlan → Result RemediationPlan
found_plan id none = err (key_error (concat ("plan not found for work item: " ∷ id ∷ [])))
found_plan id (some plan) = ok plan

found_execution : String → Option ExecutionResult → Result ExecutionResult
found_execution id none = err (key_error (concat ("execution not found for work item: " ∷ id ∷ [])))
found_execution id (some result) = ok result

-- The row with the later time; the earlier one inserted where the times are equal.
abbrev pub newer : ExecutionResult → Option ExecutionResult → ExecutionResult
newer r none = r
newer r (some best) = if ltb r.created_at best.created_at then best else r

-- ORDER BY created_at DESC LIMIT 1
abbrev pub newest : List ExecutionResult → Option ExecutionResult
newest [] = none
newest (r ∷ rs) = some (newer r (newest rs))

abbrev pub coalesce : Option String → String
coalesce none = ""
coalesce (some c) = c

abbrev pub same_commit : Option String → Option String → Bool
same_commit (some a) (some b) = a == b
same_commit none c = false
same_commit (some a) none = false

abbrev pub same_finding : WorkItem → WorkItem → Bool
same_finding a b = (a.repository == b.repository) && (a.finding_id == b.finding_id)

-- The PRIMARY KEY and the UNIQUE constraint of work_items; two NULL commits are not equal.
abbrev pub clashes : WorkItem → WorkItem → Bool
clashes a b =
    (a.work_item_id == b.work_item_id)
    || (same_finding a b && same_commit a.source_commit b.source_commit)

-- The SELECT that follows a refused INSERT.
abbrev is_existing : WorkItem → WorkItem → Bool
is_existing item row =
    same_finding row item && (coalesce row.source_commit == coalesce item.source_commit)

abbrev set_item : String → List Update → ℕ → WorkState → WorkItem → WorkItem
set_item id updates now target item =
    if item.work_item_id == id
    then record (foldl assign item updates) { state = target; updated_at = now }
    else item

abbrev has_item : String → Db → Bool
has_item id d = any (λ item. item.work_item_id == id) d.items

-- The rows that the INSERT statements add.
abbrev pub add_event : Event → State → State
add_event e s = put_db (record s.db { events = s.db.events ++ e ∷ [] }) s

abbrev pub add_item : WorkItem → State → State
add_item item s = put_db (record s.db { items = s.db.items ++ item ∷ [] }) s

abbrev pub add_plan : RemediationPlan → State → State
add_plan plan s = put_db (record s.db { plans = s.db.plans ++ plan ∷ [] }) s

abbrev pub add_approval_row : Approval → State → State
add_approval_row a s = put_db (record s.db { approvals = s.db.approvals ++ a ∷ [] }) s

abbrev pub add_execution_row : ExecutionResult → State → State
add_execution_row r s = put_db (record s.db { executions = s.db.executions ++ r ∷ [] }) s

-- The PRIMARY KEY and the UNIQUE constraint of plans.
abbrev pub same_plan : RemediationPlan → RemediationPlan → Bool
same_plan plan old = (old.plan_id == plan.plan_id) || (old.work_item_id == plan.work_item_id)

module _ (p : Platform) where
  unfoldable pub utc_now : Exec State ℕ
  utc_now s = (ok (p.clock s.readings), record s { readings = suc s.readings })

  abbrev update_json : Update → Fields → Fields
  update_json (owner o) rest = field "owner" (str o) rest
  update_json (plan_id i) rest = field "plan_id" (str i) rest
  update_json (retry_count n) rest = field "retry_count" (num n) rest
  update_json (last_error e) rest = field "last_error" (opt e) rest
  update_json (due_at none) rest = field "due_at" null rest
  update_json (due_at (some t)) rest = field "due_at" (str (p.isoformat t)) rest
  update_json (unsupported k v) rest = field k v rest

  abbrev updates_json : List Update → Fields
  updates_json [] = end
  updates_json (u ∷ us) = update_json u (updates_json us)

  -- The INSERT of the new row, with the UNIQUE constraint on event_hash.
  insert_event : Event → Exec State String
  insert_event e = do
    taken ← gets (λ s. any (λ old. old.event_hash == e.event_hash) s.db.events)
    guard (not taken) (integrity_error "UNIQUE constraint failed: events.event_hash")
    modify (add_event e)
    pure e.event_hash

  -- The row that append_event builds behind the given rows, at the time `now`.
  new_event : Option String → String → String → Json → ℕ → List Event → Event
  new_event id type actor payload now events =
      let previous_hash = previous_of (last events) in
      let e : Event = record {
        work_item_id = id;
        event_type = type;
        actor = actor;
        payload = payload;
        previous_hash = previous_hash;
        event_hash = "";
        created_at = now;
      } in
      record e { event_hash = digest p e previous_hash }

  pub append_event : Option String → String → String → Json → Exec State String
  append_event id type actor payload = do
    now ← utc_now
    e ← gets (λ s. new_event id type actor payload now s.db.events)
    insert_event e

  pub in_transaction : {A : Type 0} → Exec State A → Exec State A
  in_transaction m = transaction (λ s. s.db) put_db m

  insert_item : WorkItem → Exec State (Unit {0})
  insert_item item = modify (add_item item)

  existing_or_raise : Option WorkItem → Exec State (WorkItem × Bool)
  existing_or_raise none = raise (integrity_error "UNIQUE constraint failed: work_items")
  existing_or_raise (some row) = pure (row, false)

  created : WorkItem → Exec State (WorkItem × Bool)
  created item = do
    insert_item item
    append_event (some item.work_item_id) "work_item_created" item.created_by (
        obj
          (field "state" (str (state_name item.state)) (field "severity" (str item.severity) end)))
    pure (item, true)

  -- The item, and whether it was new.
  pub create_work_item : WorkItem → Exec State (WorkItem × Bool)
  create_work_item item = in_transaction (do
    clash ← gets (λ s. any (clashes item) s.db.items)
    existing ← gets (λ s. find (is_existing item) s.db.items)
    if clash then existing_or_raise existing else created item)

  pub get_work_item : String → Exec State WorkItem
  unfolding found_item
  get_work_item id = do
    row ← gets (λ s. find (λ item. item.work_item_id == id) s.db.items)
    lift (found_item id row)

  update_rows : String → List Update → ℕ → WorkState → State → State
  update_rows id updates now target s =
      put_db (record s.db { items = map (set_item id updates now target) s.db.items }) s

  transition_payload : WorkItem → WorkState → String → List Update → Json
  transition_payload item target reason updates = obj (
      field "from" (str (state_name item.state)) (
        field "to" (str (state_name target))
          (field "reason" (str reason) (field "updates" (obj (updates_json updates)) end))))

  -- UPDATE and the event in one transaction.
  pub write_transition :
      WorkItem → WorkState → String → String → List Update → ℕ → Exec State String
  write_transition item target actor reason updates now = in_transaction (do
    modify (update_rows item.work_item_id updates now target)
    append_event (some item.work_item_id) "state_transition" actor
        (transition_payload item target reason updates))

  pub transition : String → WorkState → String → String → List Update → Exec State WorkItem
  transition id target actor reason updates = do
    item ← get_work_item id
    guard (may_move item.state target) (
        value_error (
          concat
            ("invalid transition: " ∷ state_name item.state ∷ " -> " ∷ state_name target ∷ [])))
    guard (not (any is_unsupported updates)) (value_error "unsupported work item updates")
    now ← utc_now
    write_transition item target actor reason updates now
    get_work_item id

  insert_plan : RemediationPlan → Exec State (Unit {0})
  insert_plan plan = do
    taken ← gets (λ s. any (same_plan plan) s.db.plans)
    guard (not taken) (integrity_error "UNIQUE constraint failed: plans")
    known ← gets (λ s. has_item plan.work_item_id s.db)
    guard known (integrity_error "FOREIGN KEY constraint failed")
    modify (add_plan plan)

  pub save_plan : RemediationPlan → Exec State String
  save_plan plan = in_transaction (do
    insert_plan plan
    append_event (some plan.work_item_id) "plan_created" plan.planner (plan_to_dict p plan))

  pub get_plan : String → Exec State RemediationPlan
  unfolding found_plan
  get_plan id = do
    row ← gets (λ s. find (λ plan. plan.work_item_id == id) s.db.plans)
    lift (found_plan id row)

  insert_approval : Approval → Exec State (Unit {0})
  insert_approval a = do
    known ← gets (λ s. has_item a.work_item_id s.db)
    guard known (integrity_error "FOREIGN KEY constraint failed")
    modify (add_approval_row a)

  pub add_approval : Approval → Exec State String
  add_approval a = in_transaction (do
    insert_approval a
    append_event (some a.work_item_id) (concat (a.stage ∷ "_approval" ∷ [])) a.actor
        (approval_to_dict p a))

  -- The approvals of an item in the order of their ids.
  pub approvals_of : String → Exec State (List Approval)
  approvals_of id = gets (λ s. keep (λ a. a.work_item_id == id) s.db.approvals)

  insert_execution : ExecutionResult → Exec State (Unit {0})
  insert_execution r = do
    taken ← gets (λ s. any (λ old. old.execution_id == r.execution_id) s.db.executions)
    guard (not taken) (integrity_error "UNIQUE constraint failed: executions.execution_id")
    known ← gets (λ s. has_item r.work_item_id s.db)
    guard known (integrity_error "FOREIGN KEY constraint failed")
    modify (add_execution_row r)

  pub add_execution : ExecutionResult → Exec State String
  add_execution r = in_transaction (do
    insert_execution r
    append_event (some r.work_item_id) "execution_recorded" r.actor (execution_to_dict p r))

  pub latest_execution : String → Exec State ExecutionResult
  unfolding found_execution
  latest_execution id = do
    row ← gets (λ s. newest (keep (λ r. r.work_item_id == id) s.db.executions))
    lift (found_execution id row)

-- All that a run computes with here, under one name.
unfoldable pub store_code : Unit {0}
unfolding found_item found_plan found_execution utc_now insert_event new_event append_event
    in_transaction insert_item existing_or_raise created create_work_item get_work_item update_rows
    transition_payload write_transition transition insert_plan save_plan get_plan insert_approval
    add_approval approvals_of insert_execution add_execution latest_execution
store_code = tt
