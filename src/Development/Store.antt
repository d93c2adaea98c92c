-- ===== src/Development/Store.antt =====
-- DevelopmentStore: the state file and the event log of each task.
use agentic_engineering_cont.Prelude.{
  ℕ, suc, String, Bool, true, false, ◌&&◌, Option, none, some, List, [], ◌∷◌, ◌++◌, ◌==◌, concat,
  find, last, hex_run, eqb, if◌then◌else◌,
}
use agentic_engineering_cont.Prelude.Platform.{
  Platform, Json, end, field, str, obj, value_error, runtime_error, file_not_found_error,
}
use agentic_engineering_cont.Exec.{
  Result, ok, err, Exec, pure, lift, gets, modify, guard, ◌>>=◌, ◌>>◌,
}
use agentic_engineering_cont.Development.Task.{Registry, TaskState, state_name, may_move, Task}
use agentic_engineering_cont.Development.Onboarding.Record.{Folder}
use agentic_engineering_cont.Development.Log.{previous_of, verify}
use agentic_engineering_cont.Development.Host.{Host}

-- A line of events.jsonl. A line without the key "event_hash" has `none`.
pub record Event : Type 0 where
  pub task_id : String
  pub event_type : String
  pub actor : String
  pub payload : Json
  pub previous_hash : String
  pub created_at : ℕ
  pub event_hash : Option String

-- The directory of a task.
pub record Entry : Type 0 where
  pub task : Task
  pub events : List Event

-- The manifest of a package, with the artifacts' names and hashes.
pub record Manifest : Type 0 where
  pub schema_version : String
  pub evidence_id : String
  pub task_id : String
  pub repository : String
  pub source_sha : Option String
  pub branch : String
  pub snapshot_state : TaskState
  pub artifacts : List (String × String)
  pub event_chain_valid : Bool
  pub generated_at : ℕ

-- A directory under the task's evidence directory: its files, as far as they are written. A text is
-- kept as the value that it was written from and is read as.
pub record Package : Type 0 where
  pub evidence_id : String
  pub task_id : String
  pub state : Option Task
  pub events : Option (List Event)
  pub manifest : Option Manifest

pub record State (W : Type 0) : Type 0 where
  pub entries : List Entry
  pub packages : List Package
  pub folders : List Folder
  pub registry : Registry
  pub readings : ℕ
  pub world : W

-- re.fullmatch(r"DEV-[a-f0-9]{16}", task_id)
abbrev after_prefix : List String → String → Bool
after_prefix [] s = hex_run 16 s
after_prefix (c ∷ cs) String.[] = false
after_prefix (c ∷ cs) (String.◌∷◌ d s) = (String.◌∷◌ d String.[] == c) && after_prefix cs s

pub is_task_id : String → Bool
is_task_id id = after_prefix ("D" ∷ "E" ∷ "V" ∷ "-" ∷ []) id

abbrev pub entry_of : String → List Entry → Option Entry
entry_of id entries = find (λ e. e.task.task_id == id) entries

abbrev pub found_entry : Option Entry → Result Entry
found_entry none = err (file_not_found_error "state.json")
found_entry (some e) = ok e

-- The directory of the task is written; there is one for each id.
unfoldable pub put_task : Task → List Entry → List Entry
put_task task [] = []
put_task task (e ∷ es) =
    let rest = put_task task es in
    if e.task.task_id == task.task_id then record e { task = task } ∷ es else e ∷ rest

unfoldable pub put_event : String → Event → List Entry → List Entry
put_event id event [] = []
put_event id event (e ∷ es) =
    let rest = put_event id event es in
    if e.task.task_id == id then record e { events = e.events ++ event ∷ [] } ∷ es else e ∷ rest

abbrev pub recorded_hash : Event → Option String
recorded_hash e = e.event_hash

abbrev pub named_hash : Event → String
named_hash e = e.previous_hash

module _ (p : Platform) where
  -- The event without its hash, under the hash.
  unfoldable pub event_json : Event → Json
  event_json e = obj (
      field "task_id" (str e.task_id) (
        field "event_type" (str e.event_type) (
          field "actor" (str e.actor) (
            field "payload" e.payload (
              field "previous_hash" (str e.previous_hash)
                (field "created_at" (str (p.isoformat e.created_at)) end))))))

  unfoldable pub event_digest : Event → String
  unfolding event_json
  event_digest e = p.sha256 (p.canonical_json (event_json e))

  -- DevelopmentStore.verify_events
  unfoldable pub verify_events : List Event → Bool
  verify_events events = verify named_hash recorded_hash event_digest events

module _ {W : Type 0} (h : Host W) where
  unfoldable pub utc_now : Exec (State W) ℕ
  utc_now s = (ok (h.platform.clock s.readings), record s { readings = suc s.readings })

  -- task_root refuses an id that is not one.
  unfoldable pub task_root : String → Exec (State W) (Unit {0})
  task_root id = guard (is_task_id id) (value_error "invalid task id")

  unfoldable pub entry : String → Exec (State W) Entry
  entry id = do task_root id; found ← gets (λ s. entry_of id s.entries); lift (found_entry found)

  unfoldable pub load : String → Exec (State W) Task
  load id = do e ← entry id; pure e.task

  unfoldable pub write_state : Task → State W → State W
  write_state task s = record s { entries = put_task task s.entries }

  pub fresh_or_same : Task → Option Entry → Bool
  fresh_or_same task none = true
  fresh_or_same task (some e) = eqb e.task.updated_at task.updated_at

  -- The task comes back with its new time, which Python writes into the caller's dictionary.
  unfoldable pub save : Task → Exec (State W) Task
  save task = do
    task_root task.task_id
    current ← gets (λ s. entry_of task.task_id s.entries)
    guard (fresh_or_same task current) (runtime_error "stale development task mutation rejected")
    now ← utc_now
    let saved = record task { updated_at = now }
    modify (write_state saved)
    pure saved

  unfoldable pub new_event : String → String → String → Json → String → ℕ → Event
  new_event id type actor payload previous_hash now =
      let draft : Event = record {
        task_id = id;
        event_type = type;
        actor = actor;
        payload = payload;
        previous_hash = previous_hash;
        created_at = now;
        event_hash = none;
      } in
      record draft { event_hash = some (event_digest h.platform draft) }

  unfoldable pub write_event : String → Event → State W → State W
  write_event id event s = record s { entries = put_event id event s.entries }

  unfoldable pub append_event : String → String → String → Json → Exec (State W) (Unit {0})
  append_event id type actor payload = do
    e ← entry id
    previous ← lift (previous_of named_hash recorded_hash (event_digest h.platform) (last e.events))
    now ← utc_now
    modify (write_event id (new_event id type actor payload previous now))

  unfoldable pub events : String → Exec (State W) (List Event)
  events id = do e ← entry id; pure e.events

  pub verify_chain : String → Exec (State W) Bool
  verify_chain id = do es ← events id; pure (verify_events h.platform es)

  -- `updates` is what task.update() assigns.
  unfoldable pub transition :
      Task → TaskState → String → String → (Task → Task) → Exec (State W) Task
  transition task target actor reason updates = do
    guard (may_move task.state target) (
        value_error (
          concat (
            "invalid development transition: "
            ∷ state_name task.state
            ∷ " -> "
            ∷ state_name target
            ∷ [])))
    saved ← save (record (updates task) { state = target })
    append_event task.task_id "state_transition" actor (
        obj (
          field "from" (str (state_name task.state))
            (field "to" (str (state_name target)) (field "reason" (str reason) end))))
    pure saved

  unfoldable pub add_entry : Task → State W → State W
  add_entry task s = record s { entries = s.entries ++ record { task = task; events = [] } ∷ [] }

  unfoldable pub create_new : Task → String → Exec (State W) Task
  create_new task actor = do
    modify (add_entry task)
    append_event task.task_id "task_created" actor (obj (field "state" (str "created") end))
    pure task

  unfoldable pub create : Task → String → Exec (State W) Task
  create task actor = do
    task_root task.task_id
    current ← gets (λ s. entry_of task.task_id s.entries)
    elim current [ none ↦ create_new task actor | some e ↦ pure e.task ]

-- All that a run computes with here, under one name.
unfoldable pub store_code : Unit {0}
unfolding is_task_id put_task put_event event_json event_digest verify_events utc_now task_root
    entry load write_state fresh_or_same save new_event write_event append_event events verify_chain
    transition add_entry create_new create
store_code = tt
