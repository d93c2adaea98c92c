-- ===== src/Development/Onboarding/Store.antt =====
-- OnboardingStore: the state file and the event log of each onboarding id.
use agentic_engineering_cont.Prelude.{
  ℕ, String, Bool, true, false, ◌&&◌, Option, none, some, List, [], ◌∷◌, ◌++◌, ◌==◌, concat, find,
  last, lower, eqb, if◌then◌else◌,
}
use agentic_engineering_cont.Prelude.Platform.{
  Platform, Json, end, field, str, obj, key_error, runtime_error, file_not_found_error,
}
use agentic_engineering_cont.Exec.{
  Result, ok, err, Exec, pure, lift, gets, modify, guard, ◌>>=◌, ◌>>◌,
}
use agentic_engineering_cont.Workflow.Lifecycle.{stable_id}
use agentic_engineering_cont.Development.Host.{Host}
use agentic_engineering_cont.Development.Log.{previous_of}
use agentic_engineering_cont.Development.Store.{State, utc_now}
use agentic_engineering_cont.Development.Onboarding.Record.{
  OnboardingRecord, OnboardingEvent, Folder,
}

abbrev pub folder_of : String → List Folder → Option Folder
folder_of id folders = find (λ f. f.onboarding_id == id) folders

abbrev pub found_record : String → Option Folder → Result OnboardingRecord
found_record full_name none =
    err (key_error (concat ("onboarding record not found: " ∷ full_name ∷ [])))
found_record full_name (some f) = ok f.entry

abbrev pub found_folder : Option Folder → Result Folder
found_folder none = err (file_not_found_error "events.jsonl")
found_folder (some f) = ok f

abbrev pub events_of : Option Folder → List OnboardingEvent
events_of none = []
events_of (some f) = f.events

-- The directory is written, or made where there is none.
unfoldable pub put_record : String → OnboardingRecord → List Folder → List Folder
put_record id r [] = record { onboarding_id = id; entry = r; events = [] } ∷ []
put_record id r (f ∷ fs) =
    let rest = put_record id r fs in
    if f.onboarding_id == id then record f { entry = r } ∷ fs else f ∷ rest

unfoldable pub put_event : String → OnboardingEvent → List Folder → List Folder
put_event id event [] = []
put_event id event (f ∷ fs) =
    let rest = put_event id event fs in
    if f.onboarding_id == id then record f { events = f.events ++ event ∷ [] } ∷ fs else f ∷ rest

abbrev pub fresh_or_same : OnboardingRecord → Option Folder → Bool
fresh_or_same r none = true
fresh_or_same r (some f) = eqb f.entry.updated_at r.updated_at

abbrev pub recorded_hash : OnboardingEvent → Option String
recorded_hash e = e.event_hash

abbrev pub named_hash : OnboardingEvent → String
named_hash e = e.previous_hash

module _ (p : Platform) where
  abbrev pub onboarding_id : String → String
  onboarding_id full_name = stable_id p "ONB" (lower full_name ∷ [])

  -- The event without its hash, under the hash.
  unfoldable pub event_digest : OnboardingEvent → String
  event_digest e = p.sha256 (
      p.canonical_json (
        obj (
          field "onboarding_id" (str e.onboarding_id) (
            field "full_name" (str e.full_name) (
              field "event_type" (str e.event_type) (
                field "actor" (str e.actor) (
                  field "payload" e.payload (
                    field "previous_hash" (str e.previous_hash)
                      (field "created_at" (str (p.isoformat e.created_at)) end)))))))))

  -- The loop of verify_chain: a line without a hash is a KeyError.
  unfoldable pub verify_from : String → List OnboardingEvent → Result Bool
  verify_from previous_hash [] = ok true
  verify_from previous_hash (e ∷ es) =
      let rest = verify_from (event_digest e) es in
      elim e.event_hash [
        | none ↦ err (key_error "event_hash")
        | some actual ↦
            if (e.previous_hash == previous_hash) && actual == event_digest e
            then rest
            else ok false
      ]

module _ {W : Type 0} (h : Host W) where
  unfoldable pub exists : String → Exec (State W) Bool
  exists full_name = gets (λ s. elim (folder_of (onboarding_id h.platform full_name) s.folders) [
    | none ↦ false
    | some f ↦ true
  ])

  unfoldable pub load : String → Exec (State W) OnboardingRecord
  load full_name = do
    found ← gets (λ s. folder_of (onboarding_id h.platform full_name) s.folders)
    lift (found_record full_name found)

  unfoldable pub write_record : String → OnboardingRecord → State W → State W
  write_record id r s = record s { folders = put_record id r s.folders }

  -- The record comes back with its new time, which Python writes into the caller's dictionary.
  unfoldable pub save : OnboardingRecord → Exec (State W) OnboardingRecord
  save r = do
    current ← gets (λ s. folder_of (onboarding_id h.platform r.full_name) s.folders)
    guard (fresh_or_same r current) (runtime_error "stale onboarding record mutation rejected")
    now ← utc_now h
    let saved = record r { updated_at = now }
    modify (write_record (onboarding_id h.platform r.full_name) saved)
    pure saved

  unfoldable pub new_event : String → String → String → Json → String → ℕ → OnboardingEvent
  new_event full_name type actor payload previous_hash now =
      let draft : OnboardingEvent = record {
        onboarding_id = onboarding_id h.platform full_name;
        full_name = full_name;
        event_type = type;
        actor = actor;
        payload = payload;
        previous_hash = previous_hash;
        created_at = now;
        event_hash = none;
      } in
      record draft { event_hash = some (event_digest h.platform draft) }

  unfoldable pub write_event : String → OnboardingEvent → State W → State W
  write_event id event s = record s { folders = put_event id event s.folders }

  unfoldable pub append_event : String → String → String → Json → Exec (State W) (Unit {0})
  append_event full_name type actor payload = do
    found ← gets (λ s. folder_of (onboarding_id h.platform full_name) s.folders)
    f ← lift (found_folder found)
    previous ← lift (previous_of named_hash recorded_hash (event_digest h.platform) (last f.events))
    now ← utc_now h
    modify (
        write_event (onboarding_id h.platform full_name)
          (new_event full_name type actor payload previous now))

  pub events : String → Exec (State W) (List OnboardingEvent)
  events full_name =
      gets (λ s. events_of (folder_of (onboarding_id h.platform full_name) s.folders))

  pub verify_chain : String → Exec (State W) Bool
  verify_chain full_name = do es ← events full_name; lift (verify_from h.platform "GENESIS" es)

-- All that a run computes with here, under one name.
unfoldable pub onboarding_store_code : Unit {0}
unfolding put_record put_event event_digest verify_from exists load write_record save new_event
    write_event append_event events verify_chain
onboarding_store_code = tt
