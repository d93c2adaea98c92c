-- ===== src/Development/Evidence.antt =====
-- Evidence packages: DevelopmentController._build_evidence and verify_evidence_manifest.
pub mod Verified
use agentic_engineering_cont.Prelude.{
  ℕ, String, Bool, true, false, not, ◌&&◌, Option, none, some, List, [], ◌∷◌, ◌++◌, ◌==◌, any, all,
  contains, map, is_empty, concat, if◌then◌else◌,
}
use agentic_engineering_cont.Prelude.Platform.{
  Json, Fields, bool, str, opt, obj, end, field, value_error, runtime_error, file_exists_error,
  file_not_found_error,
}
use agentic_engineering_cont.Exec.{
  Result, ok, err, Exec, pure, lift, gets, modify, guard, ◌>>=◌, ◌>>◌,
}
use agentic_engineering_cont.Development.Task.{state_name, EvidenceRef, Task}
use agentic_engineering_cont.Development.Host.{Host}
use agentic_engineering_cont.Development.Store.{
  Event, Manifest, Package, State, verify_events, utc_now, load, save, events, append_event,
}

module _ {W : Type 0} (h : Host W) where
  abbrev line_json : Event → Json
  line_json e = obj (
      field "event_hash" (opt e.event_hash) (
        field "task_id" (str e.task_id) (
          field "event_type" (str e.event_type) (
            field "actor" (str e.actor) (
              field "payload" e.payload (
                field "previous_hash" (str e.previous_hash)
                  (field "created_at" (str (h.platform.isoformat e.created_at)) end)))))))

  -- The text of events.jsonl.
  pub events_text : List Event → String
  events_text [] = ""
  events_text (e ∷ es) =
      concat (h.platform.canonical_json (line_json e) ∷ "\n" ∷ events_text es ∷ [])

  abbrev artifacts_json : List (String × String) → Fields
  artifacts_json [] = end
  artifacts_json ((name, sha256) ∷ rest) = field name (str sha256) (artifacts_json rest)

  pub manifest_json : Manifest → Json
  manifest_json m = obj (
      field "schema_version" (str m.schema_version) (
        field "evidence_id" (str m.evidence_id) (
          field "task_id" (str m.task_id) (
            field "repository" (str m.repository) (
              field "source_sha" (opt m.source_sha) (
                field "branch" (str m.branch) (
                  field "snapshot_state" (str (state_name m.snapshot_state)) (
                    field "artifacts" (obj (artifacts_json m.artifacts)) (
                      field "event_chain_valid" (bool m.event_chain_valid) (
                        field "generated_at" (str (h.platform.isoformat m.generated_at))
                          end))))))))))

  abbrev artifact_names : List String
  artifact_names = "state.json" ∷ "events.jsonl" ∷ []

  -- set(artifacts) == {"state.json", "events.jsonl"}
  abbrev is_artifact_set : List (String × String) → Bool
  is_artifact_set artifacts =
      let names = map (λ (a : String × String). a.0) artifacts in
      all (contains artifact_names) names && all (contains names) artifact_names

  -- sha256_file of a file of the package, if it is there
  abbrev artifact_sha256 : Package → String → Option String
  artifact_sha256 k name =
      if name == "state.json"
      then elim k.state [ none ↦ none | some t ↦ some (h.platform.sha256 (h.task_text t)) ]
      else if name == "events.jsonl"
      then elim k.events [ none ↦ none | some es ↦ some (h.platform.sha256 (events_text es)) ]
      else none

  abbrev has_text : Option String → String → Bool
  has_text none expected = false
  has_text (some actual) expected = actual == expected

  -- The loop over the artifacts.
  abbrev check_artifacts : Package → List (String × String) → Result (Unit {0})
  check_artifacts k [] = ok tt
  check_artifacts k ((name, expected) ∷ rest) =
      let others = check_artifacts k rest in
      if has_text (artifact_sha256 k name) expected
      then others
      else err (value_error (concat ("evidence artifact hash mismatch: " ∷ name ∷ [])))

  abbrev check_snapshot : Manifest → Option Task → Option (List Event) → Result Manifest
  check_snapshot m none es = err (file_not_found_error "state.json")
  check_snapshot m (some task) none =
      if task.task_id == m.task_id
      then err (file_not_found_error "events.jsonl")
      else err (value_error "evidence task identity mismatch")
  check_snapshot m (some task) (some es) =
      if not (task.task_id == m.task_id)
      then err (value_error "evidence task identity mismatch")
      else if not (verify_events h.platform es)
      then err (value_error "evidence snapshot event chain is invalid")
      else ok m

  abbrev check_manifest : Package → Option Manifest → Result Manifest
  check_manifest k none = err (file_not_found_error "manifest.json")
  check_manifest k (some m) =
      if not (m.schema_version == "2.0.0")
      then err (value_error "unsupported evidence manifest schema")
      else if not (is_artifact_set m.artifacts)
      then err (value_error "evidence manifest artifact set is invalid")
      else elim (check_artifacts k m.artifacts) [
        | err e ↦ err e
        | ok done ↦ check_snapshot m k.state k.events
      ]

  unfoldable pub verify_evidence_manifest : Package → Result Manifest
  verify_evidence_manifest k = check_manifest k k.manifest

  abbrev pub same_directory : Package → Package → Bool
  same_directory k l = k.evidence_id == l.evidence_id && k.task_id == l.task_id

  -- A directory takes the place of its former self, or stands behind the others.
  unfoldable pub put_package : Package → List Package → List Package
  put_package k [] = k ∷ []
  put_package k (x ∷ xs) =
      let rest = put_package k xs in if same_directory x k then k ∷ xs else x ∷ rest

  unfoldable pub write_package : Package → State W → State W
  write_package k s = record s { packages = put_package k s.packages }

  unfoldable pub manifest_of : String → String → Task → List Event → ℕ → Manifest
  manifest_of task_id evidence_id task log now = record {
    schema_version = "2.0.0";
    evidence_id = evidence_id;
    task_id = task_id;
    repository = task.repository.full_name;
    source_sha = task.source_sha;
    branch = task.branch;
    snapshot_state = task.state;
    artifacts =
        ("state.json", h.platform.sha256 (h.task_text task))
        ∷ ("events.jsonl", h.platform.sha256 (events_text log))
        ∷ [];
    event_chain_valid = verify_events h.platform log;
    generated_at = now;
  }

  -- From package.mkdir on: the directory, its three files one after another, and their test. A task
  -- that has no event has no events.jsonl to copy.
  unfoldable pub write_files : String → String → Task → List Event → Exec (State W) Manifest
  write_files task_id evidence_id task log = do
    let made : Package = record {
      evidence_id = evidence_id;
      task_id = task_id;
      state = none;
      events = none;
      manifest = none;
    }
    fresh ← gets (λ s. not (any (same_directory made) s.packages))
    guard fresh (file_exists_error evidence_id)
    modify (write_package made)
    modify (write_package (record made { state = some task }))
    guard (not (is_empty log)) (file_not_found_error "events.jsonl")
    modify (write_package (record made { state = some task; events = some log }))
    now ← utc_now h
    let manifest = manifest_of task_id evidence_id task log now
    let whole : Package = record made {
      state = some task;
      events = some log;
      manifest = some manifest;
    }
    modify (write_package whole)
    lift (verify_evidence_manifest whole)

  -- _build_evidence; `root` is the directory of the task.
  unfoldable pub build_evidence : String → String → String → Exec (State W) Task
  build_evidence root task_id actor = do
    task ← load h task_id
    log ← events h task_id
    guard (verify_events h.platform log)
        (runtime_error "cannot package evidence from an invalid event chain")
    reading ← gets (λ s. s.readings)
    utc_now h
    manifest ← write_files task_id (h.evidence_id reading) task log
    path ← gets (λ s.
        h.resolve (concat (root ∷ "/evidence/" ∷ manifest.evidence_id ∷ "/manifest.json" ∷ []))
          s.world)
    let reference : EvidenceRef = record {
      evidence_id = manifest.evidence_id;
      path = path;
      sha256 = h.platform.sha256 (concat (h.platform.dumps (manifest_json manifest) ∷ "\n" ∷ []));
    }
    saved ← save h (record task { evidence_manifest = some reference })
    append_event h task_id "evidence_manifest_created" actor (
        obj (
          field "evidence_id" (str reference.evidence_id)
            (field "path" (str reference.path) (field "sha256" (str reference.sha256) end))))
    pure saved

-- All that a run computes with here, under one name.
unfoldable pub evidence_code : Unit {0}
unfolding events_text manifest_json verify_evidence_manifest put_package write_package manifest_of
    write_files build_evidence
evidence_code = tt
