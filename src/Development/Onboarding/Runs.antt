-- ===== src/Development/Onboarding/Runs.antt =====
-- Whole runs of repository onboarding: any methods in any order, each by any actor, with clones, a
-- GitHub and a registry that may change in between.
use agentic_engineering_cont.Prelude.{
  String, ◌≡◌, refl, Bool, true, false, ◌&&◌, Option, none, some, List, [], ◌∷◌, ◌==◌, subst,
  and_right, if◌then◌else◌,
}
use agentic_engineering_cont.Prelude.Platform.{Platform, key_error}
use agentic_engineering_cont.Exec.{Result, ok, err}
use agentic_engineering_cont.Development.Task.{Registry}
use agentic_engineering_cont.Development.Host.{Host}
use agentic_engineering_cont.Development.Log.{verify, verify_from as log_from, passed, same_hash}
use agentic_engineering_cont.Development.Store.{State}
use agentic_engineering_cont.Development.Workspace.{Policy}
use agentic_engineering_cont.Development.Onboarding.Record.{
  active, Metadata, OnboardingEvent, Folder,
}
use agentic_engineering_cont.Development.Onboarding.Store.{
  folder_of, named_hash, recorded_hash, event_digest, verify_from,
}
use agentic_engineering_cont.Development.Onboarding.Controller.{discover, assess, set_contract}
use agentic_engineering_cont.Development.Onboarding.Activation.{
  approve, activate, suspend, resume_onboarding,
}
use agentic_engineering_cont.Development.Onboarding.Duties.{Activated, Duties, FoldersSafe}
use agentic_engineering_cont.Development.Onboarding.Steps.{folder_of-RecordSafe}
use agentic_engineering_cont.Development.Onboarding.Steps.Methods.{
  Onboards-discover, Onboards-assess, Onboards-set_contract, Onboards-approve, Onboards-activate,
  Onboards-suspend, Onboards-resume,
}
use agentic_engineering_cont.Development.Onboarding.Chained.{
  verify_events, Linked, folder_of-Linked, Recorded-discover, Recorded-assess,
  Recorded-set_contract, Recorded-approve, Recorded-activate, Recorded-suspend, Recorded-resume,
}

-- A call of a method of RepositoryOnboardingController, or a change of the world or of the registry
-- from outside.
pub data Onboarding (W : Type 0) : Type 0 where
  discovering : List Metadata → (actor : String) → Onboarding W
  assessing : (root full_name actor : String) → Onboarding W
  replacing : (full_name : String) → List (List String) → (actor : String) → Onboarding W
  approving : (full_name actor confirmation comment : String) → Onboarding W
  activating : (root full_name actor : String) → Onboarding W
  suspending : (name actor confirmation reason : String) → Onboarding W
  resuming : (full_name actor confirmation reason : String) → Onboarding W
  changing_world : W → Onboarding W
  changing_registry : Registry → Onboarding W

abbrev pub no_records : {W : Type 0} → Registry → W → State W
no_records registry w = record {
  entries = [];
  packages = [];
  folders = [];
  registry = registry;
  readings = 0;
  world = w;
}

-- verify_chain's loop finds no fault where each line carries a hash and the chain holds.
chain_holds :
    (p : Platform) (previous : String) (es : List OnboardingEvent)
    → log_from named_hash recorded_hash (event_digest p) previous es ≡ true
    → verify_from p previous es ≡ ok true
unfolding verify_from log_from
chain_holds p previous [] v = refl
chain_holds p previous (e ∷ es) v =
    let (test, rest) = passed _ _ v in
    read_hash e.event_hash test (chain_holds p (event_digest p e) es rest)
  where
    read_hash :
        (o : Option String)
        → ((e.previous_hash == previous) && same_hash o (event_digest p e)) ≡ true
        → {r : Result Bool} → r ≡ ok true
        → (elim o [
          | none ↦ err (key_error "event_hash")
          | some actual ↦
              if (e.previous_hash == previous) && actual == event_digest p e then r else ok false
        ])
          ≡ ok true
    read_hash none test r =
        let no : false ≡ true = and_right (e.previous_hash == previous) false test in cc
    read_hash (some a) test r = rw test r

module _ {W : Type 0} (h : Host W) (policy : Policy) where
  -- The state after a call, whether it returned or raised.
  unfoldable pub perform : State W → Onboarding W → State W
  perform s (discovering repositories actor) = (discover h policy repositories actor s).1
  perform s (assessing root full_name actor) = (assess h policy root full_name actor s).1
  perform s (replacing full_name commands actor) =
      (set_contract h policy full_name commands actor s).1
  perform s (approving full_name actor confirmation comment) =
      (approve h policy full_name actor confirmation comment s).1
  perform s (activating root full_name actor) = (activate h policy root full_name actor s).1
  perform s (suspending name actor confirmation reason) =
      (suspend h policy name actor confirmation reason s).1
  perform s (resuming full_name actor confirmation reason) =
      (resume_onboarding h policy full_name actor confirmation reason s).1
  perform s (changing_world w) = record s { world = w }
  perform s (changing_registry registry) = record s { registry = registry }

  unfoldable pub run : State W → List (Onboarding W) → State W
  unfolding perform
  run s [] = s
  run s (o ∷ os) = run (perform s o) os

  perform-FoldersSafe :
      (s : State W) (o : Onboarding W) → FoldersSafe s.folders → FoldersSafe (perform s o).folders
  unfolding perform
  perform-FoldersSafe s (discovering repositories actor) k =
      (Onboards-discover h policy repositories actor).at s k
  perform-FoldersSafe s (assessing root full_name actor) k =
      (Onboards-assess h policy root full_name actor).at s k
  perform-FoldersSafe s (replacing full_name commands actor) k =
      (Onboards-set_contract h policy full_name commands actor).at s k
  perform-FoldersSafe s (approving full_name actor confirmation comment) k =
      (Onboards-approve h policy full_name actor confirmation comment).at s k
  perform-FoldersSafe s (activating root full_name actor) k =
      (Onboards-activate h policy root full_name actor).at s k
  perform-FoldersSafe s (suspending name actor confirmation reason) k =
      (Onboards-suspend h policy name actor confirmation reason).at s k
  perform-FoldersSafe s (resuming full_name actor confirmation reason) k =
      (Onboards-resume h policy full_name actor confirmation reason).at s k
  perform-FoldersSafe s (changing_world w) k = k
  perform-FoldersSafe s (changing_registry registry) k = k

  run-FoldersSafe :
      (s : State W) (os : List (Onboarding W))
      → FoldersSafe s.folders
      → FoldersSafe (run s os).folders
  unfolding run
  run-FoldersSafe s [] k = k
  run-FoldersSafe s (o ∷ os) k = run-FoldersSafe (perform s o) os (perform-FoldersSafe s o k)

  -- From a state without records, after any methods of RepositoryOnboardingController in any order,
  -- each called by any actor, with any changes of the world and of the registry in between: a
  -- record that is active has an assessment, an approval by somebody else than the assessor, at
  -- least one test command, and a smoke test that passed and was run by somebody else than the
  -- approver.
  pub active-Activated :
      (registry : Registry) (w : W) (os : List (Onboarding W)) (id : String) (f : Folder)
      → folder_of id (run (no_records registry w) os).folders ≡ some f
      → f.entry.state ≡ active
      → Activated f.entry
  active-Activated registry w os id f found is =
      subst (λ s. Duties s f.entry) is
        (folder_of-RecordSafe id (run (no_records registry w) os).folders f
          (run-FoldersSafe (no_records registry w) os tt) found)

  perform-Linked :
      (s : State W) (o : Onboarding W)
      → Linked h.platform s.folders
      → Linked h.platform (perform s o).folders
  unfolding perform
  perform-Linked s (discovering repositories actor) k =
      (Recorded-discover h policy repositories actor).at s k
  perform-Linked s (assessing root full_name actor) k =
      (Recorded-assess h policy root full_name actor).at s k
  perform-Linked s (replacing full_name commands actor) k =
      (Recorded-set_contract h policy full_name commands actor).at s k
  perform-Linked s (approving full_name actor confirmation comment) k =
      (Recorded-approve h policy full_name actor confirmation comment).at s k
  perform-Linked s (activating root full_name actor) k =
      (Recorded-activate h policy root full_name actor).at s k
  perform-Linked s (suspending name actor confirmation reason) k =
      (Recorded-suspend h policy name actor confirmation reason).at s k
  perform-Linked s (resuming full_name actor confirmation reason) k =
      (Recorded-resume h policy full_name actor confirmation reason).at s k
  perform-Linked s (changing_world w) k = k
  perform-Linked s (changing_registry registry) k = k

  run-Linked :
      (s : State W) (os : List (Onboarding W))
      → Linked h.platform s.folders
      → Linked h.platform (run s os).folders
  unfolding run
  run-Linked s [] k = k
  run-Linked s (o ∷ os) k = run-Linked (perform s o) os (perform-Linked s o k)

  -- From a state without records, after any methods of RepositoryOnboardingController in any order,
  -- each called by any actor, with any changes of the world and of the registry in between, also
  -- through methods that raise: the loop of verify_chain returns true on the event log of every
  -- record, and does not raise.
  pub verify_chain-true :
      (registry : Registry) (w : W) (os : List (Onboarding W)) (id : String) (f : Folder)
      → folder_of id (run (no_records registry w) os).folders ≡ some f
      → verify_from h.platform "GENESIS" f.events ≡ ok true
  unfolding verify_events verify
  verify_chain-true registry w os id f found = chain_holds h.platform "GENESIS" f.events (
      folder_of-Linked h.platform id (run (no_records registry w) os).folders f
        (run-Linked (no_records registry w) os tt) found)

-- All that a run computes with here, under one name.
unfoldable pub onboarding_runs_code : Unit {0}
unfolding perform run
onboarding_runs_code = tt
