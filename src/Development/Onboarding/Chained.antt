-- ===== src/Development/Onboarding/Chained.antt =====
-- Every method of RepositoryOnboardingController keeps the hash chain of each event log.
use agentic_engineering_cont.Prelude.{
  ℕ, String, ◌≡◌, refl, sym, ap, ◌∙◌, subst, Bool, true, false, Option, none, some, List, [], ◌∷◌,
  ◌++◌, ◌==◌, last, All, Bool-cases, inl, inr, if◌then◌else◌,
}
use agentic_engineering_cont.Prelude.Platform.{Platform, Json}
use agentic_engineering_cont.Exec.{ok, Exec, exec_code, pure, gets, modify, ◌>>=◌}
use agentic_engineering_cont.Exec.Keeps.{
  Keeps, Any, Keeps-bind, Keeps-lift, Keeps-gets, Keeps-modify, ok-injective,
}
use agentic_engineering_cont.Exec.Triple.{
  Triple, Triple-bind, Triple-after, Triple-modify, Keeps-Triple,
}
use agentic_engineering_cont.Development.Task.{Repository, TestResult}
use agentic_engineering_cont.Development.Host.{Host}
use agentic_engineering_cont.Development.Log.{verify, verify-append, previous_of}
use agentic_engineering_cont.Development.Store.{State, utc_now}
use agentic_engineering_cont.Development.Workspace.{Policy}
use agentic_engineering_cont.Development.Steady.{
  Steady, Steady-run_command, Steady-run_tests, Steady-bind, Steady-if, Steady-gets, Steady-lift,
  Steady-pure, steady_rules,
}
use agentic_engineering_cont.Development.Registry.{occurs}
use agentic_engineering_cont.Development.Onboarding.Record.{
  OnboardingRecord, OnboardingEvent, Folder, Metadata, Assessment,
}
use agentic_engineering_cont.Development.Onboarding.Store.{
  onboarding_id, folder_of, found_folder, put_record, put_event, named_hash, recorded_hash,
  event_digest, exists, load, write_record, save, new_event, write_event, append_event,
}
use agentic_engineering_cont.Development.Onboarding.Detect.{
  detect_contract, python_contract, node_contract, imports_pytest,
}
use agentic_engineering_cont.Development.Onboarding.Controller.{
  Discovery, update_record, add_record, discover_one, discover_all, discover, clear_assessment,
  clone_for_assessment, assess, check_commands, set_contract,
}
use agentic_engineering_cont.Development.Onboarding.Activation.{
  approve, fail_smoke, write_overlay, pass_smoke, finish_smoke, activate, make_record, suspend,
  resume_onboarding,
}

module _ (p : Platform) where
  -- The test of verify_chain, for lines that all carry a hash.
  unfoldable pub verify_events : List OnboardingEvent → Bool
  verify_events es = verify named_hash recorded_hash (event_digest p) es

  abbrev pub Linked : List Folder → Type 0
  Linked fs = All (λ f. verify_events f.events ≡ true) fs

  chosen : (b : Bool) (xs ys : List Folder) → Linked xs → Linked ys → Linked (if b then xs else ys)
  chosen true xs ys hx hy = hx
  chosen false xs ys hx hy = hy

  pub put_record-Linked :
      (id : String) (r : OnboardingRecord) (fs : List Folder)
      → Linked fs
      → Linked (put_record id r fs)
  unfolding put_record verify_events verify
  put_record-Linked id r [] k = (refl, tt)
  put_record-Linked id r (f ∷ fs) k =
      chosen _ (record f { entry = r } ∷ fs) (f ∷ put_record id r fs) k
        (k.0, put_record-Linked id r fs k.1)

  pub put_event-Linked :
      (id : String) (event : OnboardingEvent) (fs : List Folder) (f : Folder)
      → Linked fs
      → folder_of id fs ≡ some f
      → verify_events (f.events ++ event ∷ []) ≡ true
      → Linked (put_event id event fs)
  unfolding put_event
  put_event-Linked id event [] f k found v = tt
  put_event-Linked id event (x ∷ fs) f k found v = elim (Bool-cases (x.onboarding_id == id)) [
    | inl here ↦
        let same : some x ≡ some f = rw here at found in
        rw here (subst (λ (o : Option Folder). extended o) (sym same) v, k.1)
    | inr other ↦ rw other (k.0, put_event-Linked id event fs f k.1 (rw other at found) v)
  ]
    where
      extended : Option Folder → Type 0
      extended none = Unit
      extended (some y) = verify_events (y.events ++ event ∷ []) ≡ true

  pub folder_of-Linked :
      (id : String) (fs : List Folder) (f : Folder)
      → Linked fs
      → folder_of id fs ≡ some f
      → verify_events f.events ≡ true
  folder_of-Linked id [] f k found = cc
  folder_of-Linked id (x ∷ fs) f k found = elim (Bool-cases (x.onboarding_id == id)) [
    | inl here ↦ let same : some x ≡ some f = rw here at found in cc
    | inr other ↦ folder_of-Linked id fs f k.1 (rw other at found)
  ]

module _ {W : Type 0} (h : Host W) where
  abbrev pub Recorded : {A : Type 0} → Exec (State W) A → Type 0
  Recorded m = Steady h (λ _ fs. Linked h.platform fs) m

  abbrev Found : String → Option Folder → State W → Type 0
  Found id found s = Linked h.platform s.folders × (folder_of id s.folders ≡ found)

  found-some : (o : Option Folder) (f : Folder) → found_folder o ≡ ok f → o ≡ some f
  found-some none f k = cc
  found-some (some x) f k = ap some (ok-injective k)

  looking_up :
      (id : String)
      → Triple
          (λ s. Linked h.platform s.folders)
          (gets (λ s. folder_of id s.folders))
          (Found id)
          (λ s. Linked h.platform s.folders)
  unfolding exec_code
  looking_up id = record { returns = λ s k f is. (k, ok-injective is); raises = λ s k x is. k }

  reading : (id : String) (found : Option Folder) → Keeps (Found id found) (utc_now h) Any
  unfolding utc_now
  reading id found = record { at = λ s k. k; gives = λ s k a x. tt }

  new_event-Linked :
      (full_name type actor previous : String) (payload : Json) (now : ℕ)
      (es : List OnboardingEvent)
      → verify_events h.platform es ≡ true
      → previous_of named_hash recorded_hash (event_digest h.platform) (last es) ≡ ok previous
      → verify_events h.platform (es ++ new_event h full_name type actor payload previous now ∷ [])
        ≡ true
  unfolding verify_events new_event event_digest
  new_event-Linked full_name type actor previous payload now es v l =
      verify-append named_hash recorded_hash (event_digest h.platform) es
        (new_event h full_name type actor payload previous now) v l refl

  Recorded-load : (full_name : String) → Recorded (load h full_name)
  unfolding load
  Recorded-load full_name = search steady_rules

  Recorded-exists : (full_name : String) → Recorded (exists h full_name)
  unfolding exists
  Recorded-exists full_name = search steady_rules

  Recorded-write : (id : String) (r : OnboardingRecord) → Recorded (modify (write_record h id r))
  unfolding write_record
  Recorded-write id r = Keeps-modify _ λ s k. put_record-Linked h.platform id r s.folders k

  Recorded-save : (r : OnboardingRecord) → Recorded (save h r)
  unfolding save
  Recorded-save r = search (steady_rules, Recorded-write) depth 10

  Recorded-append_event :
      (full_name type actor : String) (payload : Json)
      → Recorded (append_event h full_name type actor payload)
  unfolding append_event write_event
  Recorded-append_event full_name type actor payload =
      let id = onboarding_id h.platform full_name in
      Keeps-Triple _ (
        Triple-bind _ _ (looking_up id) λ found.
          Triple-after _ _ (Keeps-lift {P = Found id found} _ λ f is. is) (λ s k. k.0)
            λ f is.
              Triple-after _ _ (Keeps-lift {P = Found id found} _ λ previous l. l) (λ s k. k.0)
                λ previous l.
                  Triple-after _ _ (reading id found) (λ s k. k.0)
                    λ now _. Triple-modify _ λ s k.
                      let there = k.1 ∙ found-some found f is in
                      (
                        put_event-Linked h.platform id _ s.folders f k.0 there (
                            new_event-Linked full_name type actor previous payload now f.events
                              (folder_of-Linked h.platform id s.folders f k.0 there) l),
                        tt,
                      ))

ruleset recorded_rules =
    (steady_rules, Recorded-load, Recorded-exists, Recorded-save, Recorded-append_event)

module _ {W : Type 0} (h : Host W) (policy : Policy) where
  Recorded-imports :
      (workspace : String) (files : List String) → Recorded h (imports_pytest h workspace files)
  unfolding imports_pytest
  Recorded-imports workspace [] = search steady_rules
  Recorded-imports workspace (f ∷ files) = Steady-bind h _ _ _ (Steady-gets h _ _) λ read.
      Steady-bind h _ _ _ (Steady-lift h _ _) λ content.
        Steady-if h _ (occurs "import pytest" content) (pure true)
          (imports_pytest h workspace files) (Steady-pure h _ true)
          (Recorded-imports workspace files)

  Recorded-detect : (workspace : String) → Recorded h (detect_contract h workspace)
  unfolding detect_contract python_contract node_contract
  Recorded-detect workspace = search (steady_rules, Recorded-imports) depth 12

  Recorded-discover_one :
      (m : Metadata) (actor : String) (d : Discovery) → Recorded h (discover_one h policy m actor d)
  unfolding discover_one update_record add_record
  Recorded-discover_one m actor d = search recorded_rules depth 12

  Recorded-discover_all :
      (names : List String) (ms : List Metadata) (actor : String) (d : Discovery)
      → Recorded h (discover_all h policy names ms actor d)
  unfolding discover_all
  Recorded-discover_all names [] actor d = search steady_rules
  Recorded-discover_all names (m ∷ ms) actor d =
      search (steady_rules, Recorded-discover_one, Recorded-discover_all names ms actor) depth 8

  pub Recorded-discover :
      (ms : List Metadata) (actor : String) → Recorded h (discover h policy ms actor)
  unfolding discover
  Recorded-discover ms actor = search (steady_rules, Recorded-discover_all)

  Recorded-clone :
      (root : String) (r : OnboardingRecord) → Recorded h (clone_for_assessment h policy root r)
  unfolding clone_for_assessment clear_assessment ◌>>=◌
  Recorded-clone root r = search (steady_rules, Steady-run_command) depth 16

  pub Recorded-assess :
      (root full_name actor : String) → Recorded h (assess h policy root full_name actor)
  unfolding assess
  Recorded-assess root full_name actor =
      search (recorded_rules, Recorded-clone, Steady-run_command, Recorded-detect) depth 20

  Recorded-check : (commands : List (List String)) → Recorded h (check_commands h policy commands)
  unfolding check_commands
  Recorded-check [] = search steady_rules
  Recorded-check (argv ∷ rest) = Steady-bind h _ _ _ (Steady-lift h _ _) λ _. Recorded-check rest

  pub Recorded-set_contract :
      (full_name : String) (commands : List (List String)) (actor : String)
      → Recorded h (set_contract h policy full_name commands actor)
  unfolding set_contract
  Recorded-set_contract full_name commands actor = search (recorded_rules, Recorded-check) depth 14

  pub Recorded-approve :
      (full_name actor confirmation comment : String)
      → Recorded h (approve h policy full_name actor confirmation comment)
  unfolding approve
  Recorded-approve full_name actor confirmation comment = search recorded_rules depth 18

  Recorded-overlay : (r : Repository) → Recorded h (write_overlay h policy r)
  unfolding write_overlay
  Recorded-overlay r = Keeps-bind _ _ (Keeps-gets {Q = Any} _ λ s k. tt) λ outcome _.
      Keeps-bind _ _ (Keeps-lift {Q = Any} _ λ a k. tt) λ registry _. Keeps-modify _ λ s k. k

  Recorded-finish :
      (r : OnboardingRecord) (a : Assessment) (full_name actor : String)
      (outcome : Bool × List TestResult)
      → Recorded h (finish_smoke h policy r a full_name actor outcome)
  unfolding finish_smoke pass_smoke fail_smoke
  Recorded-finish r a full_name actor (passed, results) =
      search (recorded_rules, Recorded-overlay) depth 14

  pub Recorded-activate :
      (root full_name actor : String) → Recorded h (activate h policy root full_name actor)
  unfolding activate
  Recorded-activate root full_name actor =
      search (recorded_rules, Steady-run_command, Steady-run_tests, Recorded-finish) depth 24

  pub Recorded-suspend :
      (name actor confirmation reason : String)
      → Recorded h (suspend h policy name actor confirmation reason)
  unfolding suspend make_record
  Recorded-suspend name actor confirmation reason =
      search (recorded_rules, Recorded-overlay) depth 22

  pub Recorded-resume :
      (full_name actor confirmation reason : String)
      → Recorded h (resume_onboarding h policy full_name actor confirmation reason)
  unfolding resume_onboarding
  Recorded-resume full_name actor confirmation reason = search recorded_rules depth 14
