-- ===== src/Development/Onboarding/Steps.antt =====
-- Each method of RepositoryOnboardingController keeps the duties of all records.
pub mod Methods
use agentic_engineering_cont.Prelude.{
  ℕ, String, ◌≡◌, ◌≢◌, refl, sym, ap, ◌∙◌, subst, Bool, true, false, not, ◌&&◌, ◌||◌, Option, none,
  some, List, [], ◌∷◌, ◌++◌, ◌==◌, find, is_empty, Bool-cases, inl, inr, ne_of_==, not-eq_true, All,
  contains, lower, split_first, arith, if◌then◌else◌,
}
use agentic_engineering_cont.Prelude.Platform.{Json}
use agentic_engineering_cont.Exec.{
  Result, ok, err, Exec, pure, lift, gets, modify, guard, ◌>>=◌, ◌>>◌,
}
use agentic_engineering_cont.Exec.Keeps.{
  Keeps, Any, Keeps-bind, Keeps-pure, Keeps-gets, Keeps-lift, Keeps-modify, Keeps-guard, Keeps-if,
  Keeps-weaken, ok-injective,
}
use agentic_engineering_cont.Development.Task.{Repository, TestResult}
use agentic_engineering_cont.Development.Host.{Host}
use agentic_engineering_cont.Development.Store.{State, utc_now}
use agentic_engineering_cont.Development.Workspace.{Policy}
use agentic_engineering_cont.Development.Steady.{
  Steady, Steady-utc_now, Steady-gets, Steady-lift, Steady-guard, Steady-bind, Steady-pure,
  Steady-run_command, Steady-run_tests, steady_rules,
}
use agentic_engineering_cont.Development.Onboarding.Record.{
  OnboardingState, discovered, assessment_blocked, awaiting_onboarding_approval, approved,
  smoke_failed, active, suspended, same_state, same_state-eq, Metadata, Assessment,
  OnboardingApproval, OnboardingRecord, OnboardingEvent, Folder,
}
use agentic_engineering_cont.Development.Onboarding.Store.{
  onboarding_id, folder_of, found_record, put_record, put_event, exists, load, write_record, save,
  write_event, append_event,
}
use agentic_engineering_cont.Development.Onboarding.Detect.{
  Detected, Contract, detect_contract, python_contract, node_contract, imports_pytest,
}
use agentic_engineering_cont.Development.Onboarding.Duties.{
  Assessed, Awaiting, Approved, Activated, Duties, RecordSafe, FoldersSafe, Agrees, Assessed-of,
  Approved-of, Duties-of,
}

chosen :
    (b : Bool) (xs ys : List Folder)
    → FoldersSafe xs
    → FoldersSafe ys
    → FoldersSafe (if b then xs else ys)
chosen true xs ys hx hy = hx
chosen false xs ys hx hy = hy

put_record-FoldersSafe :
    (id : String) (r : OnboardingRecord) (fs : List Folder)
    → RecordSafe r
    → FoldersSafe fs
    → FoldersSafe (put_record id r fs)
unfolding put_record
put_record-FoldersSafe id r [] d k = (d, tt)
put_record-FoldersSafe id r (f ∷ fs) d k =
    chosen _ (record f { entry = r } ∷ fs) (f ∷ put_record id r fs) (d, k.1)
      (k.0, put_record-FoldersSafe id r fs d k.1)

put_event-FoldersSafe :
    (id : String) (event : OnboardingEvent) (fs : List Folder)
    → FoldersSafe fs
    → FoldersSafe (put_event id event fs)
unfolding put_event
put_event-FoldersSafe id event [] k = tt
put_event-FoldersSafe id event (f ∷ fs) k =
    chosen _ (record f { events = f.events ++ event ∷ [] } ∷ fs) (f ∷ put_event id event fs) k
      (k.0, put_event-FoldersSafe id event fs k.1)

pub folder_of-RecordSafe :
    (id : String) (fs : List Folder) (f : Folder)
    → FoldersSafe fs
    → folder_of id fs ≡ some f
    → RecordSafe f.entry
folder_of-RecordSafe id [] f k found = cc
folder_of-RecordSafe id (x ∷ fs) f k found = elim (Bool-cases (x.onboarding_id == id)) [
  | inl here ↦
      let same : some x ≡ some f = rw here at found in
      subst (λ (o : Option Folder). Holds o) same k.0
  | inr other ↦ folder_of-RecordSafe id fs f k.1 (rw other at found)
]
  where
    Holds : Option Folder → Type 0
    Holds none = Unit
    Holds (some y) = RecordSafe y.entry

found_record-RecordSafe :
    (full_name : String) (o : Option Folder) (r : OnboardingRecord)
    → ((f : Folder) → o ≡ some f → RecordSafe f.entry)
    → found_record full_name o ≡ ok r
    → RecordSafe r
found_record-RecordSafe full_name none r k h = cc
found_record-RecordSafe full_name (some f) r k h = subst RecordSafe (ok-injective h) (k f refl)

module _ {W : Type 0} (h : Host W) where
  -- `m` keeps the duties of all records, and a value that it returns has `Q`.
  abbrev pub Onboards : {A : Type 0} → Exec (State W) A → (A → Type 0) → Type 0
  Onboards m Q = Keeps (λ s. FoldersSafe s.folders) m Q

  abbrev pub Still : {A : Type 0} → Exec (State W) A → Type 0
  Still m = Steady h (λ _ fs. FoldersSafe fs) m

  pub Onboards-load : (full_name : String) → Onboards (load h full_name) RecordSafe
  unfolding load
  Onboards-load full_name =
      Keeps-bind _ _
        (Keeps-gets {Q = λ o. (f : Folder) → o ≡ some f → RecordSafe f.entry} _
          λ s k f is. folder_of-RecordSafe _ s.folders f k is)
        λ found k. Keeps-lift _ λ r is. found_record-RecordSafe full_name found r k is

  pub Onboards-save :
      (r : OnboardingRecord)
      → ((now : ℕ) → RecordSafe (record r { updated_at = now }))
      → Onboards (save h r) RecordSafe
  unfolding save write_record
  Onboards-save r d = Keeps-bind _ _ (Keeps-gets {Q = Any} _ λ s k. tt) λ current _.
      Keeps-bind _ _ (Keeps-guard _ _) λ _ _.
        Keeps-bind _ _ (Steady-utc_now h (λ _ fs. FoldersSafe fs)) λ now _.
          Keeps-bind _ _ (Keeps-modify _ λ s k. put_record-FoldersSafe _ _ s.folders (d now) k)
            λ _ _. Keeps-pure _ (d now)

  pub Onboards-append_event :
      (full_name type actor : String) (payload : Json)
      → Still (append_event h full_name type actor payload)
  unfolding append_event write_event
  Onboards-append_event full_name type actor payload =
      Keeps-bind _ _ (Keeps-gets {Q = Any} _ λ s k. tt) λ found _.
        Keeps-bind _ _ (Keeps-lift {Q = Any} _ λ a k. tt) λ f _.
          Keeps-bind _ _ (Keeps-lift {Q = Any} _ λ a k. tt) λ previous _.
            Keeps-bind _ _ (Steady-utc_now h (λ _ fs. FoldersSafe fs))
              λ now _. Keeps-modify _ λ s k. put_event-FoldersSafe _ _ s.folders k

  -- The end of a method: the record is written, and then its event.
  pub Onboards-record :
      (r : OnboardingRecord) (full_name type actor : String) (payload : OnboardingRecord → Json)
      → ((now : ℕ) → RecordSafe (record r { updated_at = now }))
      → Onboards
          (do saved ← save h r; append_event h full_name type actor (payload saved); pure saved)
          Any
  Onboards-record r full_name type actor payload d = Keeps-bind _ _ (Onboards-save r d) λ saved _.
      Keeps-bind _ _ (Onboards-append_event full_name type actor (payload saved))
        λ _ _. Keeps-pure saved tt
