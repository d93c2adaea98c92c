-- ===== src/Development/Onboarding/Steps/Methods.antt =====
-- The methods of RepositoryOnboardingController, one by one.
use agentic_engineering_cont.Prelude.{
  ℕ, suc, String, ◌≡◌, ◌≢◌, refl, sym, ap, ◌∙◌, subst, Bool, true, false, Option, none, some, List,
  [], ◌∷◌, is_empty, ne_of_==, not-eq_true, contains, lower, or_else, if◌then◌else◌,
}
use agentic_engineering_cont.Exec.{ok, pure, ◌>>=◌}
use agentic_engineering_cont.Exec.Keeps.{
  Any, Keeps-bind, Keeps-pure, Keeps-gets, Keeps-lift, Keeps-modify, Keeps-guard, Keeps-if,
  Keeps-weaken, ok-injective,
}
use agentic_engineering_cont.Development.Task.{Repository, TestResult}
use agentic_engineering_cont.Development.Host.{Host}
use agentic_engineering_cont.Development.Workspace.{Policy}
use agentic_engineering_cont.Development.Registry.{occurs}
use agentic_engineering_cont.Development.Steady.{
  Steady-utc_now, Steady-gets, Steady-lift, Steady-guard, Steady-bind, Steady-run_command,
  Steady-run_tests, steady_rules,
}
use agentic_engineering_cont.Development.Onboarding.Record.{
  OnboardingState, assessment_blocked, awaiting_onboarding_approval, approved, smoke_failed,
  same_state, same_state-eq, Metadata, Assessment, OnboardingApproval, OnboardingRecord,
}
use agentic_engineering_cont.Development.Onboarding.Store.{exists, load}
use agentic_engineering_cont.Development.Onboarding.Detect.{
  Detected, detect_contract, python_contract, node_contract, imports_pytest,
}
use agentic_engineering_cont.Development.Onboarding.Controller.{
  Discovery, merged, new_record, update_record, add_record, discover_one, discover_all, discover,
  clear_assessment, clone_for_assessment, assessed, assess, may_replace, check_commands,
  set_contract,
}
use agentic_engineering_cont.Development.Onboarding.Activation.{
  assessment_of, approval_of, approve, fail_smoke, write_overlay, pass_smoke, finish_smoke,
  activate, make_record, suspend, resume_onboarding,
}
use agentic_engineering_cont.Development.Onboarding.Duties.{
  Assessed, Approved, Duties, RecordSafe, FoldersSafe, Assessed-of, Awaiting-of, Approved-of,
  Duties-of,
}
use agentic_engineering_cont.Development.Onboarding.Steps.{
  Onboards, Still, Onboards-load, Onboards-save, Onboards-append_event, Onboards-record,
}

module _ {W : Type 0} (h : Host W) where
  Still-imports :
      (workspace : String) (files : List String) → Still h (imports_pytest h workspace files)
  unfolding imports_pytest
  Still-imports workspace [] = search steady_rules
  Still-imports workspace (f ∷ files) = Steady-bind h _ _ _ (Steady-gets h _ _) λ read.
      Steady-bind h _ _ _ (Steady-lift h _ _) λ content.
        Keeps-if (occurs "import pytest" content) (pure true) (imports_pytest h workspace files)
          (λ _. Keeps-pure true tt) (λ _. Still-imports workspace files)

  Still-detect : (workspace : String) → Still h (detect_contract h workspace)
  unfolding detect_contract python_contract node_contract
  Still-detect workspace = search (steady_rules, Still-imports) depth 12

  -- A method's reading of a state name.
  in_state :
      (r : OnboardingRecord) (s : OnboardingState)
      → RecordSafe r
      → same_state r.state s ≡ true
      → Duties s r
  in_state r s d is = subst (λ x. Duties x r) (same_state-eq r.state s is) d

module _ {W : Type 0} (h : Host W) (policy : Policy) where
  Onboards-update : (m : Metadata) → Onboards h (update_record h policy m) Any
  unfolding update_record
  Onboards-update m = Keeps-bind _ _ (Onboards-load h _) λ r d.
      Keeps-weaken _
        (Onboards-save h (record r { metadata = merged r.metadata m })
          λ now.
            Duties-of r.state r _ (record { assessment = refl; approval = refl; commands = refl })
              refl d)
        λ q _. tt

  Onboards-add : (m : Metadata) (actor : String) → Onboards h (add_record h policy m actor) Any
  unfolding add_record new_record
  Onboards-add m actor = Keeps-bind _ _ (Steady-utc_now h (λ _ fs. FoldersSafe fs)) λ now _.
      Keeps-bind _ _ (Onboards-save h _ λ at. tt)
        λ saved _. Keeps-bind _ _ (Onboards-append_event h _ _ _ _) λ _ _. Keeps-pure saved tt

  Onboards-discover_one :
      (m : Metadata) (actor : String) (d : Discovery)
      → Onboards h (discover_one h policy m actor d) Any
  unfolding discover_one exists
  Onboards-discover_one m actor d = Keeps-bind _ _ (Keeps-gets {Q = Any} _ λ s k. tt) λ known _.
      Keeps-bind _ _
        (Keeps-if known (update_record h policy m) (add_record h policy m actor)
          (λ _. Onboards-update m) (λ _. Onboards-add m actor))
        λ r _. Keeps-pure _ tt

  Onboards-discover_all :
      (names : List String) (ms : List Metadata) (actor : String) (d : Discovery)
      → Onboards h (discover_all h policy names ms actor d) Any
  unfolding discover_all
  Onboards-discover_all names [] actor d = Keeps-pure d tt
  Onboards-discover_all names (m ∷ ms) actor d =
      let ignored = record d { ignored = suc d.ignored } in
      let existing = record d { existing = suc d.existing } in
      let visited =
        Keeps-bind (discover_one h policy m actor d) (discover_all h policy names ms actor)
          (Onboards-discover_one m actor d) (λ next _. Onboards-discover_all names ms actor next) in
      Keeps-if _ (discover_all h policy names ms actor ignored) _
        (λ _. Onboards-discover_all names ms actor ignored)
        λ _.
          Keeps-if (contains names (lower m.full_name))
            (discover_all h policy names ms actor existing)
            (discover_one h policy m actor d >>= discover_all h policy names ms actor)
            (λ _. Onboards-discover_all names ms actor existing) (λ _. visited)

  pub Onboards-discover :
      (ms : List Metadata) (actor : String) → Onboards h (discover h policy ms actor) Any
  unfolding discover
  Onboards-discover ms actor =
      Keeps-bind _ _ (Keeps-gets {Q = Any} _ λ s k. tt)
        λ registered _. Onboards-discover_all _ ms actor _

  Still-clone :
      (root : String) (r : OnboardingRecord) → Still h (clone_for_assessment h policy root r)
  unfolding clone_for_assessment clear_assessment ◌>>=◌
  Still-clone root r = search (steady_rules, Steady-run_command) depth 16

  decided :
      (q : OnboardingRecord) (a : Assessment) (commands : List (List String))
      → q.assessment ≡ some a
      → q.proposed_test_commands ≡ commands
      → Duties (if is_empty commands then assessment_blocked else awaiting_onboarding_approval) q
  decided q a [] is same = record { assessment = a; is_assessment = is }
  decided q a (c ∷ cs) is same = record {
    assessed = record { assessment = a; is_assessment = is };
    has_contract = rw same refl;
  }

  assessed-safe :
      (r : OnboardingRecord) (actor sha workspace : String) (d : Detected) (now at : ℕ)
      → RecordSafe (record (assessed h policy r actor sha workspace d now) { updated_at = at })
  unfolding assessed
  assessed-safe r actor sha workspace d now at = decided _ _ d.commands refl refl

  pub Onboards-assess :
      (root full_name actor : String) → Onboards h (assess h policy root full_name actor) Any
  unfolding assess
  Onboards-assess root full_name actor = Keeps-bind _ _ (Onboards-load h full_name) λ r safe.
      Keeps-bind _ _ (Keeps-guard _ _) λ _ _. Keeps-bind _ _ (Still-clone root r) λ workspace _.
        Keeps-bind _ _ (Steady-run_command h _ _ _ _) λ head _.
          Keeps-bind _ _ (Still-detect h workspace) λ d _.
            Keeps-bind _ _ (Steady-gets h _ _) λ resolved _.
              Keeps-bind _ _ (Steady-utc_now h _) λ now _.
                Onboards-record h _ full_name _ actor _
                  λ at. assessed-safe r actor _ resolved d now at

  replaceable :
      (s : OnboardingState) (r : OnboardingRecord)
      → may_replace h policy s ≡ true
      → Duties s r
      → Assessed r
  unfolding may_replace
  replaceable assessment_blocked r may d = d
  replaceable awaiting_onboarding_approval r may d = d.assessed
  replaceable smoke_failed r may d = d
  replaceable _ r may d = cc

  Still-check : (commands : List (List String)) → Still h (check_commands h policy commands)
  unfolding check_commands
  Still-check [] = search steady_rules
  Still-check (argv ∷ rest) = Steady-bind h _ _ _ (Steady-lift h _ _) λ _. Still-check rest

  pub Onboards-set_contract :
      (full_name : String) (commands : List (List String)) (actor : String)
      → Onboards h (set_contract h policy full_name commands actor) Any
  unfolding set_contract
  Onboards-set_contract full_name commands actor =
      Keeps-bind _ _ (Onboards-load h full_name) λ r safe. Keeps-bind _ _ (Keeps-guard _ _) λ _ may.
        Keeps-bind _ _ (Keeps-guard _ _) λ _ some_command.
          Keeps-bind _ _ (Still-check commands) λ _ _. Onboards-record h _ full_name _ actor _ λ at.
            record {
              assessed = Assessed-of r _ refl (replaceable r.state r may safe);
              has_contract = not-eq_true _ some_command;
            }

  assessment-is : (o : Option Assessment) (a : Assessment) → assessment_of o ≡ ok a → o ≡ some a
  assessment-is none a e = cc
  assessment-is (some b) a e = ap some (ok-injective e)

  approval-is :
      (o : Option OnboardingApproval) (a : OnboardingApproval) → approval_of o ≡ ok a → o ≡ some a
  approval-is none a e = cc
  approval-is (some b) a e = ap some (ok-injective e)

  pub Onboards-approve :
      (full_name actor confirmation comment : String)
      → Onboards h (approve h policy full_name actor confirmation comment) Any
  unfolding approve
  Onboards-approve full_name actor confirmation comment =
      Keeps-bind _ _ (Onboards-load h full_name) λ r safe. Keeps-bind _ _ (Keeps-guard _ _) λ _ is.
        Keeps-bind _ _ (Keeps-lift _ λ a e. assessment-is r.assessment a e) λ a assessed_by.
          Keeps-bind _ _ (Keeps-guard _ _) λ _ other. Keeps-bind _ _ (Keeps-guard _ _) λ _ _.
            Keeps-bind _ _ (Steady-utc_now h _) λ now _.
              let before = in_state h r awaiting_onboarding_approval safe is in
              Onboards-record h _ full_name _ actor _ λ at. record {
                awaiting = record {
                  assessed = record { assessment = a; is_assessment = assessed_by };
                  has_contract = before.has_contract;
                };
                approval = _;
                is_approval = refl;
                not_assessor = ne_of_== actor a.actor (not-eq_true _ other);
              }

  Still-overlay : (r : Repository) → Still h (write_overlay h policy r)
  unfolding write_overlay
  Still-overlay r = Keeps-bind _ _ (Keeps-gets {Q = Any} _ λ s k. tt) λ outcome _.
      Keeps-bind _ _ (Keeps-lift {Q = Any} _ λ a k. tt) λ registry _. Keeps-modify _ λ s k. k

  Onboards-finish :
      (r : OnboardingRecord) (a : Assessment) (full_name actor : String)
      (outcome : Bool × List TestResult)
      → (agreed : Approved r) → actor ≢ agreed.approval.actor
      → Onboards h (finish_smoke h policy r a full_name actor outcome) Any
  unfolding finish_smoke pass_smoke fail_smoke Approved-of Awaiting-of Assessed-of
  Onboards-finish r a full_name actor (true, results) agreed other =
      Keeps-bind _ _ (Steady-utc_now h _) λ now _. Keeps-bind _ _ (Steady-lift h _ _) λ url _.
        Keeps-bind _ _ (Steady-lift h _ _) λ branch _. Keeps-bind _ _ (Still-overlay _) λ _ _.
          Onboards-record h _ full_name _ actor _ λ at. record {
            agreed =
                Approved-of r _ (record { assessment = refl; approval = refl; commands = refl })
                  agreed;
            smoke = _;
            is_smoke = refl;
            has_passed = refl;
            not_approver = other;
          }
  Onboards-finish r a full_name actor (false, results) agreed other =
      Keeps-bind _ _ (Steady-utc_now h _) λ now _.
        Onboards-record h _ full_name _ actor _ λ at. Assessed-of r _ refl agreed.awaiting.assessed

  some-injective : {A : Type 0} {a b : A} → some a ≡ some b → a ≡ b
  some-injective {a = a} e = ap (λ o. or_else o a) e

  pub Onboards-activate :
      (root full_name actor : String) → Onboards h (activate h policy root full_name actor) Any
  unfolding activate
  Onboards-activate root full_name actor = Keeps-bind _ _ (Onboards-load h full_name) λ r safe.
      Keeps-bind _ _ (Keeps-guard _ _) λ _ is.
        Keeps-bind _ _ (Keeps-lift _ λ a e. approval-is r.approval a e) λ approval given.
          Keeps-bind _ _ (Keeps-guard _ _) λ _ other. Keeps-bind _ _ (Steady-lift h _ _) λ a _.
            Keeps-bind _ _ (Steady-lift h _ _) λ branch _.
              Keeps-bind _ _ (Steady-run_command h _ _ _ _) λ remote _.
                Keeps-bind _ _ (Steady-guard h _ _ _) λ _ _.
                  Keeps-bind _ _ (Steady-run_tests h _ policy _ _ _) λ outcome _.
                    let agreed = in_state h r approved safe is in
                    let same : approval ≡ agreed.approval =
                      some-injective (sym given ∙ agreed.is_approval) in
                    Onboards-finish r a full_name actor outcome agreed λ e.
                      ne_of_== actor approval.actor (not-eq_true _ other)
                        (e ∙ ap (λ x. x.actor) (sym same))

  Onboards-make : (r : Repository) → Still h (make_record h policy r)
  unfolding make_record
  Onboards-make r = Keeps-bind _ _ (Steady-utc_now h _) λ now _. Keeps-pure _ tt

  pub Onboards-suspend :
      (name actor confirmation reason : String)
      → Onboards h (suspend h policy name actor confirmation reason) Any
  unfolding suspend exists
  Onboards-suspend name actor confirmation reason =
      Keeps-bind _ _ (Keeps-gets {Q = Any} _ λ s k. tt) λ found _.
        Keeps-bind _ _ (Steady-lift h _ _) λ repository _. Keeps-bind _ _ (Keeps-guard _ _) λ _ _.
          Keeps-bind _ _ (Still-overlay _) λ _ _.
            Keeps-bind _ _ (Keeps-gets {Q = Any} _ λ s k. tt) λ known _.
              Keeps-bind _ _
                (Keeps-if known (load h repository.full_name) (make_record h policy repository)
                  (λ _. Keeps-weaken _ (Onboards-load h _) λ r _. tt)
                  (λ _. Onboards-make repository))
                λ r _.
                  Keeps-bind _ _ (Steady-utc_now h _)
                    λ now _. Onboards-record h _ repository.full_name _ actor _ λ at. tt

  pub Onboards-resume :
      (full_name actor confirmation reason : String)
      → Onboards h (resume_onboarding h policy full_name actor confirmation reason) Any
  unfolding resume_onboarding
  Onboards-resume full_name actor confirmation reason =
      Keeps-bind _ _ (Onboards-load h full_name) λ r safe. Keeps-bind _ _ (Keeps-guard _ _) λ _ _.
        Keeps-bind _ _ (Keeps-guard _ _) λ _ _. Onboards-record h _ full_name _ actor _ λ at. tt
