-- ===== src/Development/Steps.antt =====
-- Each method of DevelopmentController keeps the invariant of the tasks.
use agentic_engineering_cont.Prelude.{
  ℕ, suc, ◌≤◌, String, ◌≡◌, ◌≢◌, refl, sym, ◌∙◌, subst, Bool, true, false, Option, some, List, [],
  ◌∷◌, is_empty, leb, arith, not-eq_true, ne_of_==, ==_symm,
}
use agentic_engineering_cont.Exec.{Exec}
use agentic_engineering_cont.Exec.Keeps.{
  Keeps, Any, Keeps-bind, Keeps-pure, Keeps-guard, Keeps-if, Keeps-weaken,
}
use agentic_engineering_cont.Development.Task.{
  TaskState, planned, workspace_ready, changes_applied, tests_passed, tests_failed, review_passed,
  review_failed, awaiting_publish_approval, publish_approved, published, merged_verified,
  manual_review, cancelled, same_state, same_state-eq, may_move, transitions, Repository,
  TestResult, Metrics, Task,
}
use agentic_engineering_cont.Development.Host.{Host}
use agentic_engineering_cont.Development.Store.{State, transition}
use agentic_engineering_cont.Development.Workspace.{Policy}
use agentic_engineering_cont.Development.Controller.{
  unchanged, start, new_task, plan, cancel, prepare, apply_changes, apply_set,
}
use agentic_engineering_cont.Development.Gates.{
  is_actor, test, run_contract, after_tests, review, conclude, offer, approve_publish, publish,
  verify_merge,
}
use agentic_engineering_cont.Development.Evidence.{build_evidence}
use agentic_engineering_cont.Development.Duties.{
  Coded, Tested, Reviewed, Released, Duties, TaskSafe, TasksSafe,
}
use agentic_engineering_cont.Development.Steady.{
  Steady-utc_now, Steady-in_world, Steady-run_command, Steady-untracked, Steady-diff_metrics,
  Steady-budget, Steady-binary_diff, Steady-change_digest, Steady-run_tests,
  Steady-apply_operations, Steady-clear_workspace, Steady-read_all, Steady-push, Steady-write_files,
  Steady-gets, Steady-lift, Steady-guard,
}
use agentic_engineering_cont.Development.Saving.{
  Saves-load, Saves-events, Saves-save, Saves-append_event, Saves-transition, Saves-create,
}

-- The actor that is_actor refuses.
refused : (o : Option String) (a c : String) → is_actor o a ≡ false → o ≡ some c → a ≢ c
refused o a c h is = ne_of_== a c (==_symm c a (rw is at h))

reviewed_before :
    (s : TaskState) (t : Task) → may_move s publish_approved ≡ true → Duties s t → Reviewed t
unfolding may_move transitions
reviewed_before awaiting_publish_approval t h d = d
reviewed_before _ t h d = cc

-- The duties of a task that has the same people.
Tested-of : (t u : Task) → u.coder ≡ t.coder → u.test_runner ≡ t.test_runner → Tested t → Tested u
Tested-of t u c r d = record {
  coder = d.coder;
  runner = d.runner;
  is_coder = c ∙ d.is_coder;
  is_runner = r ∙ d.is_runner;
  apart = d.apart;
}

Reviewed-of :
    (t u : Task)
    → u.coder ≡ t.coder
    → u.test_runner ≡ t.test_runner
    → u.reviewer ≡ t.reviewer
    → u.review ≡ t.review
    → Reviewed t
    → Reviewed u
unfolding Tested-of
Reviewed-of t u c r v w d = record {
  tested = Tested-of t u c r d.tested;
  reviewer = d.reviewer;
  review = d.review;
  is_reviewer = v ∙ d.is_reviewer;
  is_review = w ∙ d.is_review;
  not_coder = d.not_coder;
  not_runner = d.not_runner;
  no_failure = d.no_failure;
  has_passed = d.has_passed;
}

Released-of :
    (t u : Task)
    → u.coder ≡ t.coder
    → u.test_runner ≡ t.test_runner
    → u.reviewer ≡ t.reviewer
    → u.review ≡ t.review
    → u.publish_approval ≡ t.publish_approval
    → Released t
    → Released u
unfolding Tested-of Reviewed-of
Released-of t u c r v w a d = record {
  reviewed = Reviewed-of t u c r v w d.reviewed;
  approval = d.approval;
  is_approval = a ∙ d.is_approval;
  not_coder = d.not_coder;
  not_runner = d.not_runner;
  not_reviewer = d.not_reviewer;
}

Duties-of :
    (s : TaskState) (t u : Task)
    → u.coder ≡ t.coder
    → u.test_runner ≡ t.test_runner
    → u.reviewer ≡ t.reviewer
    → u.review ≡ t.review
    → u.publish_approval ≡ t.publish_approval
    → Duties s t
    → Duties s u
Duties-of changes_applied t u c r v w a d = record { coder = d.coder; is_coder = c ∙ d.is_coder }
Duties-of tests_passed t u c r v w a d = Tested-of t u c r d
Duties-of review_passed t u c r v w a d = Reviewed-of t u c r v w d
Duties-of awaiting_publish_approval t u c r v w a d = Reviewed-of t u c r v w d
Duties-of publish_approved t u c r v w a d = Released-of t u c r v w a d
Duties-of published t u c r v w a d = Released-of t u c r v w a d
Duties-of merged_verified t u c r v w a d = Released-of t u c r v w a d
Duties-of _ t u c r v w a d = tt

module _ {W : Type 0} (h : Host W) (budget : ℕ) where
  in_state :
      (t : Task) (s : TaskState) → TaskSafe budget t → same_state t.state s ≡ true → Duties s t
  in_state t s safe is = subst (λ x. Duties x t) (same_state-eq t.state s is) safe.duties

module _ {W : Type 0} (h : Host W) (policy : Policy) where
  abbrev budget : ℕ
  budget = policy.max_repair_attempts

  -- Whatever a method returns, the tasks keep the invariant.
  abbrev pub Guarded : {A : Type 0} → Exec (State W) A → Type 0
  Guarded m = Keeps (λ s. TasksSafe policy.max_repair_attempts s.entries) m Any

  pub Guarded-plan : (id actor : String) → Guarded (plan h policy id actor)
  unfolding plan
  Guarded-plan id actor = Keeps-bind _ _ (Saves-load h budget id) λ task safe.
      Keeps-weaken _
        (Saves-transition h budget task planned actor _ _
          λ now _. record { duties = tt; within = safe.within })
        λ t _. tt

  pub Guarded-cancel : (id actor reason : String) → Guarded (cancel h policy id actor reason)
  unfolding cancel
  Guarded-cancel id actor reason = Keeps-bind _ _ (Saves-load h budget id) λ task safe.
      Keeps-bind _ _ (Keeps-guard _ _) λ _ _. Keeps-bind _ _ (Steady-utc_now h _) λ at _.
        Keeps-weaken _
          (Saves-transition h budget task cancelled actor _ _
            λ now _. record { duties = tt; within = safe.within })
          λ t _. tt

  pub Guarded-prepare : (root id actor : String) → Guarded (prepare h policy root id actor)
  unfolding prepare
  Guarded-prepare root id actor = Keeps-bind _ _ (Saves-load h budget id) λ task safe.
      Keeps-bind _ _ (Steady-lift h _ _) λ _ _.
        Keeps-bind _ _ (Steady-clear_workspace h _ policy root _) λ _ _.
          Keeps-bind _ _ (Steady-lift h _ _) λ source _.
            Keeps-bind _ _ (Steady-run_command h _ _ _ _) λ _ _.
              Keeps-bind _ _ (Steady-run_command h _ _ _ _) λ head _.
                Keeps-bind _ _ (Steady-run_command h _ _ _ _) λ _ _.
                  Keeps-bind _ _ (Steady-gets h _ _) λ resolved _.
                    Keeps-weaken _
                      (Saves-transition h budget task workspace_ready actor _ _
                        λ now _. record { duties = tt; within = safe.within })
                      λ t _. tt

  pub Guarded-approve_publish :
      (id actor confirmation comment : String)
      → Guarded (approve_publish h policy id actor confirmation comment)
  unfolding approve_publish Tested-of Reviewed-of
  Guarded-approve_publish id actor confirmation comment =
      Keeps-bind _ _ (Saves-load h budget id) λ task safe.
        Keeps-bind _ _ (Keeps-guard _ _) λ _ independent. Keeps-bind _ _ (Keeps-guard _ _) λ _ _.
          Keeps-bind _ _ (Steady-utc_now h _) λ at _.
            Keeps-weaken _
              (Saves-transition h budget task publish_approved actor _ _ λ now allowed.
                let before = reviewed_before task.state task allowed safe.duties in
                record {
                  duties = record {
                    reviewed = Reviewed-of task _ refl refl refl refl before;
                    approval = _;
                    is_approval = refl;
                    not_coder = refused task.coder actor _ (ground arith) before.tested.is_coder;
                    not_runner =
                        refused task.test_runner actor _ (ground arith) before.tested.is_runner;
                    not_reviewer = refused task.reviewer actor _ (ground arith) before.is_reviewer;
                  };
                  within = safe.within;
                })
              λ t _. tt

  Guarded-after_tests :
      (task : Task) (actor : String) (outcome : Bool × List TestResult)
      → TaskSafe budget task
      → Coded task
      → is_actor task.coder actor ≡ false
      → Guarded (after_tests h policy task actor outcome)
  unfolding after_tests
  Guarded-after_tests task actor (true, results) safe coded other =
      Keeps-weaken _
        (Saves-transition h budget task tests_passed actor _ _ λ now _. record {
          duties = record {
            coder = coded.coder;
            runner = actor;
            is_coder = coded.is_coder;
            is_runner = refl;
            apart = λ same. refused task.coder actor coded.coder other coded.is_coder (sym same);
          };
          within = safe.within;
        })
        λ t _. tt
  Guarded-after_tests task actor (false, results) safe coded other =
      Keeps-weaken _
        (Saves-transition h budget task tests_failed actor _ _
          λ now _. record { duties = tt; within = safe.within })
        λ t _. tt

  -- The end of an operation that stops the task for a person.
  Guarded-stop :
      (task : Task) (actor reason : String)
      → TaskSafe budget task
      → Guarded (transition h task manual_review actor reason unchanged)
  Guarded-stop task actor reason safe =
      Keeps-weaken _
        (Saves-transition h budget task manual_review actor _ _
          λ now _. record { duties = tt; within = safe.within })
        λ t _. tt

  Guarded-run_contract :
      (root : String) (task : Task) (actor : String)
      → TaskSafe budget task
      → Coded task
      → is_actor task.coder actor ≡ false
      → Guarded (run_contract h policy root task actor)
  unfolding run_contract
  Guarded-run_contract root task actor safe coded other =
      Keeps-bind _ _ (Steady-lift h _ _) λ workspace _.
        Keeps-bind _ _ (Steady-run_tests h _ policy _ _ _)
          λ outcome _. Guarded-after_tests task actor outcome safe coded other

  pub Guarded-test : (root id actor : String) → Guarded (test h policy root id actor)
  unfolding test
  Guarded-test root id actor = Keeps-bind _ _ (Saves-load h budget id) λ task safe.
      Keeps-bind _ _ (Keeps-guard _ _) λ _ is. Keeps-bind _ _ (Keeps-guard _ _) λ _ other.
        Keeps-if (is_empty task.repository.test_commands)
          (transition h task manual_review actor _ unchanged)
          (run_contract h policy root task actor) (λ _. Guarded-stop task actor _ safe)
          λ _.
            Guarded-run_contract root task actor safe
              (in_state h budget task changes_applied safe is) (not-eq_true _ other)

  Guarded-offer :
      (task : Task) (actor : String)
      → TaskSafe budget task
      → Reviewed task
      → Guarded (offer h policy task true actor)
  unfolding offer
  Guarded-offer task actor safe reviewed =
      Keeps-weaken _
        (Saves-transition h budget task awaiting_publish_approval actor _ _ λ now _. record {
          duties = Reviewed-of task _ refl refl refl refl reviewed;
          within = safe.within;
        })
        λ t _. tt

  Guarded-conclude :
      (task : Task) (actor : String) (evidence : List String) (metrics : Metrics)
      (failures : List String) (digest : String) (tested : Tested task)
      → TaskSafe budget task
      → actor ≢ tested.coder
      → actor ≢ tested.runner
      → Guarded (conclude h policy task actor evidence metrics failures digest)
  unfolding conclude offer Tested-of
  Guarded-conclude task actor evidence metrics [] digest tested safe coder runner =
      Keeps-bind _ _
        (Saves-transition h budget task review_passed actor _ _ λ now _. record {
          duties = record {
            tested = Tested-of task _ refl refl tested;
            reviewer = actor;
            review = _;
            is_reviewer = refl;
            is_review = refl;
            not_coder = coder;
            not_runner = runner;
            no_failure = refl;
            has_passed = refl;
          };
          within = safe.within;
        })
        λ reviewed (is, done).
          Guarded-offer reviewed actor done (subst (λ s. Duties s reviewed) is done.duties)
  Guarded-conclude task actor evidence metrics (f ∷ fs) digest tested safe coder runner =
      Keeps-bind _ _
        (Saves-transition h budget task review_failed actor _ _
          λ now _. record { duties = tt; within = safe.within })
        λ reviewed _. Keeps-pure _ tt

  pub Guarded-review :
      (id actor : String) (evidence : List String) → Guarded (review h policy id actor evidence)
  unfolding review
  Guarded-review id actor evidence = Keeps-bind _ _ (Saves-load h budget id) λ task safe.
      Keeps-bind _ _ (Keeps-guard _ _) λ _ is. Keeps-bind _ _ (Keeps-guard _ _) λ _ independent.
        Keeps-bind _ _ (Steady-lift h _ _) λ workspace _.
          Keeps-bind _ _ (Steady-diff_metrics h _ _) λ metrics _.
            Keeps-bind _ _ (Steady-budget h _ _ _) λ _ _.
              Keeps-bind _ _ (Steady-binary_diff h _ _) λ diff _.
                Keeps-bind _ _ (Steady-untracked h _ _) λ untracked _.
                  Keeps-bind _ _ (Steady-read_all h _ policy _ _) λ content _.
                    Keeps-bind _ _ (Steady-change_digest h _ _) λ digest _.
                      let tested = in_state h budget task tests_passed safe is in
                      Guarded-conclude task actor evidence metrics _ digest tested safe
                        (refused task.coder actor _ (ground arith) tested.is_coder)
                        (refused task.test_runner actor _ (ground arith) tested.is_runner)

  Guarded-apply_set :
      (task : Task) (path actor : String)
      → TaskSafe budget task
      → suc task.repair_attempts ≤ budget
      → Guarded (apply_set h policy task path actor)
  unfolding apply_set
  Guarded-apply_set task path actor safe within = Keeps-bind _ _ (Steady-gets h _ _) λ read _.
      Keeps-bind _ _ (Steady-lift h _ _) λ content _.
        Keeps-bind _ _ (Steady-lift h _ _) λ operations _.
          Keeps-bind _ _ (Steady-guard h _ _ _) λ _ _.
            Keeps-bind _ _ (Steady-lift h _ _) λ workspace _.
              Keeps-bind _ _ (Steady-apply_operations h _ policy _ _) λ _ _.
                Keeps-bind _ _ (Steady-diff_metrics h _ _) λ metrics _.
                  Keeps-bind _ _ (Steady-budget h _ _ _) λ _ _.
                    Keeps-bind _ _ (Steady-gets h _ _) λ again _.
                      Keeps-bind _ _ (Steady-lift h _ _) λ bytes _.
                        Keeps-weaken _
                          (Saves-transition h budget _ changes_applied actor _ _ λ now _. record {
                            duties = record { coder = actor; is_coder = refl };
                            within = within;
                          })
                          λ t _. tt

  pub Guarded-apply_changes :
      (id path actor : String) → Guarded (apply_changes h policy id path actor)
  unfolding apply_changes
  Guarded-apply_changes id path actor = Keeps-bind _ _ (Saves-load h budget id) λ task safe.
      Keeps-bind _ _ (Keeps-guard _ _) λ _ _. Keeps-bind _ _ (Keeps-guard _ _) λ _ _.
        Keeps-if (leb policy.max_repair_attempts task.repair_attempts)
          (transition h task manual_review actor _ unchanged) (apply_set h policy task path actor)
          (λ _. Guarded-stop task actor _ safe)
          λ more. Guarded-apply_set task path actor safe (ground arith)

  pub Guarded-evidence : (root id actor : String) → Guarded (build_evidence h root id actor)
  unfolding build_evidence
  Guarded-evidence root id actor = Keeps-bind _ _ (Saves-load h budget id) λ task safe.
      Keeps-bind _ _ (Saves-events h budget id) λ log _.
        Keeps-bind _ _ (Steady-guard h _ _ _) λ _ _. Keeps-bind _ _ (Steady-gets h _ _) λ reading _.
          Keeps-bind _ _ (Steady-utc_now h _) λ _ _.
            Keeps-bind _ _ (Steady-write_files h _ _ _ _ _) λ manifest _.
              Keeps-bind _ _ (Steady-gets h _ _) λ path _.
                Keeps-bind _ _
                  (Saves-save h budget _ λ at. record {
                    duties = Duties-of task.state task _ refl refl refl refl refl safe.duties;
                    within = safe.within;
                  })
                  λ saved _.
                    Keeps-bind _ _ (Saves-append_event h budget _ _ _ _) λ _ _. Keeps-pure saved tt

  pub Guarded-publish :
      (root id actor title body : String) (token : Option String)
      → Guarded (publish h policy root id actor title body token)
  unfolding publish
  Guarded-publish root id actor title body token =
      Keeps-bind _ _ (Saves-load h budget id) λ task safe. Keeps-bind _ _ (Keeps-guard _ _) λ _ is.
        Keeps-bind _ _ (Steady-lift h _ _) λ workspace _.
          Keeps-bind _ _ (Steady-guard h _ _ _) λ _ _.
            Keeps-bind _ _ (Steady-change_digest h _ _) λ digest _.
              Keeps-bind _ _ (Steady-lift h _ _) λ reviewed _.
                Keeps-bind _ _ (Steady-guard h _ _ _) λ _ _.
                  Keeps-bind _ _ (Steady-push h _ policy _ _ _) λ head _.
                    Keeps-bind _ _ (Steady-in_world h _ _) λ answer _.
                      Keeps-bind _ _ (Steady-lift h _ _) λ pr _.
                        Keeps-bind _ _
                          (Saves-transition h budget task published actor _ _ λ now _. record {
                            duties =
                                Released-of task _ refl refl refl refl refl
                                  (in_state h budget task publish_approved safe is);
                            within = safe.within;
                          })
                          λ t _. Guarded-evidence root id actor

  pub Guarded-verify_merge :
      (registry : List Repository) (root id actor : String) (token : Option String)
      → Guarded (verify_merge h policy registry root id actor token)
  unfolding verify_merge
  Guarded-verify_merge registry root id actor token =
      Keeps-bind _ _ (Saves-load h budget id) λ task safe. Keeps-bind _ _ (Keeps-guard _ _) λ _ is.
        Keeps-bind _ _ (Steady-lift h _ _) λ pull _. Keeps-bind _ _ (Steady-guard h _ _ _) λ _ _.
          Keeps-bind _ _ (Steady-in_world h _ _) λ answer _.
            Keeps-bind _ _ (Steady-lift h _ _) λ pr _.
              Keeps-bind _ _ (Steady-lift h _ _) λ merged_at _.
                Keeps-bind _ _ (Steady-guard h _ _ _) λ _ _.
                  Keeps-bind _ _ (Steady-in_world h _ _) λ checks _.
                    Keeps-bind _ _ (Steady-lift h _ _) λ check_runs _.
                      Keeps-bind _ _ (Steady-lift h _ _) λ required_checks _.
                        Keeps-bind _ _ (Steady-guard h _ _ _) λ _ _.
                          Keeps-bind _ _ (Steady-guard h _ _ _) λ _ _.
                            Keeps-bind _ _
                              (Saves-transition h budget task merged_verified actor _ _ λ now _.
                                record {
                                  duties =
                                      Released-of task _ refl refl refl refl refl
                                        (in_state h budget task published safe is);
                                  within = safe.within;
                                })
                              λ t _. Guarded-evidence root id actor

  pub Guarded-start :
      (registry : List Repository) (name intent : String) (criteria : List String) (actor : String)
      → Guarded (start h policy registry name intent criteria actor)
  unfolding start new_task
  Guarded-start registry name intent criteria actor = Keeps-bind _ _ (Steady-guard h _ _ _) λ _ _.
      Keeps-bind _ _ (Steady-lift h _ _) λ repository _. Keeps-bind _ _ (Steady-lift h _ _) λ _ _.
        Keeps-bind _ _ (Steady-lift h _ _) λ checks _. Keeps-bind _ _ (Steady-utc_now h _) λ now _.
          Keeps-bind _ _ (Steady-utc_now h _) λ later _.
            Keeps-weaken _
              (Saves-create h budget _ actor (record { duties = tt; within = omega arith }))
              λ t _. tt
