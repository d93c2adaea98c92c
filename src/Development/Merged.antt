-- ===== src/Development/Merged.antt =====
-- What had been read from GitHub when DevelopmentController.verify_merge returns.
use agentic_engineering_cont.Prelude.{
  String, ◌≡◌, refl, ap, subst, eq_iff, true, ◌&&◌, Option, none, some, List, [], ◌∷◌, ◌==◌, any,
  is_empty, All, and_right,
}
use agentic_engineering_cont.Exec.{Result, ok, Exec, lift, ◌>>=◌, exec_code}
use agentic_engineering_cont.Exec.Keeps.{ok-injective}
use agentic_engineering_cont.Development.Task.{
  Task, PullRequest, published, same_state-eq, Repository,
}
use agentic_engineering_cont.Development.Host.{Host, PullView, CheckRun}
use agentic_engineering_cont.Development.Store.{State, load}
use agentic_engineering_cont.Development.Workspace.{Policy, in_world}
use agentic_engineering_cont.Development.Gates.{
  chosen_token, pull_of, task_required_checks, verify_merge, is_text,
}
use agentic_engineering_cont.Development.Checks.{required-success}
use agentic_engineering_cont.Development.Published.{after_bind, after_lift, after_guard, Quiet-load}

empty_nil : {A : Type 0} (xs : List A) → is_empty xs ≡ true → xs ≡ []
empty_nil [] h = refl
empty_nil (x ∷ xs) h = cc

pull_of-some : (o : Option PullRequest) (p : PullRequest) → pull_of o ≡ ok p → o ≡ some p
pull_of-some none p h = cc
pull_of-some (some q) p h = ap some (ok-injective h)

-- The run was completed with success.
abbrev pub Succeeded : List CheckRun → String → Type 0
Succeeded runs name =
    any (λ c. c.name == name && (c.status == "completed" && c.conclusion == "success")) runs ≡ true

is_text-some : (o : Option String) (t : String) → is_text o t ≡ true → o ≡ some t
is_text-some none t h = cc
is_text-some (some x) t h = ap some ((eq_iff x t).0 h)

module _ {W : Type 0} (h : Host W) where
  -- A call into the world, whose answer may be an error, and what follows.
  after_answer :
      {A : Type 0} (f : W → Result A × W) (k : A → Exec (State W) Task) (s : State W) (t : Task)
      → ((in_world h f >>= λ r. lift r >>= k) s).0 ≡ ok t
      → (a : A) × (((f s.world).0 ≡ ok a) × ((k a (record s { world = (f s.world).1 })).0 ≡ ok t))
  unfolding exec_code in_world
  after_answer f k s t e = after_lift (f s.world).0 k (record s { world = (f s.world).1 }) t e

module _ {W : Type 0} (h : Host W) (policy : Policy) (registry : List Repository) where
  abbrev reading : Task → PullRequest → Option String → W → Result PullView × W
  reading task pull token w =
      h.get_pull task.repository.full_name pull.number (chosen_token token h.github_token) w

  -- What verify_merge has read, of the state that it was called in.
  pub record WasVerified (id : String) (token : Option String) (s : State W) : Type 0 where
    pub task : Task
    pub pull : PullRequest
    pub view : PullView
    pub runs : List CheckRun
    pub required : List String
    pub loaded : (load h id s).0 ≡ ok task
    pub was_published : task.state ≡ published
    pub is_pull : task.pull_request ≡ some pull
    pub is_view : (reading task pull token s.world).0 ≡ ok view
    pub same_head : view.head_sha ≡ some pull.head_sha
    pub are_runs :
        (h.get_check_runs task.repository.full_name view.merge_commit_sha
          (chosen_token token h.github_token)
          (reading task pull token s.world).1).0
        ≡ ok runs
    pub are_required : task_required_checks h policy registry task ≡ ok required
    pub succeeded : All (Succeeded runs) required

  -- Whenever verify_merge returns, in whatever state it was called: the stored task was published and
  -- had a pull request, GitHub's answer for it named as head the one that was pushed, and of the
  -- check runs that GitHub then gave for the merge commit, each required check has one with its name
  -- whose status is completed and whose conclusion is success.
  pub verify_merge-WasVerified :
      (root id actor : String) (token : Option String) (s : State W) (t : Task)
      → (verify_merge h policy registry root id actor token s).0 ≡ ok t
      → WasVerified id token s
  unfolding verify_merge
  verify_merge-WasVerified root id actor token s t e =
      let l = after_bind _ _ s t e in
      let task = l.value in
      let here = (load h id s).1 in
      let still = Quiet-load h id s in
      let (state, e1) = after_guard _ _ _ here t l.rest in
      let (pull, (is_pull, e2)) = after_lift _ _ here t e1 in
      let (has_token, e3) = after_guard _ _ _ here t e2 in
      let (view, (viewed, e4)) = after_answer h _ _ here t e3 in
      let (merged_at, (is_merged, e5)) = after_lift _ _ _ t e4 in
      let (head, e6) = after_guard _ _ _ _ t e5 in
      let (runs, (ran, e7)) = after_answer h _ _ _ t e6 in
      let (required, (is_required, e8)) = after_lift _ _ _ t e7 in
      let (none_missing, e9) = after_guard _ _ _ _ t e8 in
      let (none_incomplete, e10) = after_guard _ _ _ _ t e9 in
      record {
        task = task;
        pull = pull;
        view = view;
        runs = runs;
        required = required;
        loaded = l.first;
        was_published = same_state-eq _ _ state;
        is_pull = pull_of-some _ _ is_pull;
        is_view =
            subst (λ (x : State W). (reading task pull token x.world).0 ≡ ok view) still viewed;
        same_head = is_text-some _ _ (and_right _ _ head);
        are_runs =
            subst
              (λ (x : State W).
                (h.get_check_runs task.repository.full_name view.merge_commit_sha
                  (chosen_token token h.github_token) (reading task pull token x.world).1).0
                ≡ ok runs)
              still ran;
        are_required = is_required;
        succeeded =
            required-success required runs (empty_nil _ none_missing) (empty_nil _ none_incomplete);
      }
