-- ===== src/Development/Published.antt =====
-- What DevelopmentController.publish has seen when it returns.
use agentic_engineering_cont.Prelude.{
  String, ◌≡◌, refl, sym, ap, ◌∙◌, subst, Bool, true, false, Option, none, some, eq_iff,
}
use agentic_engineering_cont.Exec.{
  Result, ok, err, Exec, exec_code, pure, lift, gets, guard, continue, ◌>>=◌,
}
use agentic_engineering_cont.Prelude.Platform.{Error}
use agentic_engineering_cont.Exec.Keeps.{ok-injective}
use agentic_engineering_cont.Development.Task.{publish_approved, same_state-eq, Review, Task}
use agentic_engineering_cont.Development.Host.{Host}
use agentic_engineering_cont.Development.Store.{State, entry, task_root, load}
use agentic_engineering_cont.Development.Workspace.{Policy, change_digest}
use agentic_engineering_cont.Development.Controller.{path_of}
use agentic_engineering_cont.Development.Gates.{digest_of, publish}

module _ {S A B : Type 0} where
  -- The first action of a chain that returns has returned too.
  pub record FirstReturns (m : Exec S A) (f : A → Exec S B) (s : S) (b : B) : Type 0 where
    pub value : A
    pub first : (m s).0 ≡ ok value
    pub rest : (f value (m s).1).0 ≡ ok b

  pub first_returned :
      (r : Result A) (f : A → Exec S B) (s : S) (b : B)
      → (continue r f s).0 ≡ ok b
      → (a : A) × ((r ≡ ok a) × ((f a s).0 ≡ ok b))
  first_returned (ok a) f s b h = (a, (refl, h))
  first_returned (err e) f s b h = cc

  pub after_bind :
      (m : Exec S A) (f : A → Exec S B) (s : S) (b : B)
      → ((m >>= f) s).0 ≡ ok b
      → FirstReturns m f s b
  unfolding ◌>>=◌
  after_bind m f s b h =
      let (a, (first, rest)) = first_returned (m s).0 f (m s).1 b h in
      record { value = a; first = first; rest = rest }

  pub after_lift :
      (r : Result A) (f : A → Exec S B) (s : S) (b : B)
      → ((lift r >>= f) s).0 ≡ ok b
      → (a : A) × ((r ≡ ok a) × ((f a s).0 ≡ ok b))
  unfolding exec_code
  after_lift r f s b h = first_returned r f s b h

module _ {S B : Type 0} where
  pub after_guard :
      (c : Bool) (e : Error) (f : Unit {0} → Exec S B) (s : S) (b : B)
      → ((guard c e >>= f) s).0 ≡ ok b
      → (c ≡ true) × ((f tt s).0 ≡ ok b)
  unfolding exec_code
  after_guard true e f s b h = (refl, h)
  after_guard false e f s b h = cc

pub path_of-some : (o : Option String) (w : String) → path_of o ≡ ok w → o ≡ some w
path_of-some none w h = cc
path_of-some (some v) w h = ap some (ok-injective h)

digest_of-some :
    (o : Option Review) (d : String)
    → digest_of o ≡ ok d
    → (r : Review) × ((o ≡ some r) × (r.change_sha256 ≡ d))
digest_of-some none d h = cc
digest_of-some (some r) d h = (r, (refl, ok-injective h))

-- Actions that only read.
abbrev pub Quiet : {S A : Type 0} → Exec S A → Type 0
Quiet {S} m = (s : S) → (m s).1 ≡ s

module _ {S A B : Type 0} where
  continue-state :
      (r : Result A) (f : A → Exec S B) (x s : S)
      → x ≡ s
      → ((a : A) → Quiet (f a))
      → (continue r f x).1 ≡ s
  continue-state (ok a) f x s e q = q a x ∙ e
  continue-state (err w) f x s e q = e

  Quiet-bind :
      (m : Exec S A) (f : A → Exec S B) → Quiet m → ((a : A) → Quiet (f a)) → Quiet (m >>= f)
  unfolding exec_code
  Quiet-bind m f q k s = continue-state (m s).0 f (m s).1 s (q s) k

module _ {S : Type 0} where
  Quiet-guard : (c : Bool) (e : Error) → Quiet {S = S} (guard c e)
  unfolding exec_code
  Quiet-guard true e s = refl
  Quiet-guard false e s = refl

  Quiet-gets : {A : Type 0} (f : S → A) → Quiet (gets f)
  unfolding exec_code
  Quiet-gets f s = refl

  Quiet-lift : {A : Type 0} (r : Result A) → Quiet {S = S} (lift r)
  unfolding exec_code
  Quiet-lift r s = refl

  Quiet-pure : {A : Type 0} (a : A) → Quiet {S = S} (pure a)
  unfolding exec_code
  Quiet-pure a s = refl

module _ {W : Type 0} (h : Host W) where
  pub Quiet-load : (id : String) → Quiet (load h id)
  unfolding load entry task_root
  Quiet-load id = search (Quiet-bind, Quiet-guard, Quiet-gets, Quiet-lift, Quiet-pure) depth 10

  -- The task was approved for publication, and the digest of its workspace, before anything was
  -- committed or pushed, was the one of the review.
  pub record WasReviewed (id : String) (s : State W) : Type 0 where
    pub task : Task
    pub workspace : String
    pub review : Review
    pub loaded : (load h id s).0 ≡ ok task
    pub approved : task.state ≡ publish_approved
    pub is_workspace : task.workspace ≡ some workspace
    pub is_review : task.review ≡ some review
    pub unchanged_since : (change_digest h workspace s).0 ≡ ok review.change_sha256

  -- Whenever publish returns, in whatever state it was called, the stored task was publish_approved
  -- and had a review, and the digest of the task's workspace in that state was the digest that the
  -- review recorded.
  pub publish-WasReviewed :
      (policy : Policy) (root id actor title body : String) (token : Option String) (s : State W)
      (t : Task)
      → (publish h policy root id actor title body token s).0 ≡ ok t
      → WasReviewed id s
  unfolding publish
  publish-WasReviewed policy root id actor title body token s t e =
      let l = after_bind _ _ s t e in
      let task = l.value in
      let (approved, e1) = after_guard _ _ _ (load h id s).1 t l.rest in
      let (workspace, (is_workspace, e2)) = after_lift _ _ (load h id s).1 t e1 in
      let (has_token, e3) = after_guard _ _ _ (load h id s).1 t e2 in
      let d = after_bind _ _ (load h id s).1 t e3 in
      let (reviewed, (is_reviewed, e4)) = after_lift _ _ _ t d.rest in
      let (same, e5) = after_guard _ _ _ _ t e4 in
      let (review, (is_review, hash)) = digest_of-some task.review reviewed is_reviewed in
      record {
        task = task;
        workspace = workspace;
        review = review;
        loaded = l.first;
        approved = same_state-eq _ _ approved;
        is_workspace = path_of-some _ _ is_workspace;
        is_review = is_review;
        unchanged_since =
            subst (λ x. (change_digest h workspace x).0 ≡ ok review.change_sha256) (Quiet-load id s)
              (d.first ∙ ap ok ((eq_iff d.value reviewed).0 same ∙ sym hash));
      }
