-- ===== src/Development/Saving.antt =====
-- The operations of DevelopmentStore keep the invariant of the tasks.
use agentic_engineering_cont.Prelude.{
  ℕ, String, ◌≡◌, refl, Bool, true, false, Option, none, some, List, [], ◌∷◌, ◌++◌, find, subst, ap,
  if◌then◌else◌,
}
use agentic_engineering_cont.Prelude.Platform.{Json}
use agentic_engineering_cont.Exec.{ok, Exec, pure}
use agentic_engineering_cont.Exec.Keeps.{
  Keeps, Any, Keeps-bind, Keeps-pure, Keeps-gets, Keeps-lift, Keeps-modify, Keeps-guard,
  ok-injective,
}
use agentic_engineering_cont.Development.Task.{TaskState, may_move, Task}
use agentic_engineering_cont.Development.Host.{Host}
use agentic_engineering_cont.Development.Store.{
  Event, Entry, State, found_entry, put_task, put_event, task_root, entry, load, save, append_event,
  transition, create, create_new, add_entry, write_state, write_event, events,
}
use agentic_engineering_cont.Development.Duties.{TaskSafe, TasksSafe}
use agentic_engineering_cont.Development.Steady.{Steady-utc_now}

module _ (budget : ℕ) where
  first_or :
      (b : Bool) (rest : Option Entry) (x e : Entry)
      → TaskSafe budget x.task
      → (rest ≡ some e → TaskSafe budget e.task)
      → (if b then some x else rest) ≡ some e
      → TaskSafe budget e.task
  first_or true rest x e safe later h =
      let same : x ≡ e = cc in subst (λ y. TaskSafe budget y.task) same safe
  first_or false rest x e safe later h = later h

  pub found-safe :
      (q : Entry → Bool) (es : List Entry) (e : Entry)
      → TasksSafe budget es
      → find q es ≡ some e
      → TaskSafe budget e.task
  found-safe q [] e safe h = cc
  found-safe q (x ∷ es) e safe h =
      first_or (q x) (find q es) x e safe.0 (found-safe q es e safe.1) h

  chosen-safe :
      (b : Bool) (xs ys : List Entry)
      → TasksSafe budget xs
      → TasksSafe budget ys
      → TasksSafe budget (if b then xs else ys)
  chosen-safe true xs ys hx hy = hx
  chosen-safe false xs ys hx hy = hy

  put_task-safe :
      (task : Task) (es : List Entry)
      → TaskSafe budget task
      → TasksSafe budget es
      → TasksSafe budget (put_task task es)
  unfolding put_task
  put_task-safe task [] t safe = tt
  put_task-safe task (x ∷ es) t safe =
      chosen-safe _ (record x { task = task } ∷ es) (x ∷ put_task task es) (t, safe.1)
        (safe.0, put_task-safe task es t safe.1)

  put_event-safe :
      (id : String) (event : Event) (es : List Entry)
      → TasksSafe budget es
      → TasksSafe budget (put_event id event es)
  unfolding put_event
  put_event-safe id event [] safe = tt
  put_event-safe id event (x ∷ es) safe =
      chosen-safe _ (record x { events = x.events ++ event ∷ [] } ∷ es) (x ∷ put_event id event es)
        safe (safe.0, put_event-safe id event es safe.1)

  add-safe :
      (e : Entry) (es : List Entry)
      → TaskSafe budget e.task
      → TasksSafe budget es
      → TasksSafe budget (es ++ e ∷ [])
  add-safe e [] t safe = (t, tt)
  add-safe e (x ∷ es) t safe = (safe.0, add-safe e es t safe.1)

module _ {W : Type 0} (h : Host W) (budget : ℕ) where
  -- `m` keeps the invariant of the tasks, and a value that it returns has `Q`.
  abbrev pub Saves : {A : Type 0} → Exec (State W) A → (A → Type 0) → Type 0
  Saves m Q = Keeps (λ s. TasksSafe budget s.entries) m Q

  entry-safe : (found : Option Entry) (e : Entry) → found_entry found ≡ ok e → found ≡ some e
  entry-safe none e k = cc
  entry-safe (some x) e k = let same : x ≡ e = ok-injective k in cc

  Saves-entry : (id : String) → Saves (entry h id) (λ e. TaskSafe budget e.task)
  unfolding entry task_root
  Saves-entry id = Keeps-bind _ _ (Keeps-guard _ _) λ _ _.
      Keeps-bind _ _
        (Keeps-gets {Q = λ o. (e : Entry) → o ≡ some e → TaskSafe budget e.task} _
          λ s safe e k. found-safe budget _ s.entries e safe k)
        λ found safe. Keeps-lift _ λ e k. safe e (entry-safe found e k)

  pub Saves-load : (id : String) → Saves (load h id) (TaskSafe budget)
  unfolding load
  Saves-load id = Keeps-bind _ _ (Saves-entry id) λ e safe. Keeps-pure e.task safe

  pub Saves-events : (id : String) → Saves (events h id) Any
  unfolding events
  Saves-events id = Keeps-bind _ _ (Saves-entry id) λ e _. Keeps-pure e.events tt

  pub Saves-save :
      (task : Task)
      → ((now : ℕ) → TaskSafe budget (record task { updated_at = now }))
      → Saves
          (save h task)
          (λ t. (now : ℕ) × ((t ≡ record task { updated_at = now }) × TaskSafe budget t))
  unfolding save task_root write_state
  Saves-save task safe = Keeps-bind _ _ (Keeps-guard _ _) λ _ _.
      Keeps-bind _ _ (Keeps-gets {Q = Any} _ λ s k. tt) λ current _.
        Keeps-bind _ _ (Keeps-guard _ _) λ _ _.
          Keeps-bind _ _ (Steady-utc_now h (λ es _. TasksSafe budget es)) λ now _.
            Keeps-bind _ _ (Keeps-modify _ λ s k. put_task-safe budget _ s.entries (safe now) k)
              λ _ _. Keeps-pure _ (now, (refl, safe now))

  pub Saves-append_event :
      (id type actor : String) (payload : Json) → Saves (append_event h id type actor payload) Any
  unfolding append_event write_event
  Saves-append_event id type actor payload = Keeps-bind _ _ (Saves-entry id) λ e _.
      Keeps-bind _ _ (Keeps-lift {Q = Any} _ λ a k. tt) λ previous _.
        Keeps-bind _ _ (Steady-utc_now h (λ es _. TasksSafe budget es))
          λ now _. Keeps-modify _ λ s k. put_event-safe budget id _ s.entries k

  pub Saves-transition :
      (task : Task) (target : TaskState) (actor reason : String) (updates : Task → Task)
      → ((now : ℕ)
          → may_move task.state target ≡ true
          → TaskSafe budget (record (updates task) { state = target; updated_at = now }))
      → Saves
          (transition h task target actor reason updates)
          (λ t. (t.state ≡ target) × TaskSafe budget t)
  unfolding transition
  Saves-transition task target actor reason updates safe =
      Keeps-bind _ _ (Keeps-guard _ _) λ _ allowed.
        Keeps-bind _ _
          (Saves-save (record (updates task) { state = target }) λ now. safe now allowed)
          λ saved (now, (is, s)).
            Keeps-bind _ _ (Saves-append_event _ _ _ _)
              λ _ _. Keeps-pure saved (ap (λ t. t.state) is, s)

  Saves-create_new :
      (task : Task) (actor : String)
      → TaskSafe budget task
      → Saves (create_new h task actor) (TaskSafe budget)
  unfolding create_new add_entry
  Saves-create_new task actor safe =
      Keeps-bind _ _ (Keeps-modify _ λ s k. add-safe budget _ s.entries safe k)
        λ _ _. Keeps-bind _ _ (Saves-append_event _ _ _ _) λ _ _. Keeps-pure task safe

  existing-safe :
      (task : Task) (actor : String) (found : Option Entry)
      → TaskSafe budget task
      → ((e : Entry) → found ≡ some e → TaskSafe budget e.task)
      → Saves
          (elim found [ none ↦ create_new h task actor | some e ↦ pure e.task ])
          (TaskSafe budget)
  existing-safe task actor none safe k = Saves-create_new task actor safe
  existing-safe task actor (some e) safe k = Keeps-pure e.task (k e refl)

  pub Saves-create :
      (task : Task) (actor : String)
      → TaskSafe budget task
      → Saves (create h task actor) (TaskSafe budget)
  unfolding create task_root
  Saves-create task actor safe = Keeps-bind _ _ (Keeps-guard _ _) λ _ _.
      Keeps-bind _ _
        (Keeps-gets {Q = λ o. (e : Entry) → o ≡ some e → TaskSafe budget e.task} _
          λ s k e is. found-safe budget _ s.entries e k is)
        λ found found_safe. existing-safe task actor found safe found_safe
