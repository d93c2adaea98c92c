-- ===== src/Development/Chained.antt =====
-- Every method of DevelopmentController keeps the hash chain of each task's event log.
pub mod Methods
use agentic_engineering_cont.Prelude.{
  ℕ, String, ◌≡◌, refl, sym, ap, ◌∙◌, subst, Bool, true, false, Option, none, some, List, [], ◌∷◌,
  ◌++◌, last, find, ◌==◌, All, Bool-cases, inl, inr, if◌then◌else◌,
}
use agentic_engineering_cont.Prelude.Platform.{Json}
use agentic_engineering_cont.Exec.{
  Result, ok, err, Exec, pure, lift, gets, modify, guard, ◌>>=◌, ◌>>◌, exec_code,
}
use agentic_engineering_cont.Exec.Keeps.{
  Keeps, Any, Keeps-lift, Keeps-modify, Keeps-weaken, Keeps-bind, ok-injective,
}
use agentic_engineering_cont.Exec.Triple.{
  Triple, Triple-bind, Triple-after, Triple-modify, Triple-weaken, Keeps-Triple,
}
use agentic_engineering_cont.Development.Task.{TaskState, Task}
use agentic_engineering_cont.Development.Host.{Host}
use agentic_engineering_cont.Development.Log.{verify, verify-append, previous_of}
use agentic_engineering_cont.Development.Store.{
  Event, Entry, State, entry_of, found_entry, put_task, put_event, named_hash, recorded_hash,
  event_digest, verify_events, utc_now, task_root, entry, load, events, new_event, write_event,
  write_state, save, append_event, transition, add_entry, create_new, create,
}
use agentic_engineering_cont.Development.Steady.{
  Steady, Steady-guard, Steady-lift, Steady-utc_now, Steady-world, steady_rules,
}

module _ {W : Type 0} (h : Host W) where
  abbrev pub Chained : Entry → Type 0
  Chained e = verify_events h.platform e.events ≡ true

  -- The log of each task passes verify_events.
  abbrev pub AllChained : List Entry → Type 0
  AllChained es = All Chained es

  chosen :
      (b : Bool) (xs ys : List Entry)
      → AllChained xs
      → AllChained ys
      → AllChained (if b then xs else ys)
  chosen true xs ys hx hy = hx
  chosen false xs ys hx hy = hy

  put_task-AllChained :
      (task : Task) (es : List Entry) → AllChained es → AllChained (put_task task es)
  unfolding put_task
  put_task-AllChained task [] k = tt
  put_task-AllChained task (x ∷ es) k =
      chosen _ (record x { task = task } ∷ es) (x ∷ put_task task es) k
        (k.0, put_task-AllChained task es k.1)

  -- The line goes to the directory that was read.
  put_event-AllChained :
      (id : String) (event : Event) (es : List Entry) (e : Entry)
      → AllChained es
      → entry_of id es ≡ some e
      → verify_events h.platform (e.events ++ event ∷ []) ≡ true
      → AllChained (put_event id event es)
  unfolding put_event
  put_event-AllChained id event [] e k found v = tt
  put_event-AllChained id event (x ∷ es) e k found v = elim (Bool-cases (x.task.task_id == id)) [
    | inl here ↦
        let same : some x ≡ some e = rw here at found in
        rw here (subst (λ (o : Option Entry). logged o) (sym same) v, k.1)
    | inr other ↦ rw other (k.0, put_event-AllChained id event es e k.1 (rw other at found) v)
  ]
    where
      logged : Option Entry → Type 0
      logged none = Unit
      logged (some y) = verify_events h.platform (y.events ++ event ∷ []) ≡ true

  new_event-AllChained :
      (id type actor previous : String) (payload : Json) (now : ℕ) (es : List Event)
      → verify_events h.platform es ≡ true
      → previous_of named_hash recorded_hash (event_digest h.platform) (last es) ≡ ok previous
      → verify_events h.platform (es ++ new_event h id type actor payload previous now ∷ []) ≡ true
  unfolding verify_events new_event event_digest
  new_event-AllChained id type actor previous payload now es v l =
      verify-append named_hash recorded_hash (event_digest h.platform) es
        (new_event h id type actor payload previous now) v l refl

  -- The state of an action that reads the directory of a task.
  abbrev Found : String → Entry → State W → Type 0
  Found id e s = AllChained s.entries × (entry_of id s.entries ≡ some e)

  found-some : (o : Option Entry) (e : Entry) → found_entry o ≡ ok e → o ≡ some e
  found-some none e k = cc
  found-some (some x) e k = ap some (ok-injective k)

  looking_up :
      (id : String)
      → Triple
          (λ s. AllChained s.entries)
          (do found ← gets (λ s. entry_of id s.entries); lift (found_entry found))
          (Found id)
          (λ s. AllChained s.entries)
  unfolding exec_code
  looking_up id = record { returns = λ s k e is. (k, found-some _ e is); raises = λ s k x is. k }

  Triple-entry :
      (id : String)
      → Triple (λ s. AllChained s.entries) (entry h id) (Found id) (λ s. AllChained s.entries)
  unfolding entry task_root
  Triple-entry id =
      Triple-after _ _ (Steady-guard h (λ es _. AllChained es) _ _) (λ s k. k) λ _ _. looking_up id

  All-found :
      (id : String) (es : List Entry) (e : Entry)
      → AllChained es
      → entry_of id es ≡ some e
      → Chained e
  All-found id [] e k found = cc
  All-found id (x ∷ es) e k found = elim (Bool-cases (x.task.task_id == id)) [
    | inl here ↦ let same : some x ≡ some e = rw here at found in cc
    | inr other ↦ All-found id es e k.1 (rw other at found)
  ]

  reading : (id : String) (e : Entry) → Keeps (Found id e) (utc_now h) Any
  unfolding utc_now
  reading id e = record { at = λ s k. k; gives = λ s k a x. tt }

  pub Logged-append_event :
      (id type actor : String) (payload : Json)
      → Steady h (λ es _. AllChained es) (append_event h id type actor payload)
  unfolding append_event write_event
  Logged-append_event id type actor payload = Keeps-Triple _ (
      Triple-bind _ _ (Triple-entry id) λ e.
        Triple-after _ _ (Keeps-lift {P = Found id e} _ λ previous is. is) (λ s k. k.0)
          λ previous is.
            Triple-after _ _ (reading id e) (λ s k. k.0)
              λ now _. Triple-modify _ λ s k. (
                put_event-AllChained id _ s.entries e k.0 k.1 (
                    new_event-AllChained id type actor previous payload now e.events
                      (All-found id s.entries e k.0 k.1) is),
                tt,
              ))

  pub Logged-entry : (id : String) → Steady h (λ es _. AllChained es) (entry h id)
  unfolding entry task_root
  Logged-entry id = search steady_rules

  pub Logged-load : (id : String) → Steady h (λ es _. AllChained es) (load h id)
  unfolding load
  Logged-load id = search (steady_rules, Logged-entry)

  pub Logged-events : (id : String) → Steady h (λ es _. AllChained es) (events h id)
  unfolding events
  Logged-events id = search (steady_rules, Logged-entry)

  pub Logged-write_state :
      (task : Task) → Steady h (λ es _. AllChained es) (modify (write_state h task))
  unfolding write_state
  Logged-write_state task = Keeps-modify _ λ s k. put_task-AllChained task s.entries k

  pub Logged-save : (task : Task) → Steady h (λ es _. AllChained es) (save h task)
  unfolding save task_root
  Logged-save task = search (steady_rules, Logged-write_state) depth 12

  pub Logged-transition :
      (task : Task) (target : TaskState) (actor reason : String) (updates : Task → Task)
      → Steady h (λ es _. AllChained es) (transition h task target actor reason updates)
  unfolding transition
  Logged-transition task target actor reason updates =
      search (steady_rules, Logged-save, Logged-append_event) depth 10

  add-AllChained :
      (task : Task) (es : List Entry)
      → AllChained es
      → AllChained (es ++ record { task = task; events = [] } ∷ [])
  unfolding verify_events verify
  add-AllChained task [] k = (refl, tt)
  add-AllChained task (x ∷ es) k = (k.0, add-AllChained task es k.1)

  pub Logged-add_entry :
      (task : Task) → Steady h (λ es _. AllChained es) (modify (add_entry h task))
  unfolding add_entry
  Logged-add_entry task = Keeps-modify _ λ s k. add-AllChained task s.entries k

  pub Logged-create_new :
      (task : Task) (actor : String) → Steady h (λ es _. AllChained es) (create_new h task actor)
  unfolding create_new
  Logged-create_new task actor =
      search (steady_rules, Logged-add_entry, Logged-append_event) depth 8

  pub Logged-existing :
      (task : Task) (actor : String) (found : Option Entry)
      → Steady h
          (λ es _. AllChained es)
          (elim found [ none ↦ create_new h task actor | some e ↦ pure e.task ])
  Logged-existing task actor none = Logged-create_new task actor
  Logged-existing task actor (some e) = search steady_rules

  pub Logged-create :
      (task : Task) (actor : String) → Steady h (λ es _. AllChained es) (create h task actor)
  unfolding create task_root
  Logged-create task actor = search (steady_rules, Logged-existing) depth 8

pub ruleset logged_store = (
  steady_rules, Logged-load, Logged-events, Logged-save, Logged-transition, Logged-create,
  Logged-append_event,
)
