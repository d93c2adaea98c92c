-- ===== src/Workflow/Store/Atomic.antt =====
-- A transition that raises leaves the tables as they were.
use agentic_engineering_cont.Prelude.{String, ◌≡◌, refl, ap, ◌∙◌, some, List}
use agentic_engineering_cont.Prelude.Platform.{Error, Platform}
use agentic_engineering_cont.Exec.{err}
use agentic_engineering_cont.Exec.Keeps.{
  Keeps, Any, Keeps-bind, Keeps-gets, Keeps-lift, Keeps-guard,
}
use agentic_engineering_cont.Exec.Triple.{
  Triple, Triple-after, Triple-bind, Triple-transaction, Triple-weaken,
}
use agentic_engineering_cont.Workflow.Lifecycle.{WorkState, WorkItem}
use agentic_engineering_cont.Workflow.Store.{
  Db, State, Update, put_db, utc_now, get_work_item, write_transition, in_transaction, transition,
}
use agentic_engineering_cont.Workflow.Store.Rows.{Row, row, item_of, moved, map_option}
use agentic_engineering_cont.Workflow.Store.Writes.{
  At, At-get_work_item, At-write_transition, Triple-get_found,
}

abbrev Plain : Row → Type 0
Plain r = Unit

module _ (p : Platform) (id : String) (d : Db) where
  abbrev Unchanged : State → Type 0
  Unchanged s = s.db ≡ d

  row_kept : (s : State) → Unchanged s → At Plain id (row id d) s
  row_kept s h = record { safe = λ j. tt; here = ap (row id) h }

  Unchanged-utc_now : Keeps Unchanged (utc_now p) Any
  unfolding utc_now
  Unchanged-utc_now = record { at = λ s h. h; gives = λ s h a e. tt }

  reads : Keeps Unchanged (get_work_item p id) Any
  unfolding get_work_item
  reads = Keeps-bind _ _ (Keeps-gets {Q = Any} _ λ s h. tt) λ row _. Keeps-lift _ λ a e. tt

  Unchanged-get_work_item :
      Keeps Unchanged
        (get_work_item p id)
        (λ item. ((row id d).item ≡ some item) × (item.work_item_id ≡ id))
  Unchanged-get_work_item = record {
    at = reads.at;
    gives = λ s h. (At-get_work_item Plain id (row id d) p).gives s (row_kept s h);
  }

  -- The write is rolled back whole, and what it leaves when it returns is known from its row.
  Unchanged-write_transition :
      (item : WorkItem) (target : WorkState) (actor reason : String) (us : List Update) (now : _)
      → ((row id d).item ≡ some item)
      → (item.work_item_id ≡ id)
      → Triple Unchanged
          (write_transition p item target actor reason us now)
          (λ _ s. item_of id s.db.items ≡ some (moved us now target item))
          Unchanged
  unfolding write_transition in_transaction
  Unchanged-write_transition item target actor reason us now found same = record {
    returns = λ s h a e.
        let x =
          (At-write_transition Plain id (row id d) p us target now item actor reason same
              tt).returns
            s (row_kept s h) a e in
        ap (λ (x : Row). x.item) x.0.here ∙ ap (map_option (moved us now target)) found;
    raises =
        (Triple-transaction (λ (s : State). s.db) put_db {P = Unchanged} {E = Unchanged}
          {X = λ s. Unit} {Q = λ a s. Unit} _
          (record { returns = λ s h a e. tt; raises = λ s h e q. tt }) (λ s s' h. h)).raises;
  }

  Unchanged-transition :
      (target : WorkState) (actor reason : String) (us : List Update)
      → Triple Unchanged (transition p id target actor reason us) (λ _ s. Unit {0}) Unchanged
  unfolding transition
  Unchanged-transition target actor reason us =
      Triple-after _ _ Unchanged-get_work_item (λ s h. h)
        λ was found.
          Triple-after _ _ (Keeps-guard _ _) (λ s h. h)
            λ _ allowed.
              Triple-after _ _ (Keeps-guard _ _) (λ s h. h)
                λ _ supported.
                  Triple-after _ _ Unchanged-utc_now (λ s h. h)
                    λ now _.
                      Triple-bind _ _
                        (Unchanged-write_transition was target actor reason us now found.0 found.1)
                        λ _.
                          Triple-weaken _
                            (Triple-get_found Plain id (row id d) p (moved us now target was)
                              λ s h. h)
                            (λ s h. h) (λ item s h. tt) (λ s h. h)

-- A transition that raises, wherever it does, leaves every table of the store as it was: neither the
-- item nor the event log shows a part of it.
pub transition-Unchanged :
    (p : Platform) (id : String) (target : WorkState) (actor reason : String) (us : List Update)
    → (s : State) (e : Error) → (transition p id target actor reason us s).0 ≡ err e
    → (transition p id target actor reason us s).1.db ≡ s.db
transition-Unchanged p id target actor reason us s e raised =
    (Unchanged-transition p id s.db target actor reason us).raises s refl e raised
