-- ===== src/Workflow/Governed/Moves.antt =====
-- The invariant of all rows, and how a transition at one item keeps it.
use agentic_engineering_cont.Prelude.{ℕ, String, ◌≡◌, refl, ap, ◌∙◌, true, some, List}
use agentic_engineering_cont.Prelude.Platform.{Platform}
use agentic_engineering_cont.Exec.{Exec}
use agentic_engineering_cont.Exec.Keeps.{Keeps, Any}
use agentic_engineering_cont.Exec.Triple.{Triple, Triple-weaken, Keeps-Triple}
use agentic_engineering_cont.Workflow.Lifecycle.{WorkState, may_move, WorkItem}
use agentic_engineering_cont.Workflow.Store.{State, Update, transition}
use agentic_engineering_cont.Workflow.Store.Rows.{Row, row, moved, map_option}
use agentic_engineering_cont.Workflow.Store.Writes.{At, moved_row, At-transition}
use agentic_engineering_cont.Workflow.Duties.{ItemSafe, RowSafe}

abbrev pub AllSafe : State → Type 0
AllSafe s = (j : String) → RowSafe (row j s.db)

pub safe_item :
    (r : Row) (item : WorkItem)
    → RowSafe r
    → r.item ≡ some item
    → ItemSafe item r.plan r.approvals r.executions
safe_item r item s e = rw e at s

pub safe_row :
    (r : Row) (item : WorkItem)
    → r.item ≡ some item
    → ItemSafe item r.plan r.approvals r.executions
    → RowSafe r
safe_row r item e s = rw e s

module _ (p : Platform) (id : String) where
  -- An invariant of all rows, from what happens at the row of one item.
  pub At-row :
      {A : Type 0} (m : Exec State A)
      → ((r : Row) → RowSafe r → Triple (At RowSafe id r) m (λ _. AllSafe) AllSafe)
      → Keeps AllSafe m Any
  At-row m k = Keeps-Triple m (record {
    returns =
        λ s h a e. ((k (row id s.db) (h id)).returns s (record { safe = h; here = refl }) a e, tt);
    raises = λ s h x e. (k (row id s.db) (h id)).raises s (record { safe = h; here = refl }) x e;
  })

  module _ (r : Row) (item : WorkItem) (found : r.item ≡ some item) (us : List Update)
      (target : WorkState) (actor reason : String) where
    moved_safe :
        ((now : ℕ)
          → may_move item.state target ≡ true
          → ItemSafe (moved us now target item) r.plan r.approvals r.executions)
        → (was : WorkItem) (now : ℕ) → r.item ≡ some was
        → may_move was.state target ≡ true
        → RowSafe (moved_row us now target r)
    moved_safe safe was now at allowed =
        let same : was ≡ item = cc (found, at) in
        safe_row (moved_row us now target r) (moved us now target item)
          (ap (map_option (moved us now target)) found) (safe now (rw same at allowed))

    -- A transition in the middle of an operation.
    pub step :
        ((now : ℕ)
          → may_move item.state target ≡ true
          → ItemSafe (moved us now target item) r.plan r.approvals r.executions)
        → Triple
            (At RowSafe id r)
            (transition p id target actor reason us)
            (λ next s.
              (now : ℕ) × (At RowSafe id (moved_row us now target r) s
                × (next ≡ moved us now target item)))
            (At RowSafe id r)
    step safe =
        Triple-weaken _ (At-transition RowSafe id r p target actor reason us (moved_safe safe))
          (λ s h. h)
          (λ next s (now, m).
            (now, (m.at, m.result ∙ ap (moved us now target) (cc (found, m.found)))))
          (λ s h. h)

    -- A transition that ends an operation.
    pub finish :
        ((now : ℕ)
          → may_move item.state target ≡ true
          → ItemSafe (moved us now target item) r.plan r.approvals r.executions)
        → Triple (At RowSafe id r) (transition p id target actor reason us) (λ _. AllSafe) AllSafe
    finish safe = Triple-weaken _ (step safe) (λ s h. h) (λ next s h. h.1.0.safe) (λ s h. h.safe)
