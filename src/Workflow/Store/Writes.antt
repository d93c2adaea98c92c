-- ===== src/Workflow/Store/Writes.antt =====
-- How the methods of the store act on the row of one item, for any property `Safe` of rows that
-- the written rows have.
use agentic_engineering_cont.Prelude.{
  ℕ, String, ◌≡◌, refl, sym, ap, ◌∙◌, subst, true, false, ◌&&◌, Option, none, some, List, [], ◌∷◌,
  ◌++◌, ◌==◌, eq_iff, eq_refl, arith, any, Bool-cases, inl, inr, not-eq_true, or_left, or_right,
  ==_symm,
}
use agentic_engineering_cont.Prelude.Platform.{Platform, Json}
use agentic_engineering_cont.Exec.{ok, Exec, ◌>>=◌, ◌>>◌}
use agentic_engineering_cont.Exec.Keeps.{
  Keeps, Any, Keeps-with, Keeps-bind, Keeps-gets, Keeps-lift, Keeps-pure, Keeps-guard, Keeps-modify,
  ok-injective,
}
use agentic_engineering_cont.Exec.Triple.{
  Triple, Triple-bind, Triple-if, Triple-pure, Triple-raise, Triple-after, Triple-Keeps,
  Triple-modify, Triple-weaken, Triple-transaction,
}
use agentic_engineering_cont.Workflow.Lifecycle.{
  WorkState, may_move, WorkItem, RemediationPlan, Approval, ExecutionResult,
}
use agentic_engineering_cont.Workflow.Event.{Event}
use agentic_engineering_cont.Workflow.Store.{
  State, Update, found_item, found_plan, found_execution, newest, utc_now, insert_event,
  append_event, in_transaction, get_work_item, update_rows, write_transition, transition,
  insert_plan, save_plan, get_plan, insert_approval, add_approval, approvals_of, insert_execution,
  add_execution, latest_execution, add_item, add_plan, add_approval_row, add_execution_row,
  same_plan, clashes, same_finding, same_commit, created, insert_item, existing_or_raise,
  create_work_item,
}
use agentic_engineering_cont.Workflow.Store.Rows.{
  Row, row, item_of, plan_of, moved, map_option, item_of-set, find-holds, find-append_fail,
  find-append_new, keep-append_fail, keep-append_pass,
}

abbrev pub moved_row : List Update → ℕ → WorkState → Row → Row
moved_row us now target r = record r { item = map_option (moved us now target) r.item }

abbrev pub planned_row : RemediationPlan → Row → Row
planned_row plan r = record r { plan = some plan }

abbrev pub approved_row : Approval → Row → Row
approved_row a r = record r { approvals = r.approvals ++ a ∷ [] }

abbrev pub executed_row : ExecutionResult → Row → Row
executed_row x r = record r { executions = r.executions ++ x ∷ [] }

-- Every row is safe, and the row of `id` is `r`.
pub record At (Safe : Row → Type 0) (id : String) (r : Row) (s : State) : Type 0 where
  pub safe : (j : String) → Safe (row j s.db)
  pub here : row id s.db ≡ r

-- The item that `transition` returned, and the row that it left.
pub record Moved (Safe : Row → Type 0) (id : String) (r : Row) (us : List Update)
    (target : WorkState) (now : ℕ) (item : WorkItem) (s : State) : Type 0 where
  pub at : At Safe id (moved_row us now target r) s
  pub was : WorkItem
  pub found : r.item ≡ some was
  pub allowed : may_move was.state target ≡ true
  pub result : item ≡ moved us now target was

module _ (Safe : Row → Type 0) (id : String) (r : Row) where
  -- A change of the tables that changes the row of `id` to `r'` and no other.
  At-change :
      (s s' : State) (r' : Row)
      → At Safe id r s
      → row id s'.db ≡ r'
      → ((j : String) → (id == j) ≡ false → row j s'.db ≡ row j s.db)
      → Safe r'
      → At Safe id r' s'
  At-change s s' r' h own others safe' = record {
    safe = λ j. elim (Bool-cases (id == j)) [
      | inl same ↦
          subst (λ k. Safe (row k s'.db)) ((eq_iff id j).0 same) (subst Safe (sym own) safe')
      | inr other ↦ subst Safe (sym (others j other)) (h.safe j)
    ];
    here = own;
  }

  pub At-same : (s s' : State) → At Safe id r s → s'.db ≡ s.db → At Safe id r s'
  At-same s s' h e = record {
    safe = λ j. subst (λ d. Safe (row j d)) (sym e) (h.safe j);
    here = ap (row id) e ∙ h.here;
  }

  module _ (p : Platform) where
    pub At-utc_now : Keeps (At Safe id r) (utc_now p) Any
    unfolding utc_now
    At-utc_now = record { at = λ s h. At-same s _ h refl; gives = λ s h a e. tt }

    At-insert_event : (e : Event) → Keeps (At Safe id r) (insert_event p e) Any
    unfolding insert_event
    At-insert_event e = Keeps-bind {Q = Any} _ _ (Keeps-gets _ (λ s h. tt)) λ taken _.
        Keeps-bind _ _ (Keeps-guard _ _) λ _ _.
          Keeps-bind _ _ (Keeps-modify _ λ s h. record { safe = h.safe; here = h.here })
            λ _ _. Keeps-pure _ tt

    pub At-append_event :
        (who : Option String) (type actor : String) (payload : Json)
        → Keeps (At Safe id r) (append_event p who type actor payload) Any
    unfolding append_event
    At-append_event who type actor payload =
        Keeps-bind _ _ At-utc_now
          λ now _. Keeps-bind {Q = Any} _ _ (Keeps-gets _ (λ s h. tt)) λ e _. At-insert_event e

    pub At-get_work_item :
        Keeps
          (At Safe id r)
          (get_work_item p id)
          (λ item. (r.item ≡ some item) × (item.work_item_id ≡ id))
    unfolding get_work_item
    At-get_work_item =
        Keeps-bind
          {Q = λ o.
            (item : WorkItem) → o ≡ some item → (r.item ≡ some item) × (item.work_item_id ≡ id)}
          _ _
          (Keeps-gets _ λ s h item e. (
            ap (λ (x : Row). x.item) (sym h.here) ∙ e,
            (eq_iff item.work_item_id id).0
                (find-holds (λ (i : WorkItem). i.work_item_id == id) s.db.items item e),
          ))
          λ o found. Keeps-lift _ λ item e. found item (found_some o item e)
      where
        found_some :
            (o : Option WorkItem) (item : WorkItem) → found_item id o ≡ ok item → o ≡ some item
        found_some none item e = cc
        found_some (some x) item e = ap some (ok-injective e)

    pub At-get_plan : Keeps (At Safe id r) (get_plan p id) (λ plan. r.plan ≡ some plan)
    unfolding get_plan
    At-get_plan =
        Keeps-bind {Q = λ o. r.plan ≡ o} _ _
          (Keeps-gets _ (λ s h. ap (λ (x : Row). x.plan) (sym h.here)))
          λ o found. Keeps-lift _ λ plan e. found ∙ found_some o plan e
      where
        found_some :
            (o : Option RemediationPlan) (plan : RemediationPlan)
            → found_plan id o ≡ ok plan
            → o ≡ some plan
        found_some none plan e = cc
        found_some (some x) plan e = ap some (ok-injective e)

    pub At-approvals_of : Keeps (At Safe id r) (approvals_of p id) (λ list. r.approvals ≡ list)
    unfolding approvals_of
    At-approvals_of = Keeps-gets _ (λ s h. ap (λ (x : Row). x.approvals) (sym h.here))

    pub At-latest_execution :
        Keeps (At Safe id r) (latest_execution p id) (λ x. newest r.executions ≡ some x)
    unfolding latest_execution
    At-latest_execution =
        Keeps-bind {Q = λ o. newest r.executions ≡ o} _ _
          (Keeps-gets _ (λ s h. ap (λ (x : Row). newest x.executions) (sym h.here)))
          λ o found. Keeps-lift _ λ x e. found ∙ found_some o x e
      where
        found_some :
            (o : Option ExecutionResult) (x : ExecutionResult)
            → found_execution id o ≡ ok x
            → o ≡ some x
        found_some none x e = cc
        found_some (some y) x e = ap some (ok-injective e)

abbrev Anywhere : State → Type 0
Anywhere s = Unit {0}

module _ (Safe : Row → Type 0) (id : String) (r : Row) (p : Platform) where
  -- A write of a row in a transaction with its event.
  At-write :
      {A X : Type 0} (m : Exec State A) (r' : Row) (who : Option String) (type actor : String)
      (payload : Json)
      → Triple (At Safe id r) m (λ _ s. At Safe id r' s × X) Anywhere
      → Triple
          (At Safe id r)
          (in_transaction p (do m; append_event p who type actor payload))
          (λ _ s. At Safe id r' s × X)
          (At Safe id r)
  unfolding in_transaction
  At-write {X = X} m r' who type actor payload k =
      Triple-transaction _ _ _
        (Triple-bind m (λ _. append_event p who type actor payload) k
          λ _.
            Triple-weaken _
              (Triple-Keeps _ (Keeps-with X (At-append_event Safe id r' p who type actor payload))
                (λ s h. tt))
              (λ s h. h) (λ a s h. h.0) (λ s h. h))
        (λ s s' h. At-same Safe id r s _ h refl)

  module _ (us : List Update) (target : WorkState) (now : ℕ) where
    update_rows_others :
        (s : State) (j : String)
        → (id == j) ≡ false
        → row j (update_rows p id us now target s).db ≡ row j s.db
    unfolding update_rows
    update_rows_others s j other =
        ap (λ (i : Option WorkItem). record (row j s.db) { item = i })
          (item_of-set id j us now target s.db.items ∙ (rw other refl))

    update_rows_own :
        (s : State)
        → row id s.db ≡ r
        → row id (update_rows p id us now target s).db ≡ moved_row us now target r
    unfolding update_rows
    update_rows_own s h =
        ap (λ (i : Option WorkItem). record (row id s.db) { item = i })
          (item_of-set id id us now target s.db.items ∙ (rw (eq_refl id) refl))
        ∙ ap (moved_row us now target) h

    pub At-write_transition :
        (item : WorkItem) (actor reason : String)
        → item.work_item_id ≡ id
        → Safe (moved_row us now target r)
        → Triple
            (At Safe id r)
            (write_transition p item target actor reason us now)
            (λ _ s. At Safe id (moved_row us now target r) s × Unit {0})
            (At Safe id r)
    unfolding write_transition
    At-write_transition item actor reason same safe' = At-write _ _ _ _ _ _ (
        Triple-modify _ λ s h. (
          rw same (
              At-change Safe id r s (update_rows p id us now target s) _ h
                (update_rows_own s h.here) (update_rows_others s) safe'),
          tt,
        ))

  get_work_item-found :
      (s : State) (item : WorkItem)
      → item_of id s.db.items ≡ some item
      → get_work_item p id s ≡ (ok item, s)
  unfolding get_work_item found_item ◌>>=◌
  get_work_item-found s item e = rw e refl

  pub Triple-get_found :
      {P E : State → Type 0} (item : WorkItem)
      → ((s : State) → P s → item_of id s.db.items ≡ some item)
      → Triple P (get_work_item p id) (λ i s. P s × (i ≡ item)) E
  Triple-get_found {P} item found = record {
    returns = λ s h i e.
        rw (get_work_item-found s item (found s h))
          (h, sym (ok-injective (rw (get_work_item-found s item (found s h)) at e)));
    raises = λ s h x e. ground (arith, get_work_item-found s item (found s h));
  }

  -- `transition` moves the item as the table allows, or raises and leaves its row.
  pub At-transition :
      (target : WorkState) (actor reason : String) (us : List Update)
      → ((was : WorkItem) (now : ℕ)
          → r.item ≡ some was
          → may_move was.state target ≡ true
          → Safe (moved_row us now target r))
      → Triple
          (At Safe id r)
          (transition p id target actor reason us)
          (λ item s. (now : ℕ) × Moved Safe id r us target now item s)
          (At Safe id r)
  unfolding transition
  At-transition target actor reason us safe' =
      Triple-after _ _ (At-get_work_item Safe id r p) (λ s h. h)
        λ was found.
          Triple-after _ _ (Keeps-guard _ _) (λ s h. h)
            λ _ allowed.
              Triple-after _ _ (Keeps-guard _ _) (λ s h. h)
                λ _ supported.
                  Triple-after _ _ (At-utc_now Safe id r p) (λ s h. h)
                    λ now _.
                      Triple-bind _ _
                        (At-write_transition us target now was actor reason found.1
                          (safe' was now found.0 allowed))
                        λ _.
                          Triple-weaken _
                            (Triple-get_found (moved us now target was) λ s h.
                              ap (λ (x : Row). x.item) h.here
                              ∙ ap (map_option (moved us now target)) found.0)
                            (λ s h. h.0)
                            (λ item s h. (
                              now,
                              record {
                                at = h.0;
                                was = was;
                                found = found.0;
                                allowed = allowed;
                                result = h.1;
                              },
                            ))
                            (λ s h. h)

  -- The three methods that add a row to a table.
  pub At-save_plan :
      (plan : RemediationPlan)
      → plan.work_item_id ≡ id
      → (r.plan ≡ none → Safe (planned_row plan r))
      → Triple
          (At Safe id r)
          (save_plan p plan)
          (λ _ s. At Safe id (planned_row plan r) s × (r.plan ≡ none))
          (At Safe id r)
  unfolding save_plan insert_plan
  At-save_plan plan own safe' = At-write _ _ _ _ _ _ (
      Triple-after {X = λ b. b ≡ false → r.plan ≡ none} _ _
        (Keeps-gets _ λ s h e. ap (λ (x : Row). x.plan) (sym h.here) ∙ no_plan s.db.plans e)
        (λ s h. tt)
        λ taken absent.
          Triple-after _ _ (Keeps-guard _ _) (λ s h. tt)
            λ _ fresh.
              Triple-after {X = Any} _ _ (Keeps-gets _ (λ s h. tt)) (λ s h. tt)
                λ known _.
                  Triple-after _ _ (Keeps-guard _ _) (λ s h. tt)
                    λ _ _. Triple-modify _ λ s h. (
                      added s h (absent (not-eq_true taken fresh)),
                      absent (not-eq_true taken fresh),
                    ))
    where
      no_plan :
          (plans : List RemediationPlan)
          → any (same_plan plan) plans ≡ false
          → plan_of id plans ≡ none
      no_plan [] e = refl
      no_plan (x ∷ xs) e = ground (arith, no_plan xs, own)

      added :
          (s : State)
          → At Safe id r s
          → r.plan ≡ none
          → At Safe id (planned_row plan r) (add_plan plan s)
      added s h absent =
          At-change Safe id r s (add_plan plan s) _ h
            (ap (λ (v : Option RemediationPlan). record (row id s.db) { plan = v })
                (find-append_new (λ (x : RemediationPlan). x.work_item_id == id) s.db.plans plan
                  ((eq_iff plan.work_item_id id).1 own) (ap (λ (x : Row). x.plan) h.here ∙ absent))
              ∙ ap (planned_row plan) h.here)
            (λ j other.
              ap (λ (v : Option RemediationPlan). record (row j s.db) { plan = v })
                (find-append_fail (λ (x : RemediationPlan). x.work_item_id == j) s.db.plans plan
                  (rw own other)))
            (safe' absent)

  pub At-add_approval :
      (a : Approval)
      → a.work_item_id ≡ id
      → Safe (approved_row a r)
      → Triple
          (At Safe id r)
          (add_approval p a)
          (λ _ s. At Safe id (approved_row a r) s × Unit {0})
          (At Safe id r)
  unfolding add_approval insert_approval
  At-add_approval a own safe' = At-write _ _ _ _ _ _ (
      Triple-after {X = Any} _ _ (Keeps-gets _ (λ s h. tt)) (λ s h. tt)
        λ known _.
          Triple-after _ _ (Keeps-guard _ _) (λ s h. tt)
            λ _ _. Triple-modify _ λ s h. (
              At-change Safe id r s (add_approval_row a s) _ h
                  (ap (λ (v : List Approval). record (row id s.db) { approvals = v })
                      (keep-append_pass (λ (y : Approval). y.work_item_id == id) s.db.approvals a
                        ((eq_iff a.work_item_id id).1 own))
                    ∙ ap (approved_row a) h.here)
                  (λ j other.
                    ap (λ (v : List Approval). record (row j s.db) { approvals = v })
                      (keep-append_fail (λ (y : Approval). y.work_item_id == j) s.db.approvals a
                        (rw own other)))
                  safe',
              tt,
            ))

  pub At-add_execution :
      (x : ExecutionResult)
      → x.work_item_id ≡ id
      → Safe (executed_row x r)
      → Triple
          (At Safe id r)
          (add_execution p x)
          (λ _ s. At Safe id (executed_row x r) s × Unit {0})
          (At Safe id r)
  unfolding add_execution insert_execution
  At-add_execution x own safe' = At-write _ _ _ _ _ _ (
      Triple-after {X = Any} _ _ (Keeps-gets _ (λ s h. tt)) (λ s h. tt)
        λ taken _.
          Triple-after _ _ (Keeps-guard _ _) (λ s h. tt)
            λ _ _.
              Triple-after {X = Any} _ _ (Keeps-gets _ (λ s h. tt)) (λ s h. tt)
                λ known _.
                  Triple-after _ _ (Keeps-guard _ _) (λ s h. tt)
                    λ _ _. Triple-modify _ λ s h. (
                      At-change Safe id r s (add_execution_row x s) _ h
                          (ap
                              (λ (v : List ExecutionResult). record (row id s.db) {
                                executions = v;
                              })
                              (keep-append_pass (λ (y : ExecutionResult). y.work_item_id == id)
                                s.db.executions x ((eq_iff x.work_item_id id).1 own))
                            ∙ ap (executed_row x) h.here)
                          (λ j other.
                            ap
                              (λ (v : List ExecutionResult). record (row j s.db) { executions = v })
                              (keep-append_fail (λ (y : ExecutionResult). y.work_item_id == j)
                                s.db.executions x (rw own other)))
                          safe',
                      tt,
                    ))

abbrev pub created_row : WorkItem → Row → Row
created_row item r = record r { item = some item }

-- A refused INSERT changes no row, and an accepted one was of a new id.
module _ (Safe : Row → Type 0) (r : Row) (p : Platform) (item : WorkItem) where
  no_item :
      (items : List WorkItem)
      → any (clashes item) items ≡ false
      → item_of item.work_item_id items ≡ none
  no_item [] e = refl
  no_item (x ∷ xs) e =
      let first : clashes item x ≡ false = or_left (clashes item x) (any (clashes item) xs) e in
      let other : (x.work_item_id == item.work_item_id) ≡ false =
        ==_symm item.work_item_id x.work_item_id (
          or_left (item.work_item_id == x.work_item_id)
            (same_finding item x && same_commit item.source_commit x.source_commit) first) in
      rw other (no_item xs (or_right (clashes item x) (any (clashes item) xs) e))

  added_item :
      (s : State)
      → At Safe item.work_item_id r s
      → r.item ≡ none
      → Safe (created_row item r)
      → At Safe item.work_item_id (created_row item r) (add_item item s)
  added_item s h absent safe' =
      At-change Safe item.work_item_id r s (add_item item s) _ h
        (ap (λ (v : Option WorkItem). record (row item.work_item_id s.db) { item = v })
            (find-append_new (λ (x : WorkItem). x.work_item_id == item.work_item_id) s.db.items item
              (eq_refl item.work_item_id) (ap (λ (x : Row). x.item) h.here ∙ absent))
          ∙ ap (created_row item) h.here)
        (λ j other.
          ap (λ (v : Option WorkItem). record (row j s.db) { item = v })
            (find-append_fail (λ (x : WorkItem). x.work_item_id == j) s.db.items item other))
        safe'

  pub At-create_work_item :
      (r.item ≡ none → Safe (created_row item r))
      → Triple
          (At Safe item.work_item_id r)
          (create_work_item p item)
          (λ _ s. (j : String) → Safe (row j s.db))
          (At Safe item.work_item_id r)
  unfolding create_work_item created insert_item existing_or_raise in_transaction
  At-create_work_item safe' =
      Triple-transaction _ _ {X = λ _. Unit {0}} _
        (Triple-after {X = λ b. b ≡ false → r.item ≡ none} _ _
          (Keeps-gets _ λ s h e. ap (λ (x : Row). x.item) (sym h.here) ∙ no_item s.db.items e)
          (λ s h. tt)
          λ clash absent.
            Triple-after {X = Any} _ _ (Keeps-gets _ (λ s h. tt)) (λ s h. tt)
              λ existing _.
                Triple-if clash _ _ (λ _. found existing)
                  (λ free.
                    Triple-bind _ _
                      (Triple-modify {Q = λ _. At Safe item.work_item_id (created_row item r)} _
                        λ s h. added_item s h (absent free) (safe' (absent free)))
                      λ _.
                        Triple-after _ _
                          (At-append_event Safe item.work_item_id (created_row item r) p _ _ _ _)
                          (λ s h. tt) λ _ _. Triple-pure _ λ s h. h.safe))
        (λ s s' h. At-same Safe item.work_item_id r s _ h refl)
    where
      found :
          (o : Option WorkItem)
          → Triple
              (At Safe item.work_item_id r)
              (existing_or_raise p o)
              (λ _ s. (j : String) → Safe (row j s.db))
              (λ _. Unit {0})
      found none = Triple-raise _ λ s h. tt
      found (some x) = Triple-pure _ λ s h. h.safe
