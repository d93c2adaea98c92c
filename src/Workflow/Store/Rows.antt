-- ===== src/Workflow/Store/Rows.antt =====
-- What the tables hold of one work item, and how each write of the store changes it. The proofs
-- about the workflow see the database through these rows.
use mathlib.Core.List.{foldl}
use agentic_engineering_cont.Prelude.{
  ℕ, String, ◌≡◌, refl, ap, ◌∙◌, Bool, true, false, Option, none, some, List, [], ◌∷◌, ◌++◌, map,
  ◌==◌, eq_iff, arith, find, keep, if◌then◌else◌,
}
use agentic_engineering_cont.Workflow.Lifecycle.{
  WorkState, WorkItem, RemediationPlan, Approval, ExecutionResult,
}
use agentic_engineering_cont.Workflow.Store.{
  Db, Update, owner, plan_id, retry_count, last_error, due_at, unsupported, assign, set_item,
}

pub record Row : Type 0 where
  pub item : Option WorkItem
  pub plan : Option RemediationPlan
  pub approvals : List Approval
  pub executions : List ExecutionResult

abbrev pub item_of : String → List WorkItem → Option WorkItem
item_of id items = find (λ item. item.work_item_id == id) items

abbrev pub plan_of : String → List RemediationPlan → Option RemediationPlan
plan_of id plans = find (λ plan. plan.work_item_id == id) plans

abbrev pub approvals_in : String → List Approval → List Approval
approvals_in id approvals = keep (λ a. a.work_item_id == id) approvals

abbrev pub executions_in : String → List ExecutionResult → List ExecutionResult
executions_in id executions = keep (λ r. r.work_item_id == id) executions

abbrev pub row : String → Db → Row
row id d = record {
  item = item_of id d.items;
  plan = plan_of id d.plans;
  approvals = approvals_in id d.approvals;
  executions = executions_in id d.executions;
}

-- The item after an UPDATE.
abbrev pub moved : List Update → ℕ → WorkState → WorkItem → WorkItem
moved updates now target item = record (foldl assign item updates) {
  state = target;
  updated_at = now;
}

abbrev pub map_option : {A B : Type 0} → (A → B) → Option A → Option B
map_option f none = none
map_option f (some a) = some (f a)

module _ {A : Type 0} where
  find-map :
      (p : A → Bool) (f : A → A)
      → ((a : A) → p (f a) ≡ p a)
      → (xs : List A) → find p (map f xs) ≡ map_option f (find p xs)
  find-map p f same [] = refl
  find-map p f same (x ∷ xs) = ground (arith, same x, find-map p f same xs)

  pub find-holds : (p : A → Bool) (xs : List A) (a : A) → find p xs ≡ some a → p a ≡ true
  find-holds p [] a e = cc
  find-holds p (x ∷ xs) a e = ground (arith, find-holds p xs a)

  pub find-append_fail :
      (p : A → Bool) (xs : List A) (a : A) → p a ≡ false → find p (xs ++ a ∷ []) ≡ find p xs
  find-append_fail p [] a h = ground arith
  find-append_fail p (x ∷ xs) a h = ground (arith, find-append_fail p xs a h)

  pub find-append_new :
      (p : A → Bool) (xs : List A) (a : A)
      → p a ≡ true
      → find p xs ≡ none
      → find p (xs ++ a ∷ []) ≡ some a
  find-append_new p [] a h n = ground arith
  find-append_new p (x ∷ xs) a h n = ground (arith, find-append_new p xs a h)

  pub keep-append_fail :
      (p : A → Bool) (xs : List A) (a : A) → p a ≡ false → keep p (xs ++ a ∷ []) ≡ keep p xs
  keep-append_fail p [] a h = ground arith
  keep-append_fail p (x ∷ xs) a h = ground (arith, keep-append_fail p xs a h)

  pub keep-append_pass :
      (p : A → Bool) (xs : List A) (a : A)
      → p a ≡ true
      → keep p (xs ++ a ∷ []) ≡ keep p xs ++ a ∷ []
  keep-append_pass p [] a h = ground arith
  keep-append_pass p (x ∷ xs) a h = ground (arith, keep-append_pass p xs a h)

assign_id : (item : WorkItem) (u : Update) → (assign item u).work_item_id ≡ item.work_item_id
assign_id item (owner o) = refl
assign_id item (plan_id i) = refl
assign_id item (retry_count n) = refl
assign_id item (last_error e) = refl
assign_id item (due_at t) = refl
assign_id item (unsupported k v) = refl

assigned_id :
    (item : WorkItem) (us : List Update) → (foldl assign item us).work_item_id ≡ item.work_item_id
assigned_id item [] = refl
assigned_id item (u ∷ us) = assigned_id (assign item u) us ∙ assign_id item u

set_item_id :
    (id : String) (us : List Update) (now : ℕ) (t : WorkState) (item : WorkItem)
    → (set_item id us now t item).work_item_id ≡ item.work_item_id
set_item_id id us now t item = ground (arith, assigned_id item us)

-- An UPDATE moves the item with its id, and leaves every other as it is.
pub item_of-set :
    (id j : String) (us : List Update) (now : ℕ) (t : WorkState) (items : List WorkItem)
    → item_of j (map (set_item id us now t) items)
      ≡ (if id == j then map_option (moved us now t) (item_of j items) else item_of j items)
item_of-set id j us now t items =
    find-map (λ item. item.work_item_id == j) (set_item id us now t)
      (λ item. ap (λ s. s == j) (set_item_id id us now t item)) items
    ∙ set_found (item_of j items) (find-holds (λ item. item.work_item_id == j) items)
  where
    set_found :
        (o : Option WorkItem)
        → ((item : WorkItem) → o ≡ some item → (item.work_item_id == j) ≡ true)
        → map_option (set_item id us now t) o
          ≡ (if id == j then map_option (moved us now t) o else o)
    set_found none h = ground arith
    set_found (some item) h =
        ground
          (arith, h item refl, eq_iff item.work_item_id j, eq_iff item.work_item_id id, eq_iff id j)
