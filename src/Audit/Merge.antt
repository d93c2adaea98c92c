-- ===== src/Audit/Merge.antt =====
-- merge_inventory looked up by full name, against the two lists that it merges.
use Prim.Native.String.{compare as compare_text}
use Prim.Native.Nat.{Ordering}
use agentic_engineering_cont.Prelude.{
  String, ◌≡◌, refl, sym, ap, ◌∙◌, Bool, true, false, Option, none, some, List, [], ◌∷◌, ◌==◌,
  lower, find, Bool-cases, inl, inr, eq_iff, ==_symm, if◌then◌else◌,
}
use agentic_engineering_cont.Audit.Inventory.{
  RepositoryDescriptor, key_of, insert_by_name, sorted_by_name, put_item, put_items,
  merge_inventory,
}

abbrev pub named : String → List RepositoryDescriptor → Option RepositoryDescriptor
named k ds = find (λ d. key_of d == k) ds

abbrev pub or_else : {A : Type 0} → Option A → Option A → Option A
or_else (some a) o = some a
or_else none o = o

-- The last entry of a list with this name, which is what a dictionary made of the list keeps.
unfoldable pub latest : String → List RepositoryDescriptor → Option RepositoryDescriptor
latest k [] = none
latest k (d ∷ ds) = or_else (latest k ds) (if key_of d == k then some d else none)

-- No two entries have one name.
unfoldable pub AreDistinct : List RepositoryDescriptor → Type 0
AreDistinct [] = Unit
AreDistinct (d ∷ ds) = (named (key_of d) ds ≡ none) × AreDistinct ds

named-put_item :
    (k : String) (d : RepositoryDescriptor) (xs : List RepositoryDescriptor)
    → named k (put_item d xs) ≡ (if key_of d == k then some d else named k xs)
unfolding put_item
named-put_item k d [] = refl
named-put_item k d (x ∷ xs) = elim (Bool-cases (key_of x == key_of d)) [
  | inl same ↦ elim (Bool-cases (key_of d == k)) [
    | inl it ↦ rw (same, it) refl
    | inr other ↦
        let skipped : (key_of x == k) ≡ false = ap (λ t. t == k) ((eq_iff _ _).0 same) ∙ other in
        rw (same, other, skipped) refl
  ]
  | inr differ ↦ elim (Bool-cases (key_of x == k)) [
    | inl it ↦
        let other : (key_of d == k) ≡ false =
          ==_symm _ _ (sym (ap (λ t. t == key_of d) ((eq_iff _ _).0 it)) ∙ differ) in
        rw (differ, it, other) refl
    | inr skipped ↦ rw (differ, skipped) (named-put_item k d xs)
  ]
]

-- named k of a list after any of its entries' keys are put.
put_item-AreDistinct :
    (d : RepositoryDescriptor) (xs : List RepositoryDescriptor)
    → AreDistinct xs
    → AreDistinct (put_item d xs)
unfolding put_item AreDistinct
put_item-AreDistinct d [] x = (refl, tt)
put_item-AreDistinct d (x ∷ xs) distinct = elim (Bool-cases (key_of x == key_of d)) [
  | inl same ↦
      let absent : named (key_of d) xs ≡ none =
        ap (λ t. named t xs) (sym ((eq_iff _ _).0 same)) ∙ distinct.0 in
      rw same (absent, distinct.1)
  | inr differ ↦
      let other = ==_symm _ _ differ in
      rw differ (
        (named-put_item (key_of x) d xs ∙ (rw other distinct.0)),
        put_item-AreDistinct d xs distinct.1,
      )
]

put_items-AreDistinct :
    (ds merged : List RepositoryDescriptor) → AreDistinct merged → AreDistinct (put_items ds merged)
unfolding put_items
put_items-AreDistinct [] merged x = x
put_items-AreDistinct (d ∷ ds) merged x =
    put_items-AreDistinct ds (put_item d merged) (put_item-AreDistinct d merged x)

or_else_assoc : {A : Type 0} (a b c : Option A) → or_else (or_else a b) c ≡ or_else a (or_else b c)
or_else_assoc (some a) b c = refl
or_else_assoc none b c = refl

or_else-none : {A : Type 0} (o : Option A) → or_else o none ≡ o
or_else-none none = refl
or_else-none (some a) = refl

if-or_else :
    {A : Type 0} (b : Bool) (a : A) (o : Option A)
    → (if b then some a else o) ≡ or_else (if b then some a else none) o
if-or_else true a o = refl
if-or_else false a o = refl

named-put_items :
    (k : String) (ds merged : List RepositoryDescriptor)
    → named k (put_items ds merged) ≡ or_else (latest k ds) (named k merged)
unfolding put_items latest
named-put_items k [] merged = refl
named-put_items k (d ∷ ds) merged =
    named-put_items k ds (put_item d merged)
    ∙ ap (or_else (latest k ds))
        (named-put_item k d merged ∙ if-or_else (key_of d == k) d (named k merged))
    ∙ sym (or_else_assoc (latest k ds) (if key_of d == k then some d else none) (named k merged))

absent-head :
    (j : String) (x : RepositoryDescriptor) (xs : List RepositoryDescriptor)
    → named j (x ∷ xs) ≡ none
    → ((key_of x == j) ≡ false) × (named j xs ≡ none)
absent-head j x xs absent = elim (Bool-cases (key_of x == j)) [
  | inl same ↦ let found : some x ≡ none = rw same at absent in cc
  | inr differ ↦ (differ, rw differ at absent)
]

-- Two neighbours of different names may change places.
named_swap :
    (k : String) (x d : RepositoryDescriptor) (xs : List RepositoryDescriptor)
    → (key_of x == key_of d) ≡ false
    → named k (x ∷ d ∷ xs) ≡ named k (d ∷ x ∷ xs)
named_swap k x d xs differ = elim (Bool-cases (key_of x == k)) [
  | inl it ↦
      let other : (key_of d == k) ≡ false =
        ==_symm _ _ (sym (ap (λ t. t == key_of d) ((eq_iff _ _).0 it)) ∙ differ) in
      rw (it, other) refl
  | inr skipped ↦ rw skipped refl
]

named-place :
    (k : String) (d x : RepositoryDescriptor) (xs rest : List RepositoryDescriptor) (o : Ordering)
    → (key_of x == key_of d) ≡ false
    → named k rest ≡ named k (d ∷ xs)
    → named k (elim o [ Ordering.gt ↦ x ∷ rest | _ ↦ d ∷ x ∷ xs ]) ≡ named k (d ∷ x ∷ xs)
named-place k d x xs rest Ordering.lt differ same = refl
named-place k d x xs rest Ordering.eq differ same = refl
named-place k d x xs rest Ordering.gt differ same =
    ap (λ o. if key_of x == k then some x else o) same ∙ named_swap k x d xs differ

named-insert_by_name :
    (k : String) (d : RepositoryDescriptor) (xs : List RepositoryDescriptor)
    → named (key_of d) xs ≡ none
    → named k (insert_by_name d xs) ≡ named k (d ∷ xs)
unfolding insert_by_name
named-insert_by_name k d [] absent = refl
named-insert_by_name k d (x ∷ xs) absent =
    let (differ, beyond) = absent-head (key_of d) x xs absent in
    named-place k d x xs (insert_by_name d xs) (compare_text (lower d.name) (lower x.name)) differ
      (named-insert_by_name k d xs beyond)

-- Sorting leaves each name where it can be found.
named-sorted_by_name :
    (k : String) (ds : List RepositoryDescriptor)
    → AreDistinct ds
    → named k (sorted_by_name ds) ≡ named k ds
unfolding sorted_by_name AreDistinct
named-sorted_by_name k [] distinct = refl
named-sorted_by_name k (d ∷ ds) (absent, distinct) =
    named-insert_by_name k d (sorted_by_name ds)
      (named-sorted_by_name (key_of d) ds distinct ∙ absent)
    ∙ ap (λ o. if key_of d == k then some d else o) (named-sorted_by_name k ds distinct)

-- Under each full name, in any case of its letters, merge_inventory has the last entry of the live
-- list, or else the last one of the baseline: what the live list omits is kept, and no other name
-- is added.
pub named-merge_inventory :
    (k : String) (baseline live : List RepositoryDescriptor)
    → named k (merge_inventory baseline live) ≡ or_else (latest k live) (latest k baseline)
unfolding merge_inventory AreDistinct
named-merge_inventory k baseline live =
    let none_twice =
      put_items-AreDistinct live (put_items baseline []) (put_items-AreDistinct baseline [] tt) in
    named-sorted_by_name k (put_items live (put_items baseline [])) none_twice
    ∙ named-put_items k live (put_items baseline [])
    ∙ ap (or_else (latest k live))
        (named-put_items k baseline [] ∙ or_else-none (latest k baseline))
