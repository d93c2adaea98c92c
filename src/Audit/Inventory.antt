-- ===== src/Audit/Inventory.antt =====
-- RepositoryDescriptor of models.py, and inventory.py: load_inventory, inventory_payload and
-- merge_inventory.
use Prim.Native.String.{compare as compare_text}
use Prim.Native.Nat.{Ordering}
use agentic_engineering_cont.Prelude.{
  String, Bool, not, Option, none, some, List, [], ◌∷◌, ◌==◌, contains, distinct, is_empty, is_some,
  join, concat, keep, map, lower, if◌then◌else◌,
}
use agentic_engineering_cont.Prelude.Platform.{
  ℤ, Json, null, bool, int, str, arr, obj, Items, nil, cons, Fields, end, field, get_field, opt,
  value_error, type_error,
}
use agentic_engineering_cont.Exec.{Result, ok, err}
use agentic_engineering_cont.Exec.Convert.{text_of, integer_of, is_truthy}

pub record RepositoryDescriptor : Type 0 where
  pub id : ℤ
  pub name : String
  pub full_name : String
  pub visibility : String
  pub default_branch : String
  pub clone_url : String
  pub archived : Bool
  pub commit_sha : Option String

abbrev required : List String
required = "id" ∷ "name" ∷ "full_name" ∷ "visibility" ∷ "default_branch" ∷ "clone_url" ∷ []

abbrev has_field : Fields → String → Bool
has_field fs k = is_some (get_field k fs)

abbrev or_null : Option Json → Json
or_null none = null
or_null (some j) = j

-- str(value), where value is not None
abbrev text_or_none : (Json → String) → Json → Option String
text_or_none str_of null = none
text_or_none str_of j = some (text_of str_of j)

abbrev object_fields : Json → Result Fields
object_fields (obj fs) = ok fs
object_fields j = err (value_error "inventory root must be an object")

abbrev list_items : Option Json → Result Items
list_items (some (arr js)) = ok js
list_items _ = err (value_error "inventory repositories must be a list")

abbrev and_then : {A B : Type 0} → Result A → (A → Result B) → Result B
and_then (ok a) f = f a
and_then (err e) f = err e

abbrev pub is_visibility : String → Bool
is_visibility v = contains ("public" ∷ "private" ∷ "internal" ∷ []) v

-- key=full_name.lower()
abbrev pub key_of : RepositoryDescriptor → String
key_of d = lower d.full_name

unfoldable pub insert_by_name :
    RepositoryDescriptor → List RepositoryDescriptor → List RepositoryDescriptor
insert_by_name d [] = d ∷ []
insert_by_name d (x ∷ xs) =
    let rest = insert_by_name d xs in
    elim (compare_text (lower d.name) (lower x.name)) [ Ordering.gt ↦ x ∷ rest | _ ↦ d ∷ x ∷ xs ]

-- sorted(..., key=lambda item: item.name.lower())
unfoldable pub sorted_by_name : List RepositoryDescriptor → List RepositoryDescriptor
unfolding insert_by_name
sorted_by_name [] = []
sorted_by_name (d ∷ ds) = insert_by_name d (sorted_by_name ds)

-- merged[key] = item, which leaves a key that is there in its place
unfoldable pub put_item :
    RepositoryDescriptor → List RepositoryDescriptor → List RepositoryDescriptor
put_item d [] = d ∷ []
put_item d (x ∷ xs) = let rest = put_item d xs in if key_of x == key_of d then d ∷ xs else x ∷ rest

unfoldable pub put_items :
    List RepositoryDescriptor → List RepositoryDescriptor → List RepositoryDescriptor
put_items [] merged = merged
put_items (d ∷ ds) merged = put_items ds (put_item d merged)

unfoldable pub merge_inventory :
    List RepositoryDescriptor → List RepositoryDescriptor → List RepositoryDescriptor
merge_inventory baseline live = sorted_by_name (put_items live (put_items baseline []))

module _ (str_of : Json → String) (int_of : String → Result ℤ) where
  -- RepositoryDescriptor.from_dict, of an object; its `id` is read before the other fields are used
  unfoldable pub from_dict : Fields → Result RepositoryDescriptor
  from_dict fs =
      let missing = keep (λ k. not (has_field fs k)) required in
      let text : String → String = λ k. text_of str_of (or_null (get_field k fs)) in
      let visibility = lower (text "visibility") in
      if not (is_empty missing)
      then err (value_error (concat ("repository descriptor missing: " ∷ join ", " missing ∷ [])))
      else if not (is_visibility visibility)
      then err (value_error (concat ("unsupported visibility: " ∷ visibility ∷ [])))
      else and_then (integer_of int_of (get_field "id" fs)) λ id. ok (record {
        id = id;
        name = text "name";
        full_name = text "full_name";
        visibility = visibility;
        default_branch = text "default_branch";
        clone_url = text "clone_url";
        archived = is_truthy (or_null (get_field "archived" fs));
        commit_sha = text_or_none str_of (or_null (get_field "commit_sha" fs));
      })

  -- Of an item that is no object: `in` is an error for a number or None, and finds none of the
  -- names in a text or a list (which is taken not to hold them).
  abbrev pub descriptor_of : Json → Result RepositoryDescriptor
  descriptor_of (obj fs) = from_dict fs
  descriptor_of (str s) = from_dict end
  descriptor_of (arr js) = from_dict end
  descriptor_of j = err (type_error "argument is not iterable")

  unfoldable pub descriptors : Items → Result (List RepositoryDescriptor)
  descriptors nil = ok []
  descriptors (cons j js) =
      let rest = descriptors js in and_then (descriptor_of j) λ d. and_then rest λ ds. ok (d ∷ ds)

  -- load_inventory, of the text's JSON value
  unfoldable pub load_inventory : Json → Result (Fields × List RepositoryDescriptor)
  load_inventory payload = and_then (object_fields payload) λ fs.
      and_then (list_items (get_field "repositories" fs)) λ repositories.
        and_then (descriptors repositories) λ ds.
          if distinct (map key_of ds)
          then ok (fs, sorted_by_name ds)
          else err (value_error "inventory contains duplicate repositories")

-- RepositoryDescriptor.to_dict
unfoldable pub to_dict : RepositoryDescriptor → Json
to_dict d = obj (
    field "id" (int d.id) (
      field "name" (str d.name) (
        field "full_name" (str d.full_name) (
          field "visibility" (str d.visibility) (
            field "default_branch" (str d.default_branch) (
              field "clone_url" (str d.clone_url) (
                field "archived" (bool d.archived)
                  (field "commit_sha" (opt d.commit_sha) end))))))))

abbrev dictionaries : List RepositoryDescriptor → Items
dictionaries [] = nil
dictionaries (d ∷ ds) = cons (to_dict d) (dictionaries ds)

-- inventory_payload; `now` is its reading of the clock
unfoldable pub inventory_payload : String → String → List RepositoryDescriptor → String → Json
inventory_payload now owner repositories source = obj (
    field "schema_version" (str "1.0.0") (
      field "owner" (str owner) (
        field "generated_at" (str now) (
          field "source" (str source)
            (field "repositories" (arr (dictionaries repositories)) end)))))
