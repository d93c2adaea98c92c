-- ===== src/Development/Registry.antt =====
-- RepositoryRegistry.get, and the contracts that the controller reads from a repository: its owner,
-- its required checks and the risk of an intent.
use Prim.Native.Char.{code}
use Prim.Native.String.{compare as compare_text}
use Prim.Native.Nat.{Ordering}
use agentic_engineering_cont.Prelude.{
  keep, String, ◌≡◌, refl, Bool, true, false, not, ◌||◌, Option, none, some, List, [], ◌∷◌, map,
  ◌==◌, any, is_empty, find, contains, distinct, concat, lower, strip, is_blank, split_first, eqb,
  if◌then◌else◌,
}
use agentic_engineering_cont.Prelude.Platform.{
  value_error, key_error, permission_error, runtime_error,
}
use agentic_engineering_cont.Exec.{Result, ok, err}
use agentic_engineering_cont.Development.Task.{Repository, Registry}
use agentic_engineering_cont.Development.Workspace.{Policy}

-- The repositories under their names in lower case, the entry that counts first.
abbrev found_repository : String → Option Repository → Result Repository
found_repository name none = err (key_error (concat ("repository is not registered: " ∷ name ∷ [])))
found_repository name (some r) =
    if r.status == "active"
    then ok r
    else err
        (permission_error (concat ("repository is not active: " ∷ name ∷ ": " ∷ r.status ∷ [])))

pub get_repository : List Repository → String → Result Repository
get_repository registry name =
    found_repository name (find (λ r. lower r.name == lower name) registry)

-- DevelopmentController._check_owner
pub check_owner : Policy → Repository → Result (Unit {0})
check_owner policy repository =
    let owner = split_first 47 repository.full_name in
    if contains policy.allowed_owners owner
    then ok tt
    else err (permission_error (concat ("repository owner is not allowed: " ∷ owner ∷ [])))

abbrev checks_or : Option (List String) → List String → List String
checks_or none d = d
checks_or (some names) d = names

-- A list of check names, tested and stripped.
pub normalized_checks : List String → Result (List String)
normalized_checks raw =
    if is_empty raw || any is_blank raw
    then err (value_error "required_post_merge_checks must be a non-empty list of check names")
    else if not (distinct (map strip raw))
    then err (value_error "required_post_merge_checks must contain unique check names")
    else ok (map strip raw)

-- DevelopmentController._repository_required_checks
pub repository_required_checks : Policy → Option (List String) → Result (List String)
unfolding normalized_checks
repository_required_checks policy declared =
    normalized_checks (checks_or declared policy.required_post_merge_checks)

starts_with : String → String → Bool
starts_with String.[] s = true
starts_with (String.◌∷◌ c cs) String.[] = false
starts_with (String.◌∷◌ c cs) (String.◌∷◌ d s) =
    let rest = starts_with cs s in if eqb (code c) (code d) then rest else false

pub has_prefix : String → String → Bool
unfolding starts_with
has_prefix prefix s = starts_with prefix s

-- term in text
pub occurs : String → String → Bool
unfolding starts_with
occurs term String.[] = term == ""
occurs term (String.◌∷◌ c s) = starts_with term (String.◌∷◌ c s) || occurs term s

-- DevelopmentController._classify_risk
pub classify_risk : String → String
unfolding occurs
classify_risk intent =
    if any (λ term. occurs term (lower intent))
      ("production" ∷ "deploy" ∷ "credential rotation" ∷ "delete repository" ∷ [])
    then "critical"
    else if any (λ term. occurs term (lower intent))
        ("auth" ∷ "secret" ∷ "permission" ∷ "database" ∷ "migration" ∷ "security" ∷ [])
    then "high"
    else "medium"

risk_of_deploy : classify_risk "Deploy to staging" ≡ "critical"
unfolding classify_risk lower
risk_of_deploy = refl

-- The name under which a repository stands in the dictionary.
abbrev pub key_of : Repository → String
key_of r = lower r.name

-- self.repositories[key] = repository
unfoldable pub put_repository : Repository → List Repository → List Repository
put_repository r [] = r ∷ []
put_repository r (x ∷ xs) =
    let rest = put_repository r xs in if key_of x == key_of r then r ∷ xs else x ∷ rest

unfoldable pub put_all : List Repository → List Repository → List Repository
unfolding put_repository
put_all [] repositories = repositories
put_all (r ∷ rs) repositories = put_all rs (put_repository r repositories)

-- RepositoryRegistry.__init__, of the two files.
unfoldable pub load_registry : Bool → List Repository → List Repository → Registry
unfolding put_all
load_registry has_overlay_path base overlay = record {
  base = base;
  has_overlay_path = has_overlay_path;
  overlay = overlay;
  repositories = put_all (if has_overlay_path then overlay else []) (put_all base []);
}

insert_by_key : Repository → List Repository → List Repository
insert_by_key x [] = x ∷ []
insert_by_key x (y ∷ ys) =
    let rest = insert_by_key x ys in
    elim (compare_text (key_of x) (key_of y)) [ Ordering.gt ↦ y ∷ rest | _ ↦ x ∷ y ∷ ys ]

-- sorted(self.repositories.items())
unfoldable pub sorted_by_key : List Repository → List Repository
unfolding insert_by_key
sorted_by_key [] = []
sorted_by_key (x ∷ xs) = insert_by_key x (sorted_by_key xs)

-- RepositoryRegistry.list
unfoldable pub list_repositories : Bool → List Repository → List Repository
unfolding sorted_by_key
list_repositories include_inactive repositories =
    keep (λ r. include_inactive || r.status == "active") (sorted_by_key repositories)

-- What save_overlay writes: all but the active ones that the registry's file names.
unfoldable pub overlay_items : List Repository → List Repository → List Repository
unfolding sorted_by_key
overlay_items base repositories =
    keep (λ r. not (contains (map key_of base) (key_of r)) || not (r.status == "active"))
      (sorted_by_key repositories)

-- RepositoryRegistry.save_overlay
unfoldable pub save_overlay : Repository → Registry → Result Registry
unfolding put_repository overlay_items
save_overlay r registry =
    let repositories = put_repository r registry.repositories in
    if registry.has_overlay_path
    then ok (record registry {
      repositories = repositories;
      overlay = overlay_items registry.base repositories;
    })
    else err (runtime_error "repository registry overlay is not configured")

-- All that a run computes with here, under one name.
unfoldable pub registry_code : Unit {0}
unfolding get_repository check_owner normalized_checks repository_required_checks starts_with
    has_prefix occurs classify_risk put_repository put_all load_registry insert_by_key sorted_by_key
    list_repositories overlay_items save_overlay
registry_code = tt
