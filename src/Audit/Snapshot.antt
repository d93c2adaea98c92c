-- ===== src/Audit/Snapshot.antt =====
-- GitHubClient.download_snapshot of github_client.py, from the entries of the downloaded archive to
-- the files that it writes below the destination, and _safe_members.
use agentic_engineering_cont.Prelude.{
  ℕ, ◌+◌, String, ◌≡◌, refl, subst, Bool, false, ◌||◌, Option, none, some, List, [], ◌∷◌, ◌==◌, all,
  contains, is_empty, ltb, All, or_right, Bool-cases, inl, inr, if◌then◌else◌,
}
use agentic_engineering_cont.Prelude.Platform.{value_error, runtime_error}
use agentic_engineering_cont.Exec.{Result, ok, err}
use agentic_engineering_cont.Exec.Keeps.{ok-injective}
use agentic_engineering_cont.Development.Paths.{split, keep_parts}
use agentic_engineering_cont.Development.Registry.{has_prefix}

-- zipfile.ZipInfo, with the content of the entry.
pub record Member : Type 0 where
  pub filename : String
  pub is_dir : Bool
  pub file_size : ℕ
  pub content : String

-- A directory that is made, or a file that is written, by its path below the destination.
pub record Target : Type 0 where
  pub parts : List String
  pub is_dir : Bool
  pub content : String

-- Path(member.filename).parts; an absolute path has its root as the first part
unfoldable pub path_parts : Member → List String
path_parts m =
    let names = keep_parts (split 47 m.filename) in
    if has_prefix "/" m.filename then "/" ∷ names else names

unfoldable pub is_unsafe : Member → Bool
is_unsafe m = has_prefix "/" m.filename || contains (path_parts m) ".."

abbrev with_member : Member → Result (List Member) → Result (List Member)
with_member m (ok ms) = ok (m ∷ ms)
with_member m (err e) = err e

-- _safe_members
unfoldable pub safe_members : List Member → Result (List Member)
safe_members [] = ok []
safe_members (m ∷ ms) =
    let rest = safe_members ms in
    if is_unsafe m
    then err (value_error "GitHub archive contains an unsafe path")
    else with_member m rest

abbrev total_size : List Member → ℕ
total_size [] = 0
total_size (m ∷ ms) = m.file_size + total_size ms

abbrev with_root : List String → List String → List String
with_root [] roots = roots
with_root (part ∷ parts) roots = part ∷ roots

-- The first parts of the entries.
abbrev roots_of : List Member → List String
roots_of [] = []
roots_of (m ∷ ms) = with_root (path_parts m) (roots_of ms)

-- The one element of the set of these, if it has one.
abbrev single : List String → Option String
single [] = none
single (root ∷ roots) = if all (λ r. r == root) roots then some root else none

abbrev relative_parts : String → List String → List String
relative_parts root [] = []
relative_parts root (part ∷ parts) = if part == root then parts else part ∷ parts

unfoldable pub targets : String → List Member → List Target
targets root [] = []
targets root (m ∷ ms) =
    let relative = relative_parts root (path_parts m) in
    let rest = targets root ms in
    if is_empty relative
    then rest
    else record { parts = relative; is_dir = m.is_dir; content = m.content } ∷ rest

abbrev with_single : List Member → Option String → Result (List Target)
with_single members none = err (value_error "GitHub archive has an unexpected root layout")
with_single members (some root) = ok (targets root members)

abbrev checked : ℕ → Result (List Member) → Result (List Target)
checked max_download_bytes (err e) = err e
checked max_download_bytes (ok members) =
    if ltb max_download_bytes (total_size members)
    then err (runtime_error "repository snapshot exceeds the uncompressed size limit")
    else with_single members (single (roots_of members))

-- What the archive's part of download_snapshot writes, in order.
unfoldable pub extract : ℕ → List Member → Result (List Target)
extract max_download_bytes members = checked max_download_bytes (safe_members members)

-- Below the destination, and not the destination itself.
abbrev pub IsBelow : Target → Type 0
IsBelow t = (contains t.parts ".." ≡ false) × (is_empty t.parts ≡ false)

abbrev IsSafe : Member → Type 0
IsSafe m = contains (path_parts m) ".." ≡ false

Returned : {A : Type 0} → Type 0 → Result A → Type 0
Returned X (ok a) = X
Returned X (err e) = Unit

raised : {A X : Type 0} {e : _} {a : A} → err e ≡ ok a → X
unfolding Returned
raised {X = X} k = subst (Returned X) k tt

with_member-IsSafe :
    (m : Member) (r : Result (List Member)) (ns : List Member)
    → IsSafe m
    → ((ms : List Member) → r ≡ ok ms → All IsSafe ms)
    → with_member m r ≡ ok ns
    → All IsSafe ns
with_member-IsSafe m (err e) ns safe rest k = raised k
with_member-IsSafe m (ok ms) ns safe rest k =
    subst (All IsSafe) (ok-injective k) (safe, rest ms refl)

safe_members-IsSafe : (ms ns : List Member) → safe_members ms ≡ ok ns → All IsSafe ns
unfolding safe_members is_unsafe
safe_members-IsSafe [] ns e = subst (All IsSafe) (ok-injective e) tt
safe_members-IsSafe (m ∷ ms) ns e = elim (Bool-cases (is_unsafe m)) [
  | inl bad ↦ let got : err _ ≡ ok ns = rw bad at e in raised got
  | inr fine ↦
      with_member-IsSafe m (safe_members ms) ns (or_right _ _ fine)
        (λ rest k. safe_members-IsSafe ms rest k) (rw fine at e)
]

relative-IsSafe :
    (root : String) (parts : List String)
    → contains parts ".." ≡ false
    → contains (relative_parts root parts) ".." ≡ false
relative-IsSafe root [] safe = refl
relative-IsSafe root (part ∷ parts) safe = elim (Bool-cases (part == root)) [
  | inl same ↦ rw same (or_right (part == "..") _ safe)
  | inr other ↦ rw other safe
]

targets-IsBelow : (root : String) (ms : List Member) → All IsSafe ms → All IsBelow (targets root ms)
unfolding targets
targets-IsBelow root [] safe = tt
targets-IsBelow root (m ∷ ms) (here, there) =
    elim (Bool-cases (is_empty (relative_parts root (path_parts m)))) [
      | inl none_left ↦ rw none_left (targets-IsBelow root ms there)
      | inr some_left ↦
          rw some_left
            ((relative-IsSafe root (path_parts m) here, some_left), targets-IsBelow root ms there)
    ]

with_single-IsBelow :
    (members : List Member) (o : Option String) (ts : List Target)
    → All IsSafe members
    → with_single members o ≡ ok ts
    → All IsBelow ts
with_single-IsBelow members none ts safe k = raised k
with_single-IsBelow members (some root) ts safe k =
    subst (All IsBelow) (ok-injective k) (targets-IsBelow root members safe)

checked-IsBelow :
    (limit : ℕ) (r : Result (List Member)) (ts : List Target)
    → ((ms : List Member) → r ≡ ok ms → All IsSafe ms)
    → checked limit r ≡ ok ts
    → All IsBelow ts
checked-IsBelow limit (err e) ts safe k = raised k
checked-IsBelow limit (ok ms) ts safe k = elim (Bool-cases (ltb limit (total_size ms))) [
  | inl over ↦ let got : err _ ≡ ok ts = rw over at k in raised got
  | inr fits ↦ with_single-IsBelow ms (single (roots_of ms)) ts (safe ms refl) (rw fits at k)
]

-- Whatever the archive holds: where its entries are written at all, every path that is made or
-- written is a proper path below the destination, with no part that leads upwards.
pub extract-IsBelow :
    (max_download_bytes : ℕ) (members : List Member) (ts : List Target)
    → extract max_download_bytes members ≡ ok ts
    → All IsBelow ts
unfolding extract
extract-IsBelow limit members ts e =
    checked-IsBelow limit (safe_members members) ts (λ ms k. safe_members-IsSafe members ms k) e

-- All that a run computes with here, under one name.
unfoldable pub snapshot_code : Unit {0}
unfolding path_parts is_unsafe safe_members targets extract
snapshot_code = tt
