-- ===== src/Audit/Bounded.antt =====
-- The limits of the policy hold for what ContextBuilder.build returns.
use Prim.Native.String.{compare as compare_text}
use Prim.Native.Nat.{Ordering}
use agentic_engineering_cont.Prelude.{
  All, ℕ, suc, ◌+◌, ◌≤◌, String, ◌≡◌, refl, ap, subst, ◌∙◌, Bool, true, false, ◌&&◌, Option, none,
  some, List, [], ◌∷◌, ◌++◌, concat, length, ltb, ltb→le, arith, Bool-cases, inl, inr,
  if◌then◌else◌,
}
use agentic_engineering_cont.Exec.{ok}
use agentic_engineering_cont.Exec.Keeps.{ok-injective}
use agentic_engineering_cont.Development.Workspace.{text_size, sorted, insert_sorted}
use agentic_engineering_cont.Audit.Context.{
  File, Directory, Limits, Visit, Walk, RepositoryContext, started, read_text, take_text, has_text,
  is_full, take_file, take_files, take_visits, sorted_files, insert_file, walk, build,
}

length-snoc : {A : Type 0} (xs : List A) (x : A) → length (xs ++ x ∷ []) ≡ suc (length xs)
length-snoc [] x = refl
length-snoc (y ∷ ys) x = ap suc (length-snoc ys x)

length-place :
    (x y : String) (ys rest : List String) (o : Ordering)
    → length rest ≡ suc (length ys)
    → length (elim o [ Ordering.gt ↦ y ∷ rest | _ ↦ x ∷ y ∷ ys ]) ≡ suc (suc (length ys))
length-place x y ys rest Ordering.lt same = refl
length-place x y ys rest Ordering.eq same = refl
length-place x y ys rest Ordering.gt same = ap suc same

length-insert_sorted :
    (x : String) (xs : List String) → length (insert_sorted x xs) ≡ suc (length xs)
unfolding insert_sorted
length-insert_sorted x [] = refl
length-insert_sorted x (y ∷ ys) =
    length-place x y ys (insert_sorted x ys) (compare_text x y) (length-insert_sorted x ys)

length-sorted : (xs : List String) → length (sorted xs) ≡ length xs
unfolding sorted
length-sorted [] = refl
length-sorted (x ∷ xs) = length-insert_sorted x (sorted xs) ∙ ap suc (length-sorted xs)

if_either :
    {A : Type 0} (P : A → Type 0) (b : Bool) (x y : A)
    → P x
    → (b ≡ false → P y)
    → P (if b then x else y)
if_either P true x y here there = here
if_either P false x y here there = there refl

-- The characters of the kept texts.
abbrev pub text_total : List (String × String) → ℕ
text_total [] = 0
text_total ((path, content) ∷ rest) = text_size content + text_total rest

text_total-snoc :
    (ts : List (String × String)) (path content : String)
    → text_total (ts ++ (path, content) ∷ []) ≡ text_total ts + text_size content
text_total-snoc [] path content = omega arith
text_total-snoc ((p, c) ∷ ts) path content =
    let rest = text_total-snoc ts path content in omega arith

-- A text that is read has at most as many characters as its file has bytes.
abbrev IsSized : Option ℕ → Option String → Type 0
IsSized (some size) (some content) = text_size content ≤ size
IsSized _ _ = Unit

abbrev HasSize : File → Type 0
HasSize x = IsSized x.size x.content

abbrev pub AreSized : Directory → Type 0
AreSized directory = All (λ (v : Visit). All HasSize v.1) (walk "" directory)

insert_file-All :
    (x y : File) (ys rest : List File) (o : Ordering)
    → HasSize x
    → All HasSize (y ∷ ys)
    → All HasSize rest
    → All HasSize (elim o [ Ordering.gt ↦ y ∷ rest | _ ↦ x ∷ y ∷ ys ])
insert_file-All x y ys rest Ordering.lt a b c = (a, b)
insert_file-All x y ys rest Ordering.eq a b c = (a, b)
insert_file-All x y ys rest Ordering.gt a b c = (b.0, c)

inserted-All :
    (x : File) (ys : List File) → HasSize x → All HasSize ys → All HasSize (insert_file x ys)
unfolding insert_file
inserted-All x [] a b = (a, tt)
inserted-All x (y ∷ ys) a b =
    insert_file-All x y ys (insert_file x ys) (compare_text x.name y.name) a b
      (inserted-All x ys a b.1)

sorted_files-All : (xs : List File) → All HasSize xs → All HasSize (sorted_files xs)
unfolding sorted_files
sorted_files-All [] a = tt
sorted_files-All (x ∷ xs) a = inserted-All x (sorted_files xs) a.0 (sorted_files-All xs a.1)

module _ (limits : Limits) where
  record IsBounded (w : Walk) : Type 0 where
    files : length w.files ≤ limits.max_repository_files
    texts : w.total_text_bytes ≤ limits.max_total_text_bytes
    kept : text_total w.text_files ≤ w.total_text_bytes
    full : is_full limits w ≡ true → w.truncated ≡ true

  read_text-IsBounded :
      (relative : String) (size : ℕ) (content : Option String) (w : Walk)
      → is_full limits w ≡ false
      → ltb limits.max_total_text_bytes (w.total_text_bytes + size) ≡ false
      → IsSized (some size) content
      → IsBounded w
      → IsBounded (read_text relative size content w)
  read_text-IsBounded relative size none w room under fits b = b
  read_text-IsBounded relative size (some content) w room under fits b = record {
    files = b.files;
    texts = ltb→le _ _ under;
    kept =
        let old = b.kept in let more = text_total-snoc w.text_files relative content in omega arith;
    full = b.full;
  }

  take_text-IsBounded :
      (relative : String) (size : Option ℕ) (content : Option String) (w : Walk)
      → is_full limits w ≡ false
      → IsSized size content
      → IsBounded w
      → IsBounded (take_text limits relative size content w)
  take_text-IsBounded relative none content w room sized b = b
  take_text-IsBounded relative (some size) content w room sized b =
      elim (Bool-cases (ltb limits.max_text_file_bytes size)) [
        | inl large ↦ rw large b
        | inr fits ↦
            elim (Bool-cases (ltb limits.max_total_text_bytes (w.total_text_bytes + size))) [
              | inl over ↦
                  rw (fits, over)
                    (record { files = b.files; texts = b.texts; kept = b.kept; full = λ e. refl })
              | inr under ↦
                  rw (fits, under) (read_text-IsBounded relative size content w room under sized b)
            ]
      ]

  take_file-IsBounded :
      (path : String) (x : File) (w : Walk)
      → is_full limits w ≡ false
      → HasSize x
      → IsBounded w
      → IsBounded (take_file limits path x w)
  unfolding take_file
  take_file-IsBounded path x w room sized b =
      let relative = concat (path ∷ x.name ∷ []) in
      let listed : Walk = record w { files = w.files ++ relative ∷ [] } in
      let longer = length-snoc w.files relative in
      let fits : length listed.files ≤ limits.max_repository_files = ground arith in
      elim (Bool-cases (is_full limits listed)) [
        | inl now ↦
            rw now (record { files = fits; texts = b.texts; kept = b.kept; full = λ e. refl })
        | inr more ↦
            let kept : IsBounded listed = record {
              files = fits;
              texts = b.texts;
              kept = b.kept;
              full = λ e. cc;
            } in
            elim (Bool-cases (has_text x)) [
              | inl text ↦
                  rw (more, text)
                    (take_text-IsBounded relative x.size x.content listed more sized kept)
              | inr other ↦ rw (more, other) kept
            ]
      ]

  take_files-IsBounded :
      (path : String) (xs : List File) (w : Walk)
      → is_full limits w ≡ false
      → All HasSize xs
      → IsBounded w
      → IsBounded (take_files limits path xs w)
  unfolding take_files
  take_files-IsBounded path [] w room sized b = b
  take_files-IsBounded path (x ∷ xs) w room sized b =
      let next = take_file-IsBounded path x w room sized.0 b in
      elim (Bool-cases (is_full limits (take_file limits path x w))) [
        | inl now ↦ rw now next
        | inr more ↦
            rw more (take_files-IsBounded path xs (take_file limits path x w) more sized.1 next)
      ]

  take_visits-IsBounded :
      (visits : List Visit) (w : Walk)
      → is_full limits w ≡ false
      → All (λ (v : Visit). All HasSize v.1) visits
      → IsBounded w
      → IsBounded (take_visits limits visits w)
  unfolding take_visits
  take_visits-IsBounded [] w room sized b = b
  take_visits-IsBounded ((path, files) ∷ visits) w room sized b =
      let taken = take_files limits path (sorted_files files) w in
      let next =
        take_files-IsBounded path (sorted_files files) w room (sorted_files-All files sized.0) b in
      if_either IsBounded (taken.truncated && is_full limits taken) taken _ next λ on.
        let more : is_full limits taken ≡ false = elim (Bool-cases (is_full limits taken)) [
          | inl now ↦ let cut = next.full now in absurd (ground arith)
          | inr more ↦ more
        ] in
        take_visits-IsBounded visits taken more sized.1 next

  -- Where the policy allows one file, and a text that is read has at most as many characters as its
  -- file has bytes: what build returns lists at most the files that the policy allows, and the texts
  -- that it keeps have together at most as many characters as the policy allows bytes.
  pub build_bounds :
      (root : String) (directory : Directory) (c : RepositoryContext)
      → 1 ≤ limits.max_repository_files
      → AreSized directory
      → build limits root (some directory) ≡ ok c
      → (length c.files ≤ limits.max_repository_files)
        × (text_total c.text_files ≤ limits.max_total_text_bytes)
  unfolding build started
  build_bounds root directory c some_file sized built =
      let w = take_visits limits (walk "" directory) started in
      let b = take_visits-IsBounded (walk "" directory) started (ground arith) sized (record {
        files = omega arith;
        texts = omega arith;
        kept = omega arith;
        full = λ e. absurd (ground arith);
      }) in
      let within : text_total w.text_files ≤ limits.max_total_text_bytes =
        let kept = b.kept in let texts = b.texts in omega arith in
      subst
        (λ (r : RepositoryContext).
          (length r.files ≤ limits.max_repository_files)
          × (text_total r.text_files ≤ limits.max_total_text_bytes))
        (ok-injective built) ((rw (length-sorted w.files) b.files), within)
