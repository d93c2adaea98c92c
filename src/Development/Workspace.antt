-- ===== src/Development/Workspace.antt =====
-- The isolated clone of a task: commands in it, the size and the digest of its changes.
use Prim.Native.Char.{Char, code}
use Prim.Native.String.{compare as compare_text}
use Prim.Native.Nat.{Ordering}
use agentic_engineering_cont.Prelude.{
  ℕ, zero, suc, ◌+◌, ◌-◌, ◌*◌, String, Bool, true, false, not, ◌&&◌, ◌||◌, Option, none, some, List,
  [], ◌∷◌, ◌++◌, ◌==◌, ltb, leb, contains, concat, join, length, strip, is_blank, lower, all_chars,
  if◌then◌else◌,
}
use agentic_engineering_cont.Prelude.Platform.{ℤ, pos, runtime_error, permission_error, value_error}
use agentic_engineering_cont.Exec.{Result, ok, err, Exec, pure, lift, gets, guard, ◌>>=◌, ◌>>◌}
use agentic_engineering_cont.Development.Task.{Metrics, TestResult}
use agentic_engineering_cont.Development.Host.{Host, Completed}
use agentic_engineering_cont.Development.Store.{State}
use agentic_engineering_cont.Development.Paths.{split}

-- The fields of DevelopmentPolicy that the controller reads.
pub record Policy : Type 0 where
  pub allowed_owners : List String
  pub max_changed_files : ℕ
  pub max_added_lines : ℕ
  pub max_deleted_lines : ℕ
  pub max_file_bytes : ℕ
  pub max_repair_attempts : ℕ
  pub allowed_test_executables : List String
  pub required_post_merge_checks : List String
  pub uses_docker : Bool

abbrev pub is_zero : ℤ → Bool
is_zero (pos zero) = true
is_zero _ = false

-- text.splitlines(), for line feeds: a final one ends no further line.
drop_last_empty : List String → List String
drop_last_empty [] = []
drop_last_empty (s ∷ []) = if s == "" then [] else s ∷ []
drop_last_empty (s ∷ t ∷ ss) = s ∷ drop_last_empty (t ∷ ss)

pub split_lines : String → List String
unfolding drop_last_empty split
split_lines text = drop_last_empty (split 10 text)

is_digit : Char → Bool
is_digit c = leb 48 (code c) && leb (code c) 57

number_from : ℕ → String → ℕ
number_from n String.[] = n
number_from n (String.◌∷◌ c s) = number_from (n * 10 + (code c - 48)) s

-- int(text) if text.isdigit() else 0
pub number_or_zero : String → ℕ
unfolding is_digit number_from
number_or_zero text = if not (text == "") && all_chars is_digit text then number_from 0 text else 0

-- The place of a text in a sorted list, unless it is there.
insert_text : String → List String → List String
insert_text x [] = x ∷ []
insert_text x (y ∷ ys) =
    let rest = insert_text x ys in
    elim (compare_text x y) [
      | Ordering.lt ↦ x ∷ y ∷ ys
      | Ordering.eq ↦ y ∷ ys
      | Ordering.gt ↦ y ∷ rest
    ]

-- sorted(set(texts))
pub sorted_set : List String → List String
unfolding insert_text
sorted_set [] = []
sorted_set (x ∷ xs) = insert_text x (sorted_set xs)

unfoldable pub insert_sorted : String → List String → List String
insert_sorted x [] = x ∷ []
insert_sorted x (y ∷ ys) =
    let rest = insert_sorted x ys in
    elim (compare_text x y) [ Ordering.gt ↦ y ∷ rest | _ ↦ x ∷ y ∷ ys ]

-- sorted(texts)
unfoldable pub sorted : List String → List String
unfolding insert_sorted
sorted [] = []
sorted (x ∷ xs) = insert_sorted x (sorted xs)

-- len(text.encode("utf-8"))
char_size : Char → ℕ
char_size c =
    if ltb (code c) 128
    then 1
    else if ltb (code c) 2048
    then 2
    else if ltb (code c) 65536
    then 3
    else 4

pub utf8_size : String → ℕ
unfolding char_size
utf8_size String.[] = 0
utf8_size (String.◌∷◌ c s) = char_size c + utf8_size s

unfoldable pub text_size : String → ℕ
text_size String.[] = 0
text_size (String.◌∷◌ c s) = suc (text_size s)

drop : ℕ → String → String
drop zero s = s
drop (suc n) String.[] = ""
drop (suc n) (String.◌∷◌ c s) = drop n s

-- text[-n:]
pub take_last : ℕ → String → String
unfolding text_size drop
take_last n s = drop (text_size s - n) s

until_space : String → String
until_space String.[] = ""
until_space (String.◌∷◌ c s) =
    let rest = until_space s in if is_blank (String.◌∷◌ c "") then "" else String.◌∷◌ c rest

-- text.split()[0], or "" where the text is blank
pub first_word : String → String
unfolding until_space
first_word text = until_space (strip text)

-- What the loops of _diff_metrics add up.
pub record Tally : Type 0 where
  pub files : List String
  pub added : ℕ
  pub deleted : ℕ

-- line.split("\t", 2): the third part keeps its tabs.
tally_parts : List String → Tally → Tally
tally_parts (a ∷ d ∷ f ∷ fs) t = record {
  files = t.files ++ join "\t" (f ∷ fs) ∷ [];
  added = t.added + number_or_zero a;
  deleted = t.deleted + number_or_zero d;
}
tally_parts _ t = t

pub tally_lines : List String → Tally → Tally
unfolding tally_parts split
tally_lines [] t = t
tally_lines (line ∷ lines) t = tally_lines lines (tally_parts (split 9 line) t)

pub metrics_of : Tally → Metrics
metrics_of t = record {
  changed_files = sorted_set t.files;
  changed_file_count = length (sorted_set t.files);
  added_lines = t.added;
  deleted_lines = t.deleted;
}

-- The name of an executable: Path(argv[0]).name.lower()
abbrev last_part : List String → String
last_part [] = ""
last_part (s ∷ []) = s
last_part (s ∷ t ∷ ss) = last_part (t ∷ ss)

unfoldable pub executable_of : String → String
executable_of program = lower (last_part (split 47 program))

module _ {W : Type 0} (h : Host W) where
  unfoldable pub in_world : {A : Type 0} → (W → A × W) → Exec (State W) A
  in_world f s = let (a, w) = f s.world in (ok a, record s { world = w })

  abbrev guarded_argv : String → List String → W → List String
  guarded_argv cwd [] w = []
  guarded_argv cwd (program ∷ rest) w =
      if contains ("git" ∷ "git.exe" ∷ []) (executable_of program)
        && h.exists (concat (cwd ∷ "/.git" ∷ [])) w
      then program ∷ "-c" ∷ concat ("safe.directory=" ∷ h.resolve cwd w ∷ []) ∷ rest
      else program ∷ rest

  abbrev started : Option Completed → Result Completed
  started none = err (runtime_error "command failed to start")
  started (some c) = ok c

  -- run_command(argv, cwd=cwd, check=check)
  unfoldable pub run_command : List String → String → Bool → Exec (State W) Completed
  run_command argv cwd check = do
    safe_argv ← gets (λ s. guarded_argv cwd argv s.world)
    outcome ← in_world (h.spawn safe_argv cwd)
    result ← lift (started outcome)
    guard (not check || is_zero result.returncode) (runtime_error "command failed")
    pure result

  unfoldable pub untracked_files : String → Exec (State W) (List String)
  untracked_files workspace = do
    result ←
        run_command ("git" ∷ "ls-files" ∷ "--others" ∷ "--exclude-standard" ∷ []) workspace true
    pure (split_lines result.stdout)

  unfoldable pub read_file : String → String → Exec (State W) String
  read_file workspace relative = do
    content ← gets (λ s. h.read_text (concat (workspace ∷ "/" ∷ relative ∷ [])) s.world)
    lift content

  unfoldable pub read_bytes : String → String → Exec (State W) String
  read_bytes workspace relative = do
    content ← gets (λ s. h.read_bytes (concat (workspace ∷ "/" ∷ relative ∷ [])) s.world)
    lift content

  unfoldable pub tally_untracked : String → List String → Tally → Exec (State W) Tally
  tally_untracked workspace [] t = pure t
  tally_untracked workspace (relative ∷ rest) t = do
    content ← read_file workspace relative
    tally_untracked workspace rest (record t {
      files = t.files ++ relative ∷ [];
      added = t.added + length (split_lines content);
    })

  -- _diff_metrics
  unfoldable pub diff_metrics : String → Exec (State W) Metrics
  diff_metrics workspace = do
    result ← run_command ("git" ∷ "diff" ∷ "--numstat" ∷ "--" ∷ "." ∷ []) workspace false
    untracked ← untracked_files workspace
    tally ←
        tally_untracked workspace untracked
          (tally_lines (split_lines result.stdout) (record { files = []; added = 0; deleted = 0 }))
    pure (metrics_of tally)

  -- _enforce_budget
  unfoldable pub enforce_budget : Policy → Metrics → Exec (State W) (Unit {0})
  enforce_budget policy metrics = do
    guard (leb metrics.changed_file_count policy.max_changed_files)
        (permission_error "changed-file budget exceeded")
    guard (leb metrics.added_lines policy.max_added_lines)
        (permission_error "added-line budget exceeded")
    guard (leb metrics.deleted_lines policy.max_deleted_lines)
        (permission_error "deleted-line budget exceeded")

  unfoldable pub binary_diff : String → Exec (State W) String
  binary_diff workspace = do
    result ←
        run_command ("git" ∷ "diff" ∷ "--no-ext-diff" ∷ "--binary" ∷ "--" ∷ "." ∷ []) workspace
          false
    pure result.stdout

  unfoldable pub digest_untracked : String → List String → String → Exec (State W) String
  digest_untracked workspace [] material = pure material
  digest_untracked workspace (relative ∷ rest) material = do
    content ← read_bytes workspace relative
    digest_untracked workspace rest (concat (material ∷ relative ∷ "\0" ∷ content ∷ "\0" ∷ []))

  -- _change_digest
  unfoldable pub change_digest : String → Exec (State W) String
  change_digest workspace = do
    diff ← binary_diff workspace
    untracked ← untracked_files workspace
    material ← digest_untracked workspace (sorted untracked) diff
    pure (h.platform.sha256 material)

  abbrev with_python : List String → List String
  with_python [] = []
  with_python (program ∷ rest) =
      if contains ("python" ∷ "python.exe" ∷ []) (executable_of program)
      then h.python ∷ rest
      else program ∷ rest

  abbrev first_program : List String → Result String
  first_program [] = err (value_error "test commands must be non-empty argument arrays")
  first_program (program ∷ rest) = ok (executable_of program)

  unfoldable pub in_docker : List String → String → String → Exec (State W) Completed
  in_docker argv workspace output_dir = do
    result ← in_world (h.docker_run argv workspace output_dir)
    lift result

  -- execute_test_command
  unfoldable pub execute_test_command :
      Policy → List String → String → String → Exec (State W) Completed
  execute_test_command policy argv workspace output_dir = do
    executable ← lift (first_program argv)
    guard (contains policy.allowed_test_executables executable)
        (permission_error (concat ("test executable is not allowed: " ∷ executable ∷ [])))
    if policy.uses_docker
        then in_docker argv workspace output_dir
        else run_command (with_python argv) workspace false

  -- The loop of `test`: until a command fails.
  unfoldable pub run_tests :
      Policy → List (List String) → String → String → Exec (State W) (Bool × List TestResult)
  run_tests policy [] workspace output_dir = pure (true, [])
  run_tests policy (argv ∷ rest) workspace output_dir = do
    result ← execute_test_command policy argv workspace output_dir
    let entry : TestResult = record {
      argv = argv;
      exit_code = result.returncode;
      stdout = take_last 4000 result.stdout;
      stderr = take_last 4000 result.stderr;
    }
    if is_zero result.returncode
        then (do
          (passed, results) ← run_tests policy rest workspace output_dir
          pure (passed, entry ∷ results))
        else pure (false, entry ∷ [])

-- All that a run computes with here, under one name.
unfoldable pub workspace_code : Unit {0}
unfolding drop_last_empty split_lines is_digit number_from number_or_zero insert_text sorted_set
    insert_sorted sorted char_size utf8_size text_size drop take_last until_space first_word
    tally_parts tally_lines metrics_of executable_of in_world run_command untracked_files read_file
    tally_untracked diff_metrics enforce_budget binary_diff read_bytes digest_untracked
    change_digest in_docker execute_test_command run_tests
workspace_code = tt
