-- ===== src/Audit/Context.antt =====
-- ContextBuilder.build of context.py: the walk of a source directory and the lists that it makes.
use agentic_engineering_cont.Prelude.{
  ℕ, ◌+◌, String, Bool, true, false, ◌&&◌, ◌||◌, Option, none, some, List, [], ◌∷◌, ◌++◌, ◌==◌,
  contains, concat, keep, length, lower, leb, ltb, map, if◌then◌else◌,
}
use agentic_engineering_cont.Prelude.Platform.{value_error}
use agentic_engineering_cont.Exec.{Result, ok, err}
use agentic_engineering_cont.Development.Paths.{split}
use agentic_engineering_cont.Development.Registry.{has_prefix, occurs}
use agentic_engineering_cont.Development.Workspace.{sorted}
use agentic_engineering_cont.Development.Onboarding.Detect.{has_suffix}
use Prim.Native.String.{compare as compare_text}
use Prim.Native.Nat.{Ordering}

-- What os.walk finds: a file with what stat and read_text give of it (`none` is OSError), and a
-- directory with its name.
pub record File : Type 0 where
  pub name : String
  pub size : Option ℕ
  pub content : Option String

mutual
  pub data Directory : Type 0 where
    folder : String → List File → Directories → Directory

  pub data Directories : Type 0 where
    empty : Directories
    more : Directory → Directories → Directories

-- The three limits of the policy that the walk reads.
pub record Limits : Type 0 where
  pub max_repository_files : ℕ
  pub max_text_file_bytes : ℕ
  pub max_total_text_bytes : ℕ

abbrev text_extensions : List String
text_extensions =
    ".bat" ∷ ".cfg" ∷ ".conf" ∷ ".cs" ∷ ".css" ∷ ".csv" ∷ ".env" ∷ ".go" ∷ ".html" ∷ ".ini"
    ∷ ".java" ∷ ".js" ∷ ".json" ∷ ".jsx" ∷ ".md" ∷ ".ps1" ∷ ".psd1" ∷ ".psm1" ∷ ".py" ∷ ".rb"
    ∷ ".rs" ∷ ".sh" ∷ ".sql" ∷ ".toml" ∷ ".ts" ∷ ".tsx" ∷ ".txt" ∷ ".xml" ∷ ".yaml" ∷ ".yml" ∷ []

abbrev source_extensions : List String
source_extensions =
    ".bat" ∷ ".cs" ∷ ".go" ∷ ".java" ∷ ".js" ∷ ".jsx" ∷ ".ps1" ∷ ".psm1" ∷ ".py" ∷ ".rb" ∷ ".rs"
    ∷ ".sh" ∷ ".sql" ∷ ".ts" ∷ ".tsx" ∷ []

abbrev excluded_directories : List String
excluded_directories =
    ".git" ∷ ".hg" ∷ ".svn" ∷ ".venv" ∷ "node_modules" ∷ "__pycache__" ∷ "dist" ∷ "build"
    ∷ "runtime" ∷ []

abbrev manifest_names : List String
manifest_names =
    "package.json" ∷ "pyproject.toml" ∷ "requirements.txt" ∷ "setup.py" ∷ "setup.cfg" ∷ "go.mod"
    ∷ "cargo.toml" ∷ "dockerfile" ∷ "docker-compose.yml" ∷ "docker-compose.yaml" ∷ []

-- Path(name).suffix, of the pieces between the dots: none before a first dot, none after a last.
abbrev suffix_of : List String → String
suffix_of [] = ""
suffix_of (a ∷ []) = ""
suffix_of (a ∷ b ∷ []) = if a == "" || b == "" then "" else concat ("." ∷ b ∷ [])
suffix_of (a ∷ b ∷ c ∷ []) = if c == "" then "" else concat ("." ∷ c ∷ [])
suffix_of (a ∷ b ∷ c ∷ d ∷ ds) = suffix_of (b ∷ c ∷ d ∷ ds)

abbrev suffix : String → String
suffix name = lower (suffix_of (split 46 name))

-- Path(path).name, of a relative path
abbrev last_piece : List String → String
last_piece [] = ""
last_piece (a ∷ []) = a
last_piece (a ∷ b ∷ bs) = last_piece (b ∷ bs)

abbrev name_of : String → String
name_of path = last_piece (split 47 path)

unfoldable pub insert_file : File → List File → List File
insert_file x [] = x ∷ []
insert_file x (y ∷ ys) =
    let rest = insert_file x ys in
    elim (compare_text x.name y.name) [ Ordering.gt ↦ y ∷ rest | _ ↦ x ∷ y ∷ ys ]

-- sorted(file_names)
unfoldable pub sorted_files : List File → List File
unfolding insert_file
sorted_files [] = []
sorted_files (x ∷ xs) = insert_file x (sorted_files xs)

-- One round of os.walk: the path of the directory below the root, with its slash, and its files.
abbrev pub Visit : Type 0
Visit = String × List File

unfoldable mutual
  pub walk : String → Directory → List Visit
  walk path (folder name files directories) = (path, files) ∷ walk_all path directories

  pub walk_all : String → Directories → List Visit
  walk_all path empty = []
  walk_all path (more (folder name files directories) rest) =
      let below = walk (concat (path ∷ name ∷ "/" ∷ [])) (folder name files directories) in
      let others = walk_all path rest in
      if contains excluded_directories (lower name) then others else below ++ others

-- The variables of the loop, without the extensions' counter, which is made from `files`.
pub record Walk : Type 0 where
  pub files : List String
  pub text_files : List (String × String)
  pub total_text_bytes : ℕ
  pub truncated : Bool

unfoldable pub started : Walk
started = record { files = []; text_files = []; total_text_bytes = 0; truncated = false }

-- path.read_text(...), where the file is not too large
abbrev pub read_text : String → ℕ → Option String → Walk → Walk
read_text relative size none w = w
read_text relative size (some content) w = record w {
  text_files = w.text_files ++ (relative, content) ∷ [];
  total_text_bytes = w.total_text_bytes + size;
}

abbrev pub has_text : File → Bool
has_text x = contains text_extensions (suffix x.name) || contains manifest_names (lower x.name)

module _ (limits : Limits) where
  abbrev pub take_text : String → Option ℕ → Option String → Walk → Walk
  take_text relative none content w = w
  take_text relative (some size) content w =
      if ltb limits.max_text_file_bytes size
      then w
      else if ltb limits.max_total_text_bytes (w.total_text_bytes + size)
      then record w { truncated = true }
      else read_text relative size content w

  -- len(files) >= self.policy.max_repository_files
  abbrev pub is_full : Walk → Bool
  is_full w = leb limits.max_repository_files (length w.files)

  -- One file: its path is listed, and its text is kept unless the list is full now.
  unfoldable pub take_file : String → File → Walk → Walk
  take_file path x w =
      let relative = concat (path ∷ x.name ∷ []) in
      let listed : Walk = record w { files = w.files ++ relative ∷ [] } in
      if is_full listed
      then record listed { truncated = true }
      else if has_text x
      then take_text relative x.size x.content listed
      else listed

  unfoldable pub take_files : String → List File → Walk → Walk
  take_files path [] w = w
  take_files path (x ∷ xs) w =
      let taken = take_file path x w in if is_full taken then taken else take_files path xs taken

  unfoldable pub take_visits : List Visit → Walk → Walk
  take_visits [] w = w
  take_visits ((path, files) ∷ visits) w =
      let taken = take_files path (sorted_files files) w in
      if taken.truncated && is_full taken then taken else take_visits visits taken

abbrev extension_of : String → String
extension_of path = if suffix (name_of path) == "" then "<none>" else suffix (name_of path)

abbrev is_test : String → Bool
is_test path =
    has_prefix "test/" (lower path)
    || has_prefix "tests/" (lower path)
    || occurs "/test/" (lower path)
    || occurs "/tests/" (lower path)
    || has_prefix "test_" (lower (name_of path))
    || has_suffix "_test.py" (lower (name_of path))
    || has_suffix ".test.js" (lower (name_of path))
    || has_suffix ".spec.ts" (lower (name_of path))

abbrev is_workflow : String → Bool
is_workflow path =
    has_prefix ".github/workflows/" (lower path)
    && (has_suffix ".yml" (lower path) || has_suffix ".yaml" (lower path))

pub record RepositoryContext : Type 0 where
  pub files : List String
  pub text_files : List (String × String)
  pub extensions : List String
  pub test_files : List String
  pub workflow_files : List String
  pub manifest_files : List String
  pub source_files : List String
  pub truncated : Bool

abbrev context_of : Walk → List String → RepositoryContext
context_of w normalized = record {
  files = normalized;
  text_files = w.text_files;
  extensions = sorted (map extension_of w.files);
  test_files = keep is_test normalized;
  workflow_files = keep is_workflow normalized;
  manifest_files = keep (λ path. contains manifest_names (lower (name_of path))) normalized;
  source_files = keep (λ path. contains source_extensions (suffix (name_of path))) normalized;
  truncated = w.truncated;
}

-- build, of the directory or nothing at the source's path. `extensions` has each extension as
-- often as the counter counts it.
unfoldable pub build : Limits → String → Option Directory → Result RepositoryContext
build limits root none =
    err (value_error (concat ("repository source is not a directory: " ∷ root ∷ [])))
build limits root (some directory) =
    let w = take_visits limits (walk "" directory) started in ok (context_of w (sorted w.files))

-- All that a run computes with here, under one name.
unfoldable pub context_code : Unit {0}
unfolding sorted_files insert_file walk started take_file take_files take_visits build
context_code = tt
