-- ===== src/Development/Onboarding/Detect.antt =====
-- RepositoryOnboardingController._detect_contract: the test contract and the risks of a clone, from
-- its files.
use agentic_engineering_cont.Prelude.{
  ℕ, String, Bool, true, false, not, ◌&&◌, ◌||◌, ◌-◌, Option, none, some, List, [], ◌∷◌, ◌++◌, map,
  ◌==◌, any, keep, contains, concat, is_empty, length, lower, ltb, if◌then◌else◌,
}
use agentic_engineering_cont.Prelude.Platform.{
  Json, null, bool, str, obj, get_field, value_error, attribute_error,
}
use agentic_engineering_cont.Exec.{Result, ok, err, Exec, pure, lift, gets, ◌>>=◌}
use agentic_engineering_cont.Development.Host.{Host, TreeItem}
use agentic_engineering_cont.Development.Store.{State}
use agentic_engineering_cont.Development.Paths.{split}
use agentic_engineering_cont.Development.Workspace.{executable_of, sorted_set}
use agentic_engineering_cont.Development.Registry.{has_prefix, occurs}

-- text.endswith(suffix)
unfoldable pub has_suffix : String → String → Bool
has_suffix suffix String.[] = suffix == ""
has_suffix suffix (String.◌∷◌ c s) = suffix == String.◌∷◌ c s || has_suffix suffix s

pub record Scan : Type 0 where
  pub files : List String
  pub risks : List String

-- The loop over workspace.rglob("*").
unfoldable pub scan : String → List TreeItem → Scan → Result Scan
scan workspace [] t = ok t
scan workspace (item ∷ items) t =
    let skipped = scan workspace items t in
    let linked =
      scan workspace items (record t { risks = t.risks ++ "symbolic_link_present" ∷ [] }) in
    let escaped =
      scan workspace items (record t { risks = t.risks ++ "path_escape_detected" ∷ [] }) in
    let kept = scan workspace items (record t { files = t.files ++ item.relative ∷ [] }) in
    if contains (split 47 workspace) ".git" || contains (split 47 item.relative) ".git"
    then skipped
    else if item.is_symlink
    then linked
    else if not item.is_file
    then skipped
    else if not item.inside
    then escaped
    else if ltb 20000 (length (t.files ++ item.relative ∷ []))
    then err (value_error "repository assessment file budget exceeded")
    else kept

-- What a part of the detection adds.
pub record Contract : Type 0 where
  pub frameworks : List String
  pub commands : List (List String)

abbrev nothing : Contract
nothing = record { frameworks = []; commands = [] }

abbrev joined : Contract → Contract → Contract
joined a b = record {
  frameworks = a.frameworks ++ b.frameworks;
  commands = a.commands ++ b.commands;
}

pub record Detected : Type 0 where
  pub frameworks : List String
  pub commands : List (List String)
  pub risks : List String

abbrev is_test_file : String → Bool
is_test_file item = has_prefix "tests/" (lower item) && has_suffix ".py" (lower item)

unfoldable pub first_items : List String → ℕ → List String
first_items [] n = []
first_items (x ∷ xs) n = let rest = first_items xs (n - 1) in if ltb 0 n then x ∷ rest else []

module _ {W : Type 0} (h : Host W) where
  -- "import pytest" in path.read_text(encoding="utf-8", errors="replace"), in some file
  unfoldable pub imports_pytest : String → List String → Exec (State W) Bool
  imports_pytest workspace [] = pure false
  imports_pytest workspace (item ∷ rest) = do
    read ← gets (λ s. h.read_text (concat (workspace ∷ "/" ∷ item ∷ [])) s.world)
    content ← lift read
    if occurs "import pytest" content then pure true else imports_pytest workspace rest

  unfoldable pub python_contract : String → List String → Exec (State W) Contract
  python_contract workspace files =
      if contains (map lower files) "scripts/validate_configs.py"
      then pure (record {
        frameworks = "python-config-validator" ∷ [];
        commands = ("python" ∷ "scripts/validate_configs.py" ∷ []) ∷ [];
      })
      else if contains (map lower files) "pyproject.toml"
          || any (has_suffix ".py") (map lower files)
      then (do
        uses_pytest ← imports_pytest workspace (first_items (keep is_test_file files) 200)
        pure (record {
          frameworks = "python" ∷ [];
          commands =
              if uses_pytest
              then ("python" ∷ "-m" ∷ "pytest" ∷ "tests/" ∷ "-v" ∷ []) ∷ []
              else if is_empty (keep is_test_file files)
              then []
              else ("python" ∷ "-m" ∷ "unittest" ∷ "discover" ∷ "-s" ∷ "tests" ∷ "-v" ∷ []) ∷ [];
        }))
      else pure nothing

  -- test_script and "no test specified" not in test_script.lower()
  abbrev script_counts : Option Json → Result Bool
  script_counts none = ok false
  script_counts (some null) = ok false
  script_counts (some (bool false)) = ok false
  script_counts (some (str s)) = ok (not (s == "") && not (occurs "no test specified" (lower s)))
  script_counts (some j) = err (attribute_error "lower")

  abbrev scripts_of : Option Json → Result (Option Json)
  scripts_of none = ok none
  scripts_of (some (obj fs)) = ok (get_field "test" fs)
  scripts_of (some j) = err (attribute_error "get")

  abbrev package_scripts : Option Json → Result (Option Json)
  package_scripts none = err (value_error "package.json is not JSON")
  package_scripts (some (obj fs)) = scripts_of (get_field "scripts" fs)
  package_scripts (some j) = err (attribute_error "get")

  unfoldable pub node_contract : String → List String → Exec (State W) Contract
  node_contract workspace files =
      if contains (map lower files) "package.json"
      then (do
        read ← gets (λ s. h.read_text (concat (workspace ∷ "/package.json" ∷ [])) s.world)
        content ← lift read
        script ← lift (package_scripts (h.platform.loads content))
        counts ← lift (script_counts script)
        pure (record {
          frameworks = "node" ∷ [];
          commands = if counts then ("npm" ∷ "test" ∷ []) ∷ [] else [];
        }))
      else pure nothing

  abbrev powershell_script : String
  powershell_script = concat (
      "$failed=$false;Get-ChildItem -Recurse -Filter *.ps1|ForEach-Object{"
      ∷ "$e=$null;$t=$null;[System.Management.Automation.Language.Parser]"
      ∷ "::ParseFile($_.FullName,[ref]$t,[ref]$e)|Out-Null;"
      ∷ "if($e.Count){$failed=$true;$e|Out-String|Write-Error}};" ∷ "if($failed){exit 1}" ∷ [])

  -- The frameworks that are known by one file.
  unfoldable pub other_contracts : List String → Contract
  other_contracts files =
      joined
        (if contains (map lower files) "go.mod"
          then record { frameworks = "go" ∷ []; commands = ("go" ∷ "test" ∷ "./..." ∷ []) ∷ [] }
          else nothing)
        (joined
          (if contains (map lower files) "cargo.toml"
            then record { frameworks = "rust" ∷ []; commands = ("cargo" ∷ "test" ∷ []) ∷ [] }
            else nothing)
          (joined
            (if any (λ item. has_suffix ".sln" item || has_suffix ".csproj" item) (map lower files)
              then record { frameworks = "dotnet" ∷ []; commands = ("dotnet" ∷ "test" ∷ []) ∷ [] }
              else nothing)
            (if any (λ item. has_suffix ".ps1" (lower item)) files
              then record {
                frameworks = "powershell" ∷ [];
                commands =
                    ("powershell" ∷ "-NoProfile" ∷ "-NonInteractive" ∷ "-Command"
                      ∷ powershell_script ∷ [])
                    ∷ [];
              }
              else nothing)))

  unfoldable pub file_risks : List String → List (List String) → List String
  file_risks files commands =
      (if any (has_prefix ".github/workflows/") (map lower files)
        then "repository_contains_ci_workflows" ∷ []
        else [])
      ++ ((if any
              (λ item.
                has_suffix ".tf" item
                || has_suffix ".bicep" item
                || has_prefix "terraform/" item
                || has_prefix "ansible/" item)
              (map lower files)
            then "infrastructure_as_code_present" ∷ []
            else [])
          ++ ((if any
                  (λ item. contains (".env" ∷ "id_rsa" ∷ "id_ed25519" ∷ []) (executable_of item))
                  files
                then "sensitive_filename_present" ∷ []
                else [])
              ++ (if is_empty commands then "no_executable_test_contract_detected" ∷ [] else [])))

  unfoldable pub detect_contract : String → Exec (State W) Detected
  detect_contract workspace = do
    items ← gets (λ s. h.tree workspace s.world)
    found ← lift (scan workspace items (record { files = []; risks = [] }))
    python ← python_contract workspace found.files
    node ← node_contract workspace found.files
    let contract = joined python (joined node (other_contracts found.files))
    pure (record {
      frameworks = sorted_set contract.frameworks;
      commands = contract.commands;
      risks = sorted_set (found.risks ++ file_risks found.files contract.commands);
    })

-- All that a run computes with here, under one name.
unfoldable pub detect_code : Unit {0}
unfolding has_suffix scan first_items imports_pytest python_contract node_contract other_contracts
    file_risks detect_contract
detect_code = tt
