-- ===== src/Audit/Samples.antt =====
-- A descriptor and two inventories.
use agentic_engineering_cont.Prelude.{
  All, ◌≤◌, length, arith, ◌≡◌, refl, true, false, none, some, List, [], ◌∷◌, lower,
}
use agentic_engineering_cont.Audit.Snapshot.{
  Member, Target, extract, IsBelow, extract-IsBelow, snapshot_code,
}
use agentic_engineering_cont.Prelude.Platform.{pos}
use agentic_engineering_cont.Exec.{ok}
use agentic_engineering_cont.Development.Paths.{paths_code}
use agentic_engineering_cont.Development.Registry.{registry_code}
use agentic_engineering_cont.Development.Workspace.{workspace_code}
use agentic_engineering_cont.Development.Onboarding.Detect.{detect_code}
use agentic_engineering_cont.Audit.Inventory.{
  RepositoryDescriptor, descriptor_of, to_dict, merge_inventory,
}
use agentic_engineering_cont.Audit.Merge.{named, latest, or_else, named-merge_inventory}
use agentic_engineering_cont.Audit.Context.{
  File, Directory, folder, empty, more, Limits, RepositoryContext, build, context_code,
}
use agentic_engineering_cont.Audit.Bounded.{AreSized, text_total, build_bounds}
use agentic_engineering_cont.Audit.Roundtrip.{descriptor_of-to_dict}

abbrev app : RepositoryDescriptor
app = record {
  id = pos 7;
  name = "App";
  full_name = "deadbeefcafe/App";
  visibility = "private";
  default_branch = "main";
  clone_url = "https://example.org/App.git";
  archived = false;
  commit_sha = none;
}

abbrev live_app : RepositoryDescriptor
live_app = record app { visibility = "public"; full_name = "deadbeefcafe/app" }

descriptor_of-to_dict_example : descriptor_of (λ j. "") (λ s. ok (pos 0)) (to_dict app) ≡ ok app
unfolding lower
descriptor_of-to_dict_example = descriptor_of-to_dict (λ j. "") (λ s. ok (pos 0)) app refl refl

named-merge_inventory_example :
    named "deadbeefcafe/app" (merge_inventory (app ∷ []) (live_app ∷ []))
    ≡ or_else (latest "deadbeefcafe/app" (live_app ∷ [])) (latest "deadbeefcafe/app" (app ∷ []))
named-merge_inventory_example = named-merge_inventory "deadbeefcafe/app" (app ∷ []) (live_app ∷ [])

abbrev readme : File
readme = record { name = "README.md"; size = some 5; content = some "hello" }

abbrev script : File
script = record { name = "run.py"; size = some 9; content = some "print(42)" }

-- The directory .git is left out, and the text of run.py is over the limit of all texts.
abbrev sources : Directory
sources = folder "app" (script ∷ readme ∷ []) (more (folder ".git" (script ∷ []) empty) empty)

abbrev limits : Limits
limits = record { max_repository_files = 10; max_text_file_bytes = 100; max_total_text_bytes = 12 }

abbrev context : RepositoryContext
context = record {
  files = "README.md" ∷ "run.py" ∷ [];
  text_files = ("README.md", "hello") ∷ [];
  extensions = ".md" ∷ ".py" ∷ [];
  test_files = [];
  workflow_files = [];
  manifest_files = [];
  source_files = "run.py" ∷ [];
  truncated = true;
}

builds : build limits "/src/app" (some sources) ≡ ok context
unfolding context_code registry_code paths_code detect_code workspace_code lower
builds = refl

-- Each text has as many characters as its file has bytes.
are_sized : AreSized sources
unfolding context_code workspace_code lower
are_sized = ((omega arith, (omega arith, tt)), tt)

build_bounds_example :
    (length context.files ≤ limits.max_repository_files)
    × (text_total context.text_files ≤ limits.max_total_text_bytes)
build_bounds_example = build_bounds limits "/src/app" sources context (omega arith) are_sized builds

abbrev archive : List Member
archive =
    record { filename = "app-1/"; is_dir = true; file_size = 0; content = "" }
    ∷ record { filename = "app-1/src/run.py"; is_dir = false; file_size = 9; content = "print(42)" }
    ∷ []

abbrev written : List Target
written = record { parts = "src" ∷ "run.py" ∷ []; is_dir = false; content = "print(42)" } ∷ []

extracts : extract 100 archive ≡ ok written
unfolding snapshot_code registry_code paths_code
extracts = refl

extract-IsBelow_example : All IsBelow written
extract-IsBelow_example = extract-IsBelow 100 archive written extracts
