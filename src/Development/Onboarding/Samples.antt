-- ===== src/Development/Onboarding/Samples.antt =====
-- A run of repository onboarding on a host that can be computed with, from the discovery to the
-- activation.
use agentic_engineering_cont.Prelude.{
  ℕ, String, ◌≡◌, refl, is_some, true, false, Option, none, some, List, [], ◌∷◌, strip, lower,
  is_blank, split_first,
}
use agentic_engineering_cont.Prelude.Platform.{get_field, describe}
use agentic_engineering_cont.Isolation.Docker.{docker_code}
use agentic_engineering_cont.Exec.{ok, exec_code}
use agentic_engineering_cont.Workflow.Lifecycle.{lifecycle_code}
use agentic_engineering_cont.Development.Task.{Registry, task_code}
use agentic_engineering_cont.Development.Host.{Host}
use agentic_engineering_cont.Development.Log.{log_code}
use agentic_engineering_cont.Development.Store.{State, store_code}
use agentic_engineering_cont.Development.Paths.{paths_code}
use agentic_engineering_cont.Development.Workspace.{workspace_code}
use agentic_engineering_cont.Development.Registry.{registry_code}
use agentic_engineering_cont.Development.Samples.{toy_host, policy}
use agentic_engineering_cont.Development.Onboarding.Record.{Metadata, Folder, active}
use agentic_engineering_cont.Development.Onboarding.Store.{
  folder_of, verify_from, onboarding_store_code,
}
use agentic_engineering_cont.Development.Onboarding.Detect.{detect_code}
use agentic_engineering_cont.Development.Onboarding.Controller.{new_record, discovery_code}
use agentic_engineering_cont.Development.Onboarding.Activation.{activation_code}
use agentic_engineering_cont.Development.Onboarding.Duties.{Activated}
use agentic_engineering_cont.Development.Onboarding.Runs.{
  Onboarding, discovering, assessing, replacing, approving, activating, no_records, run,
  active-Activated, verify_chain-true, onboarding_runs_code,
}

abbrev host : Host ℕ
host = record toy_host {
  tree = λ path n.
      record { relative = "tests/test_app.py"; is_symlink = false; is_file = true; inside = true }
      ∷ record { relative = "go.mod"; is_symlink = false; is_file = true; inside = true }
      ∷ [];
}

abbrev metadata : Metadata
metadata = record {
  full_name = "deadbeefcafe/App";
  name = "App";
  clone_url = some "https://example.org/app.git";
  default_branch = some "main";
  archived = false;
}

abbrev registry : Registry
registry = record { base = []; has_overlay_path = true; overlay = []; repositories = [] }

abbrev whole_onboarding : List (Onboarding ℕ)
whole_onboarding =
    discovering (metadata ∷ []) "dora"
    ∷ assessing "/onboarding/1" "deadbeefcafe/App" "amy"
    ∷ replacing "deadbeefcafe/App" (("python" ∷ "-m" ∷ "pytest" ∷ []) ∷ []) "amy"
    ∷ approving "deadbeefcafe/App" "bob" "APPROVE ONBOARD deadbeefcafe/App" "fine"
    ∷ activating "/onboarding/1" "deadbeefcafe/App" "cyd"
    ∷ []

program : Unit {0}
unfolding exec_code log_code lifecycle_code task_code paths_code workspace_code docker_code
    registry_code store_code onboarding_store_code detect_code discovery_code activation_code
    onboarding_runs_code strip lower is_blank split_first get_field describe
program = tt

abbrev id : String
id = "ONB-f00df00ddeadbeef"

abbrev final : State ℕ
final = run host policy (no_records registry 0) whole_onboarding

abbrev found_or : Option Folder → Folder → Folder
found_or none d = d
found_or (some f) d = f

abbrev activated : Folder
activated =
    found_or (folder_of id final.folders)
      (record { onboarding_id = ""; entry = new_record host policy metadata 0; events = [] })

found_or-some :
    (found : Option Folder) (d : Folder) → is_some found ≡ true → found ≡ some (found_or found d)
found_or-some none d h = cc
found_or-some (some f) d h = refl

has_folder : is_some (folder_of id final.folders) ≡ true
unfolding program
has_folder = refl

found_activated :
    folder_of id (run host policy (no_records registry 0) whole_onboarding).folders ≡ some activated
found_activated = found_or-some _ _ has_folder

is_active : activated.entry.state ≡ active
unfolding program
is_active = refl

active-Activated_example : Activated activated.entry
active-Activated_example =
    active-Activated host policy registry 0 whole_onboarding id activated found_activated is_active

verify_chain-true_example : verify_from host.platform "GENESIS" activated.events ≡ ok true
verify_chain-true_example =
    verify_chain-true host policy registry 0 whole_onboarding id activated found_activated
