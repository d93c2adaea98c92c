-- ===== src/Isolation/Samples.antt =====
-- A machine that can be computed with, and a policy in docker mode on it.
use agentic_engineering_cont.Prelude.{
  ℕ, zero, String, ◌≡◌, refl, true, false, List, [], ◌∷◌, ◌++◌, lower,
}
use agentic_engineering_cont.Prelude.Platform.{Json, end, field, str, obj, int, pos, get_field}
use agentic_engineering_cont.Exec.{ok, exec_code}
use agentic_engineering_cont.Development.Workspace.{workspace_code}
use agentic_engineering_cont.Isolation.Config.{IsolationConfig, from_dict, config_code}
use agentic_engineering_cont.Isolation.Docker.{Machine, completed, docker_options}
use agentic_engineering_cont.Isolation.Valid.{IsValid, from_dict-IsValid}

abbrev digest : String
digest = "0123456789abcdef0123456789abcdef0123456789abcdef0123456789abcdef"

abbrev pinned : String
pinned = "python@sha256:0123456789abcdef0123456789abcdef0123456789abcdef0123456789abcdef"

abbrev docker_policy : Json
docker_policy = obj (
    field "mode" (str "docker") (
      field "docker"
        (obj (
          field "image" (str pinned) (
            field "user" (str "65532:65532") (
              field "memory" (str "512m") (
                field "cpus" (str "0.5")
                  (field "tmpfs_size" (str "64m") (field "pids_limit" (int (pos 64)) end)))))))
        end))

abbrev pub docker_config : IsolationConfig
docker_config = record {
  mode = "docker";
  trusted_host_execution = false;
  docker_executable = "docker";
  image = pinned;
  user = "65532:65532";
  memory = "512m";
  cpus = "0.5";
  pids_limit = 64;
  tmpfs_size = "64m";
}

reads_docker_policy :
    (from_dict (λ j. "") (λ s. ok (pos 0)) docker_policy zero).0 ≡ ok docker_config
unfolding exec_code config_code workspace_code get_field lower
reads_docker_policy = refl

from_dict-IsValid_example : IsValid docker_config
from_dict-IsValid_example =
    from_dict-IsValid (λ j. "") (λ s. ok (pos 0)) docker_policy 0 docker_config reads_docker_policy

-- The second path of a mount lies outside the first.
abbrev pub machine : Machine ℕ
machine = record {
  spawn = λ argv timeout n.
      (completed (record { returncode = pos 0; stdout = "27.0"; stderr = "" }), n);
  is_symlink = λ path n. false;
  is_dir = λ path n. true;
  make_dir = λ path n. n;
  resolve = λ path n. path;
  is_parent = λ parent path. false;
  parent = λ path. "/runtime";
  random_hex = λ n. ("0123456789abcdef0123456789abcdef", n);
  show = λ n. "64";
}

abbrev container_command : List String
container_command =
    docker_options machine docker_config "/runtime/workspace" "/runtime/output"
      "ae-test-0123456789ab"
    ++ pinned ∷ "python" ∷ "-m" ∷ "unittest" ∷ []

abbrev asked : List String
asked = "python.exe" ∷ "-m" ∷ "unittest" ∷ []
