-- ===== src/Isolation/Docker.antt =====
-- DockerTestRunner: the checks of a command and of its directories, the command of the container,
-- and its run.
use Prim.Native.Char.{code}
use agentic_engineering_cont.Prelude.{
  ℕ, String, Bool, false, not, ◌&&◌, ◌||◌, List, [], ◌∷◌, ◌++◌, ◌==◌, any, length, contains, concat,
  take, all_chars, hex_run, is_blank, strip, split_first, ltb, eqb, if◌then◌else◌,
}
use agentic_engineering_cont.Prelude.Platform.{value_error, permission_error, runtime_error}
use agentic_engineering_cont.Exec.{
  Result, ok, err, Exec, pure, raise, lift, gets, modify, guard, ◌>>=◌, ◌>>◌,
}
use agentic_engineering_cont.Development.Host.{Completed}
use agentic_engineering_cont.Development.Workspace.{executable_of, is_zero, text_size}
use agentic_engineering_cont.Isolation.Config.{IsolationConfig}

-- How a process ends: not at all, by its time limit, or with a result.
pub data Outcome : Type 0 where
  not_started timed_out : Outcome
  completed : Completed → Outcome

-- What the runner takes from the operating system, over a world of any type.
pub record Machine (W : Type 0) : Type 0 where
  pub spawn : List String → ℕ → W → Outcome × W
  pub is_symlink : String → W → Bool
  pub is_dir : String → W → Bool
  -- mkdir(exist_ok=True)
  pub make_dir : String → W → W
  -- str(path.resolve()), and whether the first path is among the parents of the second
  pub resolve : String → W → String
  pub is_parent : String → String → Bool
  -- str(path.parent)
  pub parent : String → String
  -- The next uuid.uuid4().hex
  pub random_hex : W → String × W
  -- str(n)
  pub show : ℕ → String

-- character in text
unfoldable pub has_char : ℕ → String → Bool
has_char n s = not (all_chars (λ c. not (eqb (code c) n)) s)

-- The arguments after the program, checked.
abbrev pub is_bad_argument : String → Bool
is_bad_argument part = part == "" || has_char 0 part || ltb 4096 (text_size part)

unfoldable pub python_command : List String → Result (List String)
python_command [] = err (value_error "test command must contain 1 to 64 arguments")
python_command (program ∷ arguments) =
    if contains ("python" ∷ "python.exe" ∷ []) (executable_of program)
    then ok ("python" ∷ arguments)
    else err (
        permission_error
          (concat ("docker runner does not support executable: " ∷ executable_of program ∷ [])))

-- _validate_command
unfoldable pub validate_command : List String → Result (List String)
validate_command argv =
    if eqb (length argv) 0 || ltb 64 (length argv)
    then err (value_error "test command must contain 1 to 64 arguments")
    else if any is_bad_argument argv
    then err (value_error "test command contains an invalid argument")
    else python_command argv

abbrev after_name : List String → String → Bool
after_name [] s = hex_run 12 s
after_name (c ∷ cs) String.[] = false
after_name (c ∷ cs) (String.◌∷◌ d s) =
    let rest = after_name cs s in if String.◌∷◌ d "" == c then rest else false

-- re.fullmatch(r"ae-test-[a-f0-9]{12}", container_name)
unfoldable pub is_container_name : String → Bool
is_container_name name = after_name ("a" ∷ "e" ∷ "-" ∷ "t" ∷ "e" ∷ "s" ∷ "t" ∷ "-" ∷ []) name

-- user.split(":", 1)[1]
unfoldable pub group_of : String → String
group_of String.[] = ""
group_of (String.◌∷◌ c s) = let rest = group_of s in if eqb (code c) 58 then s else rest

abbrev pub is_unsafe_path : String → Bool
is_unsafe_path path = has_char 44 path || has_char 10 path || has_char 13 path

module _ {W : Type 0} (m : Machine W) (config : IsolationConfig) where
  unfoldable pub in_world : {A : Type 0} → (W → A × W) → Exec W A
  in_world f w = let (a, w') = f w in (ok a, w')

  -- _validate_paths
  unfoldable pub validate_paths : String → String → Exec W (String × String)
  validate_paths workspace output_dir = do
    real ← gets (λ w. not (m.is_symlink workspace w) && m.is_dir workspace w)
    guard real (permission_error "workspace must be a real directory")
    source ← gets (m.resolve workspace)
    let git_dir = concat (source ∷ "/.git" ∷ [])
    cloned ← gets (λ w. not (m.is_symlink git_dir w) && m.is_dir git_dir w)
    guard cloned (permission_error "workspace must be an isolated Git clone")
    let output_parent = m.parent output_dir
    placed ← gets (λ w. not (m.is_symlink output_parent w) && m.is_dir output_parent w)
    guard placed (permission_error "container output parent must be a real directory")
    modify (m.make_dir output_dir)
    linked ← gets (m.is_symlink output_dir)
    guard (not linked) (permission_error "container output must not be a symlink")
    output ← gets (m.resolve output_dir)
    guard (not (output == source || m.is_parent source output))
        (permission_error "container output must be outside the read-only workspace")
    guard (not (is_unsafe_path source || is_unsafe_path output))
        (permission_error "container mount path contains unsafe characters")
    pure (source, output)

  -- What stands before the image and the command.
  unfoldable pub docker_options : String → String → String → List String
  docker_options source output container_name =
      config.docker_executable
      ∷ "run"
      ∷ "--rm"
      ∷ "--name"
      ∷ container_name
      ∷ "--network"
      ∷ "none"
      ∷ "--read-only"
      ∷ "--user"
      ∷ config.user
      ∷ "--cap-drop"
      ∷ "ALL"
      ∷ "--security-opt"
      ∷ "no-new-privileges:true"
      ∷ "--pids-limit"
      ∷ m.show config.pids_limit
      ∷ "--memory"
      ∷ config.memory
      ∷ "--cpus"
      ∷ config.cpus
      ∷ "--ipc"
      ∷ "none"
      ∷ "--tmpfs"
      ∷ concat (
          "/tmp:rw,noexec,nosuid,nodev,size="
          ∷ config.tmpfs_size
          ∷ ",uid="
          ∷ split_first 58 config.user
          ∷ ",gid="
          ∷ group_of config.user
          ∷ [])
      ∷ "--mount"
      ∷ concat ("type=bind,src=" ∷ source ∷ ",dst=/workspace,readonly" ∷ [])
      ∷ "--mount"
      ∷ concat ("type=bind,src=" ∷ output ∷ ",dst=/output" ∷ [])
      ∷ "--workdir"
      ∷ "/workspace"
      ∷ "--env"
      ∷ "HOME=/tmp"
      ∷ "--env"
      ∷ "TMPDIR=/tmp"
      ∷ "--env"
      ∷ "PYTHONDONTWRITEBYTECODE=1"
      ∷ "--env"
      ∷ "PYTHONUNBUFFERED=1"
      ∷ "--env"
      ∷ "AE_OUTPUT_DIR=/output"
      ∷ []

  unfoldable pub build_command : List String → String → String → String → Exec W (List String)
  build_command argv workspace output_dir container_name = do
    (source, output) ← validate_paths workspace output_dir
    command ← lift (validate_command argv)
    guard (is_container_name container_name) (value_error "invalid test container name")
    pure (docker_options source output container_name ++ config.image ∷ command)

  abbrev version_of : Outcome → Result String
  version_of (completed c) =
      if not (is_zero c.returncode) || is_blank c.stdout
      then err (runtime_error "Docker daemon is unavailable")
      else ok (strip c.stdout)
  version_of _ = err (runtime_error "Docker daemon is unavailable")

  abbrev inspected : Outcome → Result (Unit {0})
  inspected (completed c) =
      if is_zero c.returncode
      then ok tt
      else err (runtime_error "digest-pinned Docker test image is unavailable locally")
  inspected _ = err (runtime_error "digest-pinned Docker test image is unavailable locally")

  unfoldable pub ensure_available : Exec W String
  ensure_available = do
    answer ← in_world (
        m.spawn (config.docker_executable ∷ "version" ∷ "--format" ∷ "{{.Server.Version}}" ∷ []) 20)
    version ← lift (version_of answer)
    image ←
        in_world (m.spawn (config.docker_executable ∷ "image" ∷ "inspect" ∷ config.image ∷ []) 20)
    lift (inspected image)
    pure version

  -- After its time limit the container is removed by force.
  abbrev finished : String → ℕ → Outcome → Exec W Completed
  finished name timeout (completed c) = pure c
  finished name timeout not_started = raise (runtime_error "isolated test failed to start")
  finished name timeout timed_out = do
    in_world (m.spawn (config.docker_executable ∷ "rm" ∷ "--force" ∷ name ∷ []) 20)
    raise (
        runtime_error
          (concat ("isolated test timed out after " ∷ m.show timeout ∷ " seconds" ∷ [])))

  -- run; the last removal counts as done whatever its outcome.
  unfoldable pub run : List String → String → String → ℕ → Exec W Completed
  run argv workspace output_dir timeout = do
    ensure_available
    hex ← in_world m.random_hex
    let name = concat ("ae-test-" ∷ take 12 hex ∷ [])
    command ← build_command argv workspace output_dir name
    outcome ← in_world (m.spawn command timeout)
    finished name timeout outcome

-- All that a run computes with here, under one name.
unfoldable pub docker_code : Unit {0}
unfolding has_char python_command validate_command is_container_name group_of in_world
    validate_paths docker_options build_command ensure_available run
docker_code = tt
