-- ===== src/Development/Host.antt =====
-- What the development protocol takes from outside the repository: processes, the file system,
-- GitHub, random bytes and the regular expressions of SECRET_PATTERNS, over any world `W`.
use agentic_engineering_cont.Prelude.{ℕ, String, Bool, Option, List}
use agentic_engineering_cont.Prelude.Platform.{ℤ, Json, Platform}
use agentic_engineering_cont.Exec.{Result}
use agentic_engineering_cont.Development.Task.{Task}

-- subprocess.CompletedProcess
pub record Completed : Type 0 where
  pub returncode : ℤ
  pub stdout : String
  pub stderr : String

-- The parts of GitHub's answers that are read.
pub record CreatedPull : Type 0 where
  pub number : ℕ
  pub html_url : String
  pub draft : Bool

pub record PullView : Type 0 where
  pub merged_at : Option String
  pub head_sha : Option String
  pub merge_commit_sha : String

pub record CheckRun : Type 0 where
  pub name : String
  pub status : String
  pub conclusion : String

-- What workspace.rglob("*") finds: the path below the workspace, and whether the resolved path is
-- below the resolved workspace.
pub record TreeItem : Type 0 where
  pub relative : String
  pub is_symlink : Bool
  pub is_file : Bool
  pub inside : Bool

pub record Host (W : Type 0) : Type 0 where
  pub platform : Platform
  -- A process with its arguments and working directory; `none` if it cannot start or times out.
  pub spawn : List String → String → W → Option Completed × W
  -- DockerTestRunner(policy.test_isolation).run
  pub docker_run : List String → String → String → W → Result Completed × W
  pub python : String
  pub exists : String → W → Bool
  pub is_file : String → W → Bool
  pub read_text : String → W → Result String
  -- path.read_bytes(), as the text that hashes alike
  pub read_bytes : String → W → Result String
  -- Writes a file, with the directories above it.
  pub write_bytes : String → String → W → W
  pub unlink : String → W → W
  pub remove_tree : String → W → W
  -- str(Path(path).resolve()), and whether the first path, resolved, is among the parents of the
  -- second.
  pub resolve : String → W → String
  pub is_parent : String → String → W → Bool
  -- POST …/pulls, GET …/pulls/{number}, GET …/commits/{sha}/check-runs
  pub create_pull : String → String → String → String → String → String → W → Result CreatedPull × W
  pub get_pull : String → ℕ → String → W → Result PullView × W
  pub get_check_runs : String → String → String → W → Result (List CheckRun) × W
  pub tree : String → W → List TreeItem
  -- os.environ.get("GITHUB_TOKEN")
  pub github_token : Option String
  -- any(pattern.search(text) for pattern in SECRET_PATTERNS)
  pub finds_secret : String → Bool
  -- The evidence id of the n-th reading of the clock: the time stamp and os.urandom(4).hex().
  pub evidence_id : ℕ → String
  -- str(value), for a JSON value that is not a string
  pub str_of : Json → String
  -- json.dumps(task, indent=2, sort_keys=True) + "\n", for the dictionary of the task
  pub task_text : Task → String
