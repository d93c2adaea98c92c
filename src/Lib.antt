-- ===== src/Lib.antt =====
-- A verification library for the control plane of ae_control_plane: the governed workflow, which
-- takes findings through planning, approval, simulated execution, validation and closure, and the
-- development protocol, which takes a change set from an intent to a verified merge.
--
-- Exec has the actions that the models are written in: functions from a state to a result or an
-- exception, with the state that is left in both cases; a database transaction restores its tables.
-- Exec.Keeps and Exec.Triple are the rules for invariants of such actions. Prelude.Platform is the
-- part of Python's standard library that the code calls, as a record of functions (sha256, the JSON
-- encoder and decoder, the clock); nothing is assumed of them but what a theorem names.
--
-- The governed workflow (ae_control_plane/lifecycle.py, planning.py, store.py, execution.py and
-- workflow.py):
--   Workflow.Lifecycle  the states of WORK_STATES, ALLOWED_TRANSITIONS, the data classes
--   Workflow.Planning   ToolRegistry and RemediationPlanner.create_plan
--   Workflow.Event      the rows of the events table, their hash, verify_event_chain
--   Workflow.Store      WorkflowStore: five tables as lists, unique columns, transactions
--   Workflow.Execution  SafeExecutor.execute and ExecutionValidator.validate
--   Workflow.Governed   GovernedWorkflow: ingest_run, triage, plan, approve_execution, execute,
--                       validate, approve_closure
--   Workflow.Duties and Workflow.Runs: who has acted on an item, and runs of any operations
--
-- The development protocol (ae_control_plane/development.py):
--   Development.Task        TASK_STATES, TRANSITIONS and the task's dictionary as a record
--   Development.Host        processes, files, GitHub and the clock, over a world of any type
--   Development.Store       DevelopmentStore: a list of task directories, each a state and a log
--   Development.Paths       DevelopmentController._safe_relative on the parts of a path
--   Development.Registry    RepositoryRegistry.get and the contracts read from a repository
--   Development.Workspace   run_command, _diff_metrics, _enforce_budget, _change_digest, tests
--   Development.Controller  start, plan, cancel, prepare, apply_changes
--   Development.Gates       test, review, approve_publish, publish, verify_merge
--   Development.Evidence    _build_evidence, file by file, and verify_evidence_manifest; a file of
--                           JSON is kept as the value that it was written from
--   Development.Duties, Development.Chained and Development.Runs: who has acted on a task, the log of
--                           each task, and runs of any methods
--   Development.Log         the hash-linked log that the two stores share
--   Development.Onboarding  OnboardingStore and RepositoryOnboardingController, one module each for
--                           the record, the store, _detect_contract, the methods up to set_contract
--                           (Controller) and those from approve on (Activation)
--
-- The container runner (ae_control_plane/isolation.py):
--   Isolation.Config        IsolationConfig.from_dict
--   Isolation.Docker        DockerTestRunner: its checks, the docker command, the run
--
-- The file lock (ae_control_plane/locking.py):
--   Locking.Mutex           FileMutex; `others` is what other processes do while one sleeps
--   Locking.System          any number of processes at one lock file, in any order of their steps
--
-- The audit pipeline (ae_control_plane/models.py, inventory.py, context.py and github_client.py):
--   Audit.Inventory         RepositoryDescriptor, load_inventory and merge_inventory
--   Audit.Context           ContextBuilder.build on a directory tree
--   Audit.Snapshot          the archive's part of GitHubClient.download_snapshot
--
-- The loop of FileMutex.__enter__ has fuel, one turn more than the timeout has ticks of the clock;
-- every other operation is total, since each loop recurs on the list that it reads. Times are
-- readings of the clock in microseconds. Text stands for its UTF-8 bytes; splitlines splits at line
-- feeds and lower is the ASCII one. The messages of failed processes leave out their output. The
-- methods of the two stores run one after another. For the development protocol and onboarding the
-- file lock enforces that; for the workflow store it is an assumption, since its methods read and
-- write in several connections (validate calls append_event outside any transaction). Exec.Convert has Python's str, int and bool of JSON values.
--
-- Not modelled are DevelopmentController.monitor, the rules of the audit agents and their
-- orchestration (agents.py, orchestrator.py), policy.py, provenance.py, GitHub's transport, and
-- reports and the command line (reporting.py, cli.py), which only format and print.
pub mod Prelude
pub mod Exec
pub mod Workflow
pub mod Isolation
pub mod Locking
pub mod Audit
pub mod Development
