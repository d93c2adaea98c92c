-- ===== src/Workflow.antt =====
-- The governed audit workflow: ae_control_plane/lifecycle.py, store.py, planning.py, execution.py
-- and workflow.py.
pub mod Lifecycle
pub mod Planning
pub mod Event
pub mod Store
pub mod Execution
pub mod Governed
pub mod Duties
pub mod Runs
pub mod Samples
