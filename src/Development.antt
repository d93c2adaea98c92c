-- ===== src/Development.antt =====
-- The development protocol: ae_control_plane/development.py.
pub mod Task
pub mod Host
pub mod Log
pub mod Onboarding
pub mod Store
pub mod Paths
pub mod Workspace
pub mod Registry
pub mod Controller
pub mod Evidence
pub mod Gates
pub mod Steady
pub mod Duties
pub mod Saving
pub mod Steps
pub mod Runs
pub mod Inside
pub mod Checks
pub mod Published
pub mod Merged
pub mod Chained
pub mod Samples
