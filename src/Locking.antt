-- ===== src/Locking.antt =====
-- The file lock: ae_control_plane/locking.py.
pub mod Mutex
pub mod Turns
pub mod System
pub mod Exclusive
pub mod Handover
mod Samples
