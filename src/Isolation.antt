-- ===== src/Isolation.antt =====
-- The isolated test runner: ae_control_plane/isolation.py.
pub mod Config
pub mod Docker
pub mod Numbers
pub mod Valid
pub mod Confined
pub mod Samples
