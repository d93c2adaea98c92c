-- ===== src/Audit.antt =====
-- The audit pipeline: ae_control_plane/models.py, inventory.py, context.py and github_client.py, as
-- far as they keep data.
pub mod Inventory
pub mod Context
pub mod Snapshot
pub mod Bounded
pub mod Merge
pub mod Roundtrip
mod Samples
