-- ===== src/Storage/Cleanup.antt =====
-- CleanupService of backend/app/modules/storage/cleanup.py.
pub mod Schema
pub mod Rules
pub mod Preview
pub mod Execute
pub mod Account
pub mod Quarantined
pub mod Deletion
pub mod Loop
pub mod Targets
pub mod Guard
pub mod Balance
