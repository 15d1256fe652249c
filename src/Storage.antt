-- ===== src/Storage.antt =====
-- The store of artifacts and the cleanup of its files: backend/app/modules/artifacts/store.py and
-- backend/app/modules/storage/cleanup.py.
pub mod Store
pub mod Cleanup
mod Examples
