-- ===== src/Jobs/Contract.antt =====
-- What the methods of JobRunner promise their callers.
pub mod Closing
pub mod Fencing
pub mod Billing
pub mod Claims
pub mod Enqueues
pub mod Feed
