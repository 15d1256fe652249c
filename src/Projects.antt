-- ===== src/Projects.antt =====
-- The workflow of a chapter.
pub mod States
pub mod Invalidation
mod Examples
