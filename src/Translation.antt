-- ===== src/Translation.antt =====
-- Preparing a chapter for translation: its normalized text and its segments.
pub mod Text
pub mod Normalize
pub mod Segmenter
pub mod Pack
pub mod Content
pub mod Context
pub mod Drafts
pub mod DraftStream
pub mod DraftService
pub mod Sink
mod Selecting
mod Resuming
mod Streaming
mod Examples
