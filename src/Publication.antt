-- ===== src/Publication.antt =====
-- The publication of pages (src/core/publication.ts), which stays outside the change sets.
pub mod Data
pub mod Reread
pub mod Replay
pub mod Execute
pub mod Walk
pub mod Session
pub mod Stable
pub mod Paid
pub mod Once
pub mod Waiting
pub mod Final
pub mod Settles
pub mod Result
