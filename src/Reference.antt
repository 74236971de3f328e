-- ===== src/Reference.antt =====
-- The lifecycle of reference pages (src/adapters/reference-page-lifecycle.ts).
pub mod State
pub mod Controller
pub mod Session
