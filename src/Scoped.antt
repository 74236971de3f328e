-- ===== src/Scoped.antt =====
-- The controllers that put a task's authority before the engine and the publication controller
-- (src/core/task-authority.ts).
pub mod Calls
pub mod Engine
pub mod Publication
pub mod Untouched
pub mod Refused
pub mod Released
pub mod Freed
pub mod Owned
