-- ===== src/Authority.antt =====
-- The authority of a task (src/core/task-authority.ts): what one user task may read and change.
pub mod Scope
pub mod Grant
pub mod Hash
pub mod Guard
pub mod Paths
pub mod Isolation
