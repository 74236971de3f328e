-- ===== src/Manager.antt =====
-- The manager of task authorities (src/core/task-authority-manager.ts): one ephemeral authority of
-- the process, with the leases that pin it.
pub mod Inventory
pub mod State
pub mod Guarded
pub mod Leases
pub mod Input
pub mod Lifetime
pub mod Lineage
pub mod Session
pub mod Same
pub mod Pinned
pub mod Exclusive
pub mod Uninterrupted
pub mod Tokens
pub mod Revoked
pub mod Ended
pub mod Retired
