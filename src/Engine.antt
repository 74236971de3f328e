-- ===== src/Engine.antt =====
-- The ChangeSet engine (src/core/engine.ts), the volatile vault (src/core/vault.ts) and the
-- registry of adapters (src/adapters/registry.ts).
pub mod World
pub mod Registry
pub mod Vault
pub mod Calls
pub mod Outcomes
pub mod Plan
pub mod Apply
pub mod Verify
pub mod Rollback
pub mod Locking
pub mod Quiet
pub mod Walk
pub mod WalkPlan
pub mod Once
pub mod Session
pub mod Budget
pub mod Reading
pub mod Permanent
pub mod Lock
pub mod Durable
pub mod Frozen
pub mod Sights
pub mod Settled
pub mod Unique
