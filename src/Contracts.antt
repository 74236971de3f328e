-- ===== src/Contracts.antt =====
-- The data that the components exchange (src/core/contracts.ts).
pub mod Targets
pub mod Requests
pub mod Records
pub mod Adapters
pub mod Hash
