-- ===== src/Tests.antt =====
-- Runs of the model on concrete inputs.
pub mod Demo
mod Runs
mod Witnesses
mod Authority
mod Publication
mod Manager
mod T123
pub mod Scoped
pub mod StandardField
pub mod Reference
pub mod Sights
