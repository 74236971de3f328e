-- ===== src/T123.antt =====
-- The planned edits of a T123 code record (src/adapters/t123-code-helper.ts).
pub mod Data
pub mod Spans
pub mod Structure
pub mod Plan
pub mod Replace
pub mod Bounds
pub mod Weaving
pub mod Once
