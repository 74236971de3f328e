-- ===== src/StandardField.antt =====
-- Which standard fields may be written (src/core/standard-field-safety.ts).
pub mod Safety
pub mod Disguise
