-- ===== src/Effect.antt =====
-- Errors as values and the effects of the handlers: a call of a method is a function of the state
-- before it, and what was written before an error stays written.
pub mod Codes
pub mod Check
pub mod State
pub mod Keeps
pub mod Cases
pub mod Ensures
pub use Codes.*
pub mod Dead
pub mod Post
pub mod Triple
