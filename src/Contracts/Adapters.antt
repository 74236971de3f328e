-- ===== src/Contracts/Adapters.antt =====
-- The port to the adapters (src/core/contracts.ts). `E` is everything outside the process: the
-- remote editor, the clock and the source of random identifiers, which every call may change.
use tilda_mcp.Prelude.{ℕ, String, List, Option, Bool}
use tilda_mcp.Effect.Check.{Result}
use tilda_mcp.Effect.State.{Exec}
use tilda_mcp.Contracts.Targets.{ExactTarget}
use tilda_mcp.Contracts.Requests.{ChangeRequest}
use tilda_mcp.Contracts.Hash.{Json, Platform}

pub record AdapterState : Type 0 where
  pub hash : String
  pub payload : Json
  pub revision : Option String
  pub summary : String

pub record PlannedMutation : Type 0 where
  pub adapter : String
  pub capability : String
  pub request : ChangeRequest
  pub expected_before_hash : String
  pub expected_before_revision : Option String
  pub expected_after_hash : String
  pub intended_state : AdapterState
  pub changed_paths : List String
  pub summary : String

pub record ChangeAdapter (E : Type 0) : Type 0 where
  pub id : String
  pub capabilities : List String
  pub supports : ChangeRequest → Bool
  pub read : ExactTarget → Exec E AdapterState
  pub plan : AdapterState → ChangeRequest → Result PlannedMutation
  pub apply : PlannedMutation → Exec E AdapterState
  pub restore : ExactTarget → AdapterState → Exec E AdapterState

-- What the engine is built on: the registry's adapters and the platform.
pub record Host (E : Type 0) : Type 0 where
  pub platform : Platform
  pub adapters : List (ChangeAdapter E)
  -- the clock and the source of random UUIDs
  pub now : E → ℕ × E
  pub random_uuid : E → String × E
