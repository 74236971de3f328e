-- ===== src/Engine/Settled/Verify.antt =====
-- What `verify` has established once it returns (src/core/engine.ts).
use tilda_mcp.Prelude.{◌≢◌, String, ◌≡◌, some, true}
use tilda_mcp.Effect.Check.{ok}
use tilda_mcp.Effect.Triple.{Triple}
use tilda_mcp.Contracts.Adapters.{Host}
use tilda_mcp.Contracts.Records.{
  ChangeSetRecord, ChangeSetState, planned, applied, verified, rolled_back, VerificationRecord,
  Timestamp,
}
use tilda_mcp.Store.Checks.{proves}
use tilda_mcp.Engine.World
use tilda_mcp.Engine.World.{World}
use tilda_mcp.Engine.Sights.{read_back, Log, Seen}
use tilda_mcp.Engine.Calls.{EngineActionResult, expected_for_verification, verification}
use tilda_mcp.Engine.Outcomes.{verified_state}

-- The state asks for the hash, a verification has found it, and the state is past applied.
pub record IsVerified (r : ChangeSetRecord) (hash : String) : Type 0 where
  pub expected : expected_for_verification r ≡ ok hash
  pub proven : proves r.verification hash ≡ true
  pub past_applied : r.state ≢ applied

abbrev step : ChangeSetRecord → Timestamp → VerificationRecord → ChangeSetState → ChangeSetRecord
step r t v s = record r { state = s; updated_at = t; verification = some v }

past_applied : (s : ChangeSetState) → verified_state true s ≢ applied
past_applied applied h = cc
past_applied planned h = cc
past_applied verified h = cc
past_applied rolled_back h = cc
past_applied ChangeSetState.failed h = cc

module _ {E : Type 0} {host : Host E} (log : Log host) where
  -- What a verify comes to: the hash that the ChangeSet asks for was shown by a read of its target.
  pub record Verifies (x : EngineActionResult) (w : World E) : Type 0 where
    pub hash : String
    pub is_verified : IsVerified x.change_set hash
    pub seen : Seen log (read_back x.change_set.target hash) w
