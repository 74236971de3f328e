-- ===== src/Engine/Outcomes.antt =====
-- How an action of the engine ends: tests on what was read, and recorded failures
-- (src/core/engine.ts).
use tilda_mcp.Prelude.{String, ◌==◌, Option, none, some, Bool, true, false}
use tilda_mcp.Effect.Codes.{Code, Failure, tilda, head_write_verification_ambiguous}
use tilda_mcp.Effect.State.{Exec, throw, ◌>>=◌, ◌>>◌}
use tilda_mcp.Contracts.Adapters.{AdapterState, Host}
use tilda_mcp.Contracts.Records.{ChangeSetRecord, ChangeSetState, applied, verified}
use tilda_mcp.Store.Claims.{Claim, claimed_now, replayed}
use tilda_mcp.Engine.World.{World}
use tilda_mcp.Engine.Vault
use tilda_mcp.Engine.Calls.{EngineActionResult, append, now, checked_if_read, fail_with}

abbrev pub result : ChangeSetRecord → Bool → Bool → EngineActionResult
result r changed dry = record { change_set = r; state_changed = changed; dry_run = dry }

-- `a === b` on optional texts.
abbrev pub same_option : Option String → Option String → Bool
same_option none none = true
same_option (some a) (some b) = a == b
same_option _ _ = false

-- The revision is the expected one, where one is expected.
abbrev pub revision_is : Option String → Option String → Bool
revision_is none fresh = true
revision_is (some r) none = false
revision_is (some r) (some f) = f == r

abbrev pub is_claimed_now : Claim → Bool
is_claimed_now claimed_now = true
is_claimed_now replayed = false

-- What the dispatch left: the state that it returned or that was read after it, and its error.
pub record Dispatched : Type 0 where
  pub after : Option AdapterState
  pub error : Option Failure

unfoldable pub is_head_write : Option Failure → Bool
is_head_write (some (tilda head_write_verification_ambiguous)) = true
is_head_write _ = false

abbrev pub did_throw : Option Failure → Bool
did_throw none = false
did_throw (some e) = true

abbrev pub reconciled_if : Option Failure → Code → Option Code → Option Code
reconciled_if none code old = old
reconciled_if (some e) code old = some code

abbrev pub verified_state : Bool → ChangeSetState → ChangeSetState
verified_state true applied = verified
verified_state true verified = verified
verified_state _ s = s

module _ {E : Type 0} (host : Host E) where
  -- A failure with a verification, then the error.
  unfoldable pub fail_and_throw :
      {A : Type 0}
      → ChangeSetRecord
      → Code
      → Option String
      → String
      → Option AdapterState
      → Code
      → Exec (World E) A
  fail_and_throw r recorded applied_hash expected state thrown = do
    t ← now host
    v ← checked_if_read host expected state r.verification
    append (fail_with r t recorded applied_hash v)
    throw thrown

  -- The same, where the vault forgets the material before the error.
  unfoldable pub fail_and_forget :
      {A : Type 0}
      → ChangeSetRecord
      → Code
      → Option String
      → String
      → Option AdapterState
      → Code
      → Exec (World E) A
  fail_and_forget r recorded applied_hash expected state thrown = do
    t ← now host
    v ← checked_if_read host expected state r.verification
    append (fail_with r t recorded applied_hash v)
    Vault.delete r.change_set_id
    throw thrown
