-- ===== src/Engine/Calls.antt =====
-- The steps that the methods of the engine share (src/core/engine.ts).
use tilda_mcp.Prelude.{
  String, ◌==◌, Option, none, some, Bool, false, if◌then◌else◌, is_canonical_hash,
}
use tilda_mcp.Effect.Codes.{
  Code, tilda, invalid_adapter_state, ambiguous_state, apply_failed_unchanged,
  apply_previous_attempt_unchanged, apply_verification_failed_recovered, rollback_failed_unchanged,
  rollback_previous_attempt_unchanged,
}
use tilda_mcp.Effect.Check.{Result, ok, err, require}
use tilda_mcp.Effect.State.{Exec, returned, pure, attempt, try_catch, ◌>>=◌, ◌>>◌}
use tilda_mcp.Contracts.Targets.{ExactTarget}
use tilda_mcp.Contracts.Adapters.{AdapterState, ChangeAdapter, Host}
use tilda_mcp.Contracts.Records.{
  ChangeSetRecord, ChangeSetState, planned, applied, verified, rolled_back, VerificationRecord,
  Timestamp,
}
use tilda_mcp.Store.Journal.{append_change_set}
use tilda_mcp.Engine.World.{World, on_store, on_outside}

pub record EngineActionResult : Type 0 where
  pub change_set : ChangeSetRecord
  pub state_changed : Bool
  pub dry_run : Bool

unfoldable pub assert_state_hash : AdapterState → Result (Unit {0})
assert_state_hash s = require (is_canonical_hash s.hash) invalid_adapter_state

unfoldable pub verification : Timestamp → String → String → VerificationRecord
verification now expected actual = record {
  checked_at = now;
  expected_hash = expected;
  actual_hash = actual;
  exact_match = expected == actual;
  changed_paths = none;
}

-- `expectedForVerification`, of a failed ChangeSet by its code.
unfoldable pub expected_of_failure : ChangeSetRecord → Option Code → Result String
expected_of_failure r (some apply_failed_unchanged) = ok r.expected_before_hash
expected_of_failure r (some apply_previous_attempt_unchanged) = ok r.expected_before_hash
expected_of_failure r (some apply_verification_failed_recovered) = ok r.expected_before_hash
expected_of_failure r (some rollback_failed_unchanged) = ok r.expected_after_hash
expected_of_failure r (some rollback_previous_attempt_unchanged) = ok r.expected_after_hash
expected_of_failure r _ = err (tilda ambiguous_state)

unfoldable pub expected_by_state : ChangeSetRecord → ChangeSetState → Result String
expected_by_state r planned = ok r.expected_before_hash
expected_by_state r rolled_back = ok r.expected_before_hash
expected_by_state r applied = ok r.expected_after_hash
expected_by_state r verified = ok r.expected_after_hash
expected_by_state r ChangeSetState.failed = expected_of_failure r r.failure_code

unfoldable pub expected_for_verification : ChangeSetRecord → Result String
expected_for_verification r = expected_by_state r r.state

module _ {E : Type 0} where
  -- `adapter.read` and the check of its hash.
  unfoldable pub checked_read : ChangeAdapter E → ExactTarget → Exec (World E) AdapterState
  checked_read adapter t = do s ← on_outside (adapter.read t); attempt (assert_state_hash s); pure s

  unfoldable pub diagnostic_read :
      ChangeAdapter E → ExactTarget → Exec (World E) (Option AdapterState)
  diagnostic_read adapter t =
      try_catch (do s ← checked_read adapter t; pure (some s)) (λ _. pure none)

  -- `this.store.appendChangeSet`.
  unfoldable pub append : ChangeSetRecord → Exec (World E) ChangeSetRecord
  append r = on_store (append_change_set r)

-- `state?.hash === h`.
abbrev pub hash_is : Option AdapterState → String → Bool
hash_is none h = false
hash_is (some s) h = s.hash == h

abbrev pub hash_of : Option AdapterState → Option String
hash_of none = none
hash_of (some s) = some s.hash

-- The state, where `state?.hash === h`.
unfoldable pub found_at : Option AdapterState → String → Option AdapterState
found_at none h = none
found_at (some s) h = if s.hash == h then some s else none

-- `...(after === null ? {} : { appliedHash: after.hash })`.
abbrev pub applied_if_read : Option AdapterState → Option String → Option String
applied_if_read none old = old
applied_if_read (some s) old = some s.hash

module _ {E : Type 0} (host : Host E) where
  unfoldable pub now : Exec (World E) Timestamp
  now w = let (t, e) = host.now w.outside in returned t (record w { outside = e })

  unfoldable pub random_uuid : Exec (World E) String
  random_uuid w = let (id, e) = host.random_uuid w.outside in returned id (record w { outside = e })

  -- The verification of a hash, at the current time.
  unfoldable pub checked_now : String → String → Exec (World E) VerificationRecord
  checked_now expected actual = do t ← now; pure (verification t expected actual)

  -- The verification of a state that was read; what stood before stays where none was.
  unfoldable pub checked_if_read :
      String
      → Option AdapterState
      → Option VerificationRecord
      → Exec (World E) (Option VerificationRecord)
  checked_if_read expected none old = pure old
  checked_if_read expected (some s) old = do v ← checked_now expected s.hash; pure (some v)

-- The fields that a failure sets.
unfoldable pub fail_with :
    ChangeSetRecord → Timestamp → Code → Option String → Option VerificationRecord → ChangeSetRecord
fail_with r t code applied_hash verified_by = record r {
  state = ChangeSetState.failed;
  updated_at = t;
  failure_code = some code;
  applied_hash = applied_hash;
  verification = verified_by;
}

-- The fields that a success sets; `code` is the reconciliation, where there was one.
unfoldable pub settle_with :
    ChangeSetRecord
    → Timestamp
    → ChangeSetState
    → Option String
    → Option Code
    → VerificationRecord
    → ChangeSetRecord
settle_with r t state applied_hash code verified_by = record r {
  state = state;
  updated_at = t;
  applied_hash = applied_hash;
  reconciliation_code = code;
  verification = some verified_by;
}
