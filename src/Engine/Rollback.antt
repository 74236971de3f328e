-- ===== src/Engine/Rollback.antt =====
-- `rollback` (src/core/engine.ts).
use tilda_mcp.Prelude.{String, ◌==◌, Option, none, some, Bool, true, false, ◌&&◌, not}
use tilda_mcp.Effect.Codes.{
  Code, Failure, tilda, state_corrupt, idempotency_key_required, snapshot_mismatch,
  recovery_required, stale_target, rollback_ambiguous, rollback_failed_unchanged,
  rollback_previous_attempt_unchanged, rollback_replay_reconciled, rollback_error_reconciled,
  head_restore_verification_ambiguous,
}
use tilda_mcp.Effect.State.{
  Exec, pure, throw, attempt, guard, throw_if, try_catch, if◌then◌else◌, ◌>>=◌, ◌>>◌,
}
use tilda_mcp.Contracts.Hash.{canonical_hash, target_json}
use tilda_mcp.Contracts.Adapters.{AdapterState, ChangeAdapter, Host}
use tilda_mcp.Contracts.Records.{
  ChangeSetRecord, ChangeSetState, planned, applied, verified, rolled_back, SnapshotEnvelope,
}
use tilda_mcp.Store.{rollback as rollback_action}
use tilda_mcp.Store.Read.{load_change_set, load_snapshot}
use tilda_mcp.Store.Journal.{reads}
use tilda_mcp.Store.Claims.{ActionAttempt, unclaimed, replay, action_attempt_status}
use tilda_mcp.Store.Attempts.{claim_action_idempotency}
use tilda_mcp.Engine.World.{World, on_store, on_outside, with_mutation_lock}
use tilda_mcp.Engine.Registry.{by_id}
use tilda_mcp.Engine.Vault
use tilda_mcp.Engine.Calls.{
  EngineActionResult, assert_state_hash, checked_read, diagnostic_read, append, hash_is, found_at,
  now, checked_now, settle_with,
}
use tilda_mcp.Engine.Outcomes.{result, is_claimed_now, Dispatched, reconciled_if, fail_and_throw}

unfoldable pub is_head_restore : Option Failure → Bool
is_head_restore (some (tilda head_restore_verification_ambiguous)) = true
is_head_restore _ = false

-- The ChangeSet has failed with this code already.
unfoldable pub failed_with_unchanged : ChangeSetState → Option Code → Bool
failed_with_unchanged ChangeSetState.failed (some rollback_previous_attempt_unchanged) = true
failed_with_unchanged _ _ = false

unfoldable pub failed_with_ambiguous : ChangeSetState → Option Code → Bool
failed_with_ambiguous ChangeSetState.failed (some rollback_ambiguous) = true
failed_with_ambiguous _ _ = false

-- `current.appliedHash ?? h`.
abbrev or_hash : Option String → String → Option String
or_hash none h = some h
or_hash (some a) h = some a

-- A state of the target from which a rollback would not be safe.
unfoldable pub is_stale : ChangeSetState → Bool → Bool → Bool
is_stale planned baseline changed = not baseline
is_stale applied baseline changed = not changed
is_stale verified baseline changed = not changed
is_stale ChangeSetState.failed baseline changed = not baseline && not changed
is_stale rolled_back baseline changed = false

module _ {E : Type 0} (host : Host E) where
  -- The ChangeSet is rolled back, at the hash that was read, and the vault forgets its material.
  unfoldable pub settle_rollback :
      ChangeSetRecord → String → Option Code → Bool → Exec (World E) EngineActionResult
  settle_rollback r actual code changed = do
    t ← now host
    v ← checked_now host r.expected_before_hash actual
    let done = settle_with r t rolled_back r.applied_hash code v
    append done
    Vault.delete r.change_set_id
    pure (result done changed false)

  -- A prior attempt was claimed: what the target shows decides, and nothing is written to it.
  unfoldable pub rollback_replay :
      ChangeSetRecord → AdapterState → Exec (World E) EngineActionResult
  rollback_replay r fresh =
      if fresh.hash == r.expected_before_hash
      then settle_rollback r fresh.hash (some rollback_replay_reconciled) false
      else if fresh.hash == r.expected_after_hash
      then (if failed_with_unchanged r.state r.failure_code
          then throw recovery_required
          else fail_and_throw host r rollback_previous_attempt_unchanged r.applied_hash
              r.expected_after_hash (some fresh) recovery_required)
      else if failed_with_ambiguous r.state r.failure_code
      then throw rollback_ambiguous
      else fail_and_throw host r rollback_ambiguous (or_hash r.applied_hash fresh.hash)
          r.expected_before_hash (some fresh) rollback_ambiguous

  -- The restore itself, and a read after it.
  unfoldable pub dispatch_restore :
      ChangeAdapter E → AdapterState → ChangeSetRecord → Exec (World E) Dispatched
  dispatch_restore adapter before r =
      try_catch
        (do
          candidate ← on_outside (adapter.restore r.target before)
          attempt (assert_state_hash candidate)
          restored ← diagnostic_read adapter r.target
          pure (record { after = restored; error = none }))
        (λ e. do
          restored ← diagnostic_read adapter r.target
          pure (record { after = restored; error = some e }))

  -- What is recorded of a restore; the last argument is the state that was read after it, where
  -- that has the hash from before.
  unfoldable pub settle_restored :
      ChangeSetRecord → Dispatched → Option AdapterState → Exec (World E) EngineActionResult
  settle_restored r d (some restored) =
      settle_rollback r restored.hash
        (reconciled_if d.error rollback_error_reconciled r.reconciliation_code) true
  settle_restored r d none =
      if hash_is d.after r.expected_after_hash
      then fail_and_throw host r rollback_failed_unchanged r.applied_hash r.expected_after_hash
          d.after rollback_failed_unchanged
      else fail_and_throw host r rollback_ambiguous r.applied_hash r.expected_before_hash d.after
          rollback_ambiguous

  unfoldable pub settle_restore : ChangeSetRecord → Dispatched → Exec (World E) EngineActionResult
  settle_restore r d =
      if is_head_restore d.error
      then fail_and_throw host r rollback_ambiguous r.applied_hash r.expected_before_hash d.after
          rollback_ambiguous
      else settle_restored r d (found_at d.after r.expected_before_hash)

  -- The claim is made, and the rest follows.
  abbrev pub with_claim :
      String
      → ChangeSetRecord
      → Exec (World E) EngineActionResult
      → Exec (World E) EngineActionResult
  with_claim key r rest = do
    claim ← on_store (claim_action_idempotency host.platform key rollback_action r.change_set_id)
    guard (is_claimed_now claim) recovery_required
    rest

  -- The target shows the planned state: it is restored from the vault.
  unfoldable pub rollback_remote :
      ChangeAdapter E → String → ChangeSetRecord → Exec (World E) EngineActionResult
  rollback_remote adapter key r = do
    material ← Vault.get r.change_set_id
    guard (material.before.hash == r.expected_before_hash) snapshot_mismatch
    with_claim key r (do d ← dispatch_restore adapter material.before r; settle_restore r d)

  unfoldable pub rollback_attempt :
      ChangeAdapter E
      → String
      → ChangeSetRecord
      → AdapterState
      → ActionAttempt
      → Exec (World E) EngineActionResult
  rollback_attempt adapter key r fresh replay = rollback_replay r fresh
  rollback_attempt adapter key r fresh unclaimed = do
    throw_if
        (is_stale r.state (fresh.hash == r.expected_before_hash)
          (fresh.hash == r.expected_after_hash))
        stale_target
    (if fresh.hash == r.expected_after_hash
        then rollback_remote adapter key r
        else with_claim key r (settle_rollback r fresh.hash r.reconciliation_code false))

  unfoldable pub snapshot_matches : SnapshotEnvelope → ChangeSetRecord → Bool
  snapshot_matches s r =
      s.adapter == r.adapter
      && canonical_hash host.platform (target_json s.target)
        == canonical_hash host.platform (target_json r.target)
      && s.state_hash == r.expected_before_hash

  unfoldable pub rollback_open :
      String → ChangeSetRecord → ActionAttempt → Exec (World E) EngineActionResult
  rollback_open key r status = do
    adapter ← attempt (by_id host.adapters r.adapter)
    fresh ← checked_read adapter r.target
    snapshot ← on_store (reads (load_snapshot r.snapshot_id))
    guard (snapshot_matches snapshot r) snapshot_mismatch
    rollback_attempt adapter key r fresh status

  unfoldable pub return_rolled_back :
      ChangeSetRecord → ActionAttempt → Exec (World E) EngineActionResult
  return_rolled_back r replay = pure (result r false false)
  return_rolled_back r unclaimed = throw state_corrupt

  -- The source's test for a state that cannot be rolled back never holds here.
  unfoldable pub rollback_by_state :
      String → ChangeSetRecord → ActionAttempt → ChangeSetState → Exec (World E) EngineActionResult
  rollback_by_state key r status rolled_back = return_rolled_back r status
  rollback_by_state key r status _ = rollback_open key r status

  unfoldable pub rollback_locked : String → Bool → Option String → Exec (World E) EngineActionResult
  rollback_locked id true key = do
    r ← on_store (reads (load_change_set id))
    pure (result r false true)
  rollback_locked id false none = do
    on_store (reads (load_change_set id))
    throw idempotency_key_required
  rollback_locked id false (some key) = do
    r ← on_store (reads (load_change_set id))
    status ←
        on_store (reads (action_attempt_status host.platform key rollback_action r.change_set_id))
    rollback_by_state key r status r.state

  unfoldable pub rollback : String → Bool → Option String → Exec (World E) EngineActionResult
  rollback id dry_run key = with_mutation_lock (rollback_locked id dry_run key)
