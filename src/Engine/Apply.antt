-- ===== src/Engine/Apply.antt =====
-- `apply` (src/core/engine.ts).
use tilda_mcp.Prelude.{String, ◌==◌, Option, none, some, Bool, true, false, ◌&&◌, not}
use tilda_mcp.Effect.Codes.{
  state_corrupt, idempotency_key_required, changeset_not_applicable, plan_material_mismatch,
  recovery_required, stale_target, stale_revision, apply_ambiguous, apply_failed_unchanged,
  apply_previous_attempt_unchanged, apply_replay_reconciled, apply_error_reconciled,
  apply_verification_failed, apply_verification_failed_recovered,
  apply_verification_failed_recovery_unproven,
}
use tilda_mcp.Effect.State.{
  Exec, pure, throw, attempt, guard, try_catch, if◌then◌else◌, ◌>>=◌, ◌>>◌,
}
use tilda_mcp.Contracts.Hash.{request_hash}
use tilda_mcp.Contracts.Adapters.{AdapterState, ChangeAdapter, Host}
use tilda_mcp.Contracts.Records.{ChangeSetRecord, ChangeSetState, planned, applied, verified}
use tilda_mcp.Store.{apply as apply_action}
use tilda_mcp.Store.Read.{load_change_set}
use tilda_mcp.Store.Journal.{reads}
use tilda_mcp.Store.Claims.{ActionAttempt, unclaimed, replay, action_attempt_status}
use tilda_mcp.Store.Attempts.{claim_action_idempotency}
use tilda_mcp.Engine.World.{World, VolatileChangeMaterial, on_store, on_outside, with_mutation_lock}
use tilda_mcp.Engine.Registry.{by_id}
use tilda_mcp.Engine.Vault
use tilda_mcp.Engine.Calls.{
  EngineActionResult, assert_state_hash, checked_read, diagnostic_read, append, hash_is, found_at,
  applied_if_read, now, checked_now, settle_with,
}
use tilda_mcp.Engine.Outcomes.{
  result, same_option, revision_is, is_claimed_now, Dispatched, is_head_write, did_throw,
  reconciled_if, fail_and_throw, fail_and_forget,
}

module _ {E : Type 0} (host : Host E) where
  -- A prior attempt was claimed: what the target shows decides, and nothing is written to it.
  unfoldable pub apply_replay : ChangeSetRecord → AdapterState → Exec (World E) EngineActionResult
  apply_replay r fresh =
      if fresh.hash == r.expected_after_hash
      then (do
        t ← now host
        v ← checked_now host r.expected_after_hash fresh.hash
        let done = settle_with r t applied (some (fresh.hash)) (some apply_replay_reconciled) v
        append done
        pure (result done false false))
      else if fresh.hash == r.expected_before_hash
      then fail_and_forget host r apply_previous_attempt_unchanged r.applied_hash
          r.expected_before_hash (some fresh) recovery_required
      else fail_and_throw host r apply_ambiguous (some (fresh.hash)) r.expected_after_hash
          (some fresh) apply_ambiguous

  -- One restore, judged by a read after it.
  unfoldable pub recover_with :
      ChangeAdapter E → ChangeSetRecord → AdapterState → Exec (World E) (Option AdapterState)
  recover_with adapter r before =
      try_catch
        (do
          candidate ← on_outside (adapter.restore r.target before)
          attempt (assert_state_hash candidate)
          diagnostic_read adapter r.target)
        (λ e. diagnostic_read adapter r.target)

  -- A recovery is recorded, and the apply has failed.
  unfoldable pub settle_recovery :
      ChangeSetRecord
      → Option AdapterState
      → Option AdapterState
      → Exec (World E) EngineActionResult
  settle_recovery r after recovered =
      if hash_is recovered r.expected_before_hash
      then fail_and_forget host r apply_verification_failed_recovered
          (applied_if_read after r.applied_hash) r.expected_before_hash recovered
          apply_verification_failed
      else fail_and_throw host r apply_verification_failed_recovery_unproven
          (applied_if_read after r.applied_hash) r.expected_before_hash recovered
          apply_verification_failed

  unfoldable pub apply_recover :
      ChangeAdapter E
      → AdapterState
      → ChangeSetRecord
      → Option AdapterState
      → Exec (World E) EngineActionResult
  apply_recover adapter before r after = do
    recovered ← recover_with adapter r before
    settle_recovery r after recovered

  -- The write itself: its result, or one read after its error.
  unfoldable pub dispatch_apply :
      ChangeAdapter E → VolatileChangeMaterial → ChangeSetRecord → Exec (World E) Dispatched
  dispatch_apply adapter material r =
      try_catch
        (do
          after ← on_outside (adapter.apply material.plan)
          attempt (assert_state_hash after)
          pure (record { after = some after; error = none }))
        (λ e. do
          after ← diagnostic_read adapter r.target
          pure (record { after = after; error = some e }))

  -- What is recorded of a dispatch; the last argument is the state that it left, where that has the
  -- planned hash.
  unfoldable pub settle_found :
      ChangeAdapter E
      → AdapterState
      → ChangeSetRecord
      → Dispatched
      → Option AdapterState
      → Exec (World E) EngineActionResult
  settle_found adapter before r d (some after) = do
    t ← now host
    v ← checked_now host r.expected_after_hash after.hash
    let done =
        settle_with r t applied (some (after.hash))
          (reconciled_if d.error apply_error_reconciled r.reconciliation_code) v
    append done
    pure (result done true false)
  settle_found adapter before r d none =
      if not (did_throw d.error)
      then apply_recover adapter before r d.after
      else if hash_is d.after r.expected_before_hash
      then fail_and_forget host r apply_failed_unchanged r.applied_hash r.expected_before_hash
          d.after apply_failed_unchanged
      else fail_and_throw host r apply_ambiguous (applied_if_read d.after r.applied_hash)
          r.expected_after_hash d.after apply_ambiguous

  unfoldable pub settle_apply :
      ChangeAdapter E
      → AdapterState
      → ChangeSetRecord
      → Dispatched
      → Exec (World E) EngineActionResult
  settle_apply adapter before r d =
      if is_head_write d.error
      then fail_and_throw host r apply_ambiguous (applied_if_read d.after r.applied_hash)
          r.expected_after_hash d.after apply_ambiguous
      else settle_found adapter before r d (found_at d.after r.expected_after_hash)

  -- No prior attempt: the target is as it was planned, the claim is made, and the write follows.
  unfoldable pub apply_attempt :
      ChangeAdapter E
      → VolatileChangeMaterial
      → String
      → ChangeSetRecord
      → AdapterState
      → ActionAttempt
      → Exec (World E) EngineActionResult
  apply_attempt adapter material key r fresh replay = apply_replay r fresh
  apply_attempt adapter material key r fresh unclaimed = do
    guard (fresh.hash == r.expected_before_hash) stale_target
    guard (revision_is r.expected_before_revision fresh.revision) stale_revision
    claim ← on_store (claim_action_idempotency host.platform key apply_action r.change_set_id)
    guard (is_claimed_now claim) recovery_required
    d ← dispatch_apply adapter material r
    settle_apply adapter material.before r d

  -- The volatile plan is the one that the journal records.
  unfoldable pub material_matches : VolatileChangeMaterial → ChangeSetRecord → Bool
  material_matches m r =
      m.plan.expected_before_hash == r.expected_before_hash
      && same_option m.plan.expected_before_revision r.expected_before_revision
      && request_hash host.platform m.request == r.request_hash

  unfoldable pub apply_planned :
      String → ChangeSetRecord → ActionAttempt → Exec (World E) EngineActionResult
  apply_planned key r status = do
    adapter ← attempt (by_id host.adapters r.adapter)
    material ← Vault.get r.change_set_id
    guard (material_matches material r) plan_material_mismatch
    fresh ← checked_read adapter r.target
    apply_attempt adapter material key r fresh status

  -- A settled ChangeSet is returned as it is, to the key that settled it.
  unfoldable pub return_settled :
      ChangeSetRecord → ActionAttempt → Exec (World E) EngineActionResult
  return_settled r replay = pure (result r false false)
  return_settled r unclaimed = throw state_corrupt

  unfoldable pub apply_by_state :
      String → ChangeSetRecord → ActionAttempt → ChangeSetState → Exec (World E) EngineActionResult
  apply_by_state key r status applied = return_settled r status
  apply_by_state key r status verified = return_settled r status
  apply_by_state key r status planned = apply_planned key r status
  apply_by_state key r status _ = throw changeset_not_applicable

  unfoldable pub apply_locked : String → Bool → Option String → Exec (World E) EngineActionResult
  apply_locked id true key = do
    r ← on_store (reads (load_change_set id))
    pure (result r false true)
  apply_locked id false none = do
    on_store (reads (load_change_set id))
    throw idempotency_key_required
  apply_locked id false (some key) = do
    r ← on_store (reads (load_change_set id))
    status ← on_store (reads (action_attempt_status host.platform key apply_action r.change_set_id))
    apply_by_state key r status r.state

  unfoldable pub apply : String → Bool → Option String → Exec (World E) EngineActionResult
  apply id dry_run key = with_mutation_lock (apply_locked id dry_run key)
