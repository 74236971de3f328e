-- ===== src/Engine/Plan.antt =====
-- `plan` and `query` (src/core/engine.ts).
use tilda_mcp.Prelude.{
  String, ◌==◌, Option, none, some, Bool, true, false, ◌&&◌, not, eqb, length, any,
}
use tilda_mcp.Effect.Codes.{Failure, idempotency_conflict, invalid_adapter_plan, no_changes}
use tilda_mcp.Effect.State.{Exec, pure, threw, attempt, guard, throw_if, try_catch, ◌>>=◌, ◌>>◌}
use tilda_mcp.Contracts.Requests.{ChangeRequest, target, operation}
use tilda_mcp.Contracts.Hash.{request_hash}
use tilda_mcp.Contracts.Adapters.{AdapterState, PlannedMutation, ChangeAdapter, Host}
use tilda_mcp.Contracts.Records.{
  ChangeSetRecord, planned, SnapshotEnvelope, ChangeSetTaskAuthority, Timestamp,
}
use tilda_mcp.Store.Checks.{distinct}
use tilda_mcp.Store.Journal.{
  create_snapshot, discard_unreferenced_snapshot, create_change_set, find_by_idempotency_key,
}
use tilda_mcp.Engine.World.{World, VolatileChangeMaterial, on_store, with_mutation_lock}
use tilda_mcp.Engine.Registry.{for_request}
use tilda_mcp.Engine.Vault
use tilda_mcp.Engine.Calls.{EngineActionResult, assert_state_hash, checked_read, now, random_uuid}
use tilda_mcp.Engine.Outcomes.{result}

-- `left?.taskId === right?.taskId && left?.grantHash === right?.grantHash`.
unfoldable pub same_task_authority :
    Option ChangeSetTaskAuthority → Option ChangeSetTaskAuthority → Bool
same_task_authority none none = true
same_task_authority (some a) (some b) = a.task_id == b.task_id && a.grant_hash == b.grant_hash
same_task_authority _ _ = false

abbrev pub raise : {W A : Type 0} → Failure → Exec W A
raise e w = threw e w

module _ {E : Type 0} (host : Host E) where
  unfoldable pub query : ChangeRequest → Exec (World E) AdapterState
  query request = do
    adapter ← attempt (for_request host.adapters request)
    checked_read adapter (target request)

  -- The plan is exactly bound to the baseline, the capability and the request.
  unfoldable pub plan_is_bound :
      ChangeAdapter E → AdapterState → ChangeRequest → PlannedMutation → Bool
  plan_is_bound adapter before request p =
      p.adapter == adapter.id
      && any (λ c. c == p.capability) adapter.capabilities
      && p.expected_before_hash == before.hash
      && p.expected_after_hash == p.intended_state.hash
      && request_hash host.platform p.request == request_hash host.platform request
      && not (eqb (length p.changed_paths) 0)
      && distinct p.changed_paths

  abbrev snapshot_of :
      String → Timestamp → ChangeAdapter E → ChangeRequest → AdapterState → SnapshotEnvelope
  snapshot_of id t adapter request before = record {
    format = "tilda-mcp-snapshot-v1";
    snapshot_id = id;
    created_at = t;
    adapter = adapter.id;
    target = target request;
    state_hash = before.hash;
    revision = before.revision;
    summary = before.summary;
  }

  unfoldable pub planned_record :
      String
      → String
      → Timestamp
      → ChangeAdapter E
      → ChangeRequest
      → PlannedMutation
      → Option ChangeSetTaskAuthority
      → ChangeSetRecord
  planned_record id snapshot_id t adapter request p authority = record {
    format = "tilda-mcp-changeset-v1";
    change_set_id = id;
    snapshot_id = snapshot_id;
    state = planned;
    created_at = t;
    updated_at = t;
    adapter = adapter.id;
    capability = p.capability;
    target = target request;
    operation = operation request;
    request_hash = request_hash host.platform request;
    expected_before_hash = p.expected_before_hash;
    expected_before_revision = p.expected_before_revision;
    expected_after_hash = p.expected_after_hash;
    changed_paths = p.changed_paths;
    summary = p.summary;
    task_authority = authority;
    plan_idempotency_hash = none;
    applied_hash = none;
    verification = none;
    failure_code = none;
    reconciliation_code = none;
  }

  -- The material and the snapshot; on an error the vault forgets the material.
  unfoldable pub keep_material :
      String → VolatileChangeMaterial → ChangeAdapter E → Exec (World E) SnapshotEnvelope
  keep_material id m adapter =
      try_catch
        (do
          Vault.put id m
          snapshot_id ← random_uuid host
          t ← now host
          on_store (create_snapshot (snapshot_of snapshot_id t adapter m.request m.before)))
        (λ e. do Vault.delete id; raise e)

  -- The journal; on an error the material and the snapshot, if nothing refers to it, are gone.
  unfoldable pub keep_journal : ChangeSetRecord → Option String → Exec (World E) ChangeSetRecord
  keep_journal r key = try_catch (on_store (create_change_set host.platform r key)) (λ e. do
    Vault.delete r.change_set_id
    try_catch (on_store (discard_unreferenced_snapshot r.snapshot_id)) (λ _. pure tt)
    raise e)

  unfoldable pub plan_new :
      ChangeRequest
      → Option String
      → Option ChangeSetTaskAuthority
      → Exec (World E) EngineActionResult
  plan_new request key authority = do
    adapter ← attempt (for_request host.adapters request)
    before ← checked_read adapter (target request)
    p ← attempt (adapter.plan before request)
    attempt (assert_state_hash p.intended_state)
    guard (plan_is_bound adapter before request p) invalid_adapter_plan
    throw_if (p.expected_before_hash == p.expected_after_hash) no_changes
    id ← random_uuid host
    t ← now host
    snapshot ← keep_material id (record { request = request; before = before; plan = p }) adapter
    r ← keep_journal (planned_record id snapshot.snapshot_id t adapter request p authority) key
    pure (result r false true)

  -- A key that has a ChangeSet gets it again, if it asks for the same.
  unfoldable pub plan_known :
      ChangeRequest
      → Option String
      → Option ChangeSetTaskAuthority
      → Option ChangeSetRecord
      → Exec (World E) EngineActionResult
  plan_known request key authority none = plan_new request key authority
  plan_known request key authority (some r) = do
    guard
        (r.request_hash == request_hash host.platform request
          && same_task_authority r.task_authority authority)
        idempotency_conflict
    pure (result r false true)

  unfoldable pub plan_locked :
      ChangeRequest
      → Option String
      → Option ChangeSetTaskAuthority
      → Exec (World E) EngineActionResult
  plan_locked request none authority = plan_new request none authority
  plan_locked request (some key) authority = do
    existing ← on_store (find_by_idempotency_key host.platform key)
    plan_known request (some key) authority existing

  unfoldable pub plan :
      ChangeRequest
      → Option String
      → Option ChangeSetTaskAuthority
      → Exec (World E) EngineActionResult
  plan request key authority = with_mutation_lock (plan_locked request key authority)
