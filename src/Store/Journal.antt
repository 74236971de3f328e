-- ===== src/Store/Journal.antt =====
-- The operations on snapshots and on the journals of ChangeSets (src/core/store.ts). A file that
-- is there is never replaced; a call of the file system that the program may make succeeds.
use tilda_mcp.Prelude.{
  ◌+◌, String, ◌==◌, Option, none, some, List, [], ◌∷◌, ◌++◌, Bool, ltb, length, any,
}
use tilda_mcp.Dict.{lookup, insert, erase, keys}
use tilda_mcp.Effect.Codes.{
  state_privacy_violation, idempotency_conflict, changeset_exists, snapshot_referenced,
  state_journal_full,
}
use tilda_mcp.Effect.Check.{Result, no_clobber}
use tilda_mcp.Effect.State.{Exec, pure, attempt, gets, modify, throw_if, ◌>>=◌, ◌>>◌}
use tilda_mcp.Contracts.Records.{ChangeSetRecord, SnapshotEnvelope}
use tilda_mcp.Contracts.Hash.{Platform}
use tilda_mcp.Store.{Store, plan_mapping}
use tilda_mcp.Store.Checks.{assert_uuid, assert_change_set, assert_snapshot, is_some}
use tilda_mcp.Store.Transition.{assert_change_set_transition}
use tilda_mcp.Store.Read.{
  last, load_change_set_history, load_all, find_plan_by_digest, idempotency_digest,
}

-- A method that only reads the store.
unfoldable pub reads : {A : Type 0} → (Store → Result A) → Exec Store A
unfolding attempt
reads f s = attempt (f s) s

-- `snapshot` has the fields that the caller gives, a fresh identifier and the current time.
unfoldable pub create_snapshot : SnapshotEnvelope → Exec Store SnapshotEnvelope
create_snapshot snapshot = do
  attempt (assert_snapshot snapshot)
  reads (λ s. no_clobber (lookup snapshot.snapshot_id s.snapshots))
  modify (λ s. record s { snapshots = insert snapshot.snapshot_id snapshot s.snapshots })
  pure snapshot

abbrev refers : String → List ChangeSetRecord → Bool
refers id = any (λ r. r.snapshot_id == id)

unfoldable pub discard_unreferenced_snapshot : String → Exec Store (Unit {0})
discard_unreferenced_snapshot id = do
  attempt (assert_uuid id)
  rs ← reads (λ s. load_all (keys s.change_sets) s)
  throw_if (refers id rs) snapshot_referenced
  modify (λ s. record s { snapshots = erase id s.snapshots })

-- The journal is a new folder with one event, and the key of the plan is bound to it. Where the
-- key is taken, the folder is removed again.
unfoldable pub create_change_set :
    Platform → ChangeSetRecord → Option String → Exec Store ChangeSetRecord
create_change_set platform r none = do
  attempt (assert_uuid r.change_set_id)
  throw_if (is_some r.plan_idempotency_hash) state_privacy_violation
  attempt (assert_change_set r)
  there ← gets (λ s. is_some (lookup r.change_set_id s.change_sets))
  throw_if there changeset_exists
  modify (λ s. record s { change_sets = insert r.change_set_id (r ∷ []) s.change_sets })
  pure r
create_change_set platform r (some key) = do
  attempt (assert_uuid r.change_set_id)
  throw_if (is_some r.plan_idempotency_hash) state_privacy_violation
  digest ← attempt (idempotency_digest platform key)
  bound ← reads (find_plan_by_digest digest)
  throw_if (is_some bound) idempotency_conflict
  let persisted = record r { plan_idempotency_hash = some digest }
  attempt (assert_change_set persisted)
  there ← gets (λ s. is_some (lookup r.change_set_id s.change_sets))
  throw_if there changeset_exists
  taken ← gets (λ s. is_some (lookup digest s.idempotency))
  throw_if taken idempotency_conflict
  modify (λ s. record s {
    change_sets = insert r.change_set_id (persisted ∷ []) s.change_sets;
    idempotency = insert digest (plan_mapping r.change_set_id) s.idempotency;
  })
  pure persisted

unfoldable pub append_change_set : ChangeSetRecord → Exec Store ChangeSetRecord
append_change_set r = do
  attempt (assert_change_set r)
  history ← reads (load_change_set_history r.change_set_id)
  current ← attempt (last history)
  attempt (assert_change_set_transition current r)
  throw_if (ltb 999999 (length history + 1)) state_journal_full
  modify (λ s. record s { change_sets = insert r.change_set_id (history ++ r ∷ []) s.change_sets })
  pure r

unfoldable pub find_by_idempotency_key : Platform → String → Exec Store (Option ChangeSetRecord)
find_by_idempotency_key platform key = do
  digest ← attempt (idempotency_digest platform key)
  reads (find_plan_by_digest digest)
