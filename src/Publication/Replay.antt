-- ===== src/Publication/Replay.antt =====
-- `#reconcileReplay` (src/core/publication.ts): a known key is settled by what the page shows.
use tilda_mcp.Prelude.{String, ◌==◌, Option, none, some, Bool, true, false, ◌&&◌, ◌||◌, not}
use tilda_mcp.Effect.Codes.{
  Code, publication_replay_drift, recovery_required, publication_replay_reconciled,
  publication_previous_attempt_unchanged, publication_ambiguous,
}
use tilda_mcp.Effect.State.{Exec, pure, throw, throw_if, if◌then◌else◌, ◌>>=◌, ◌>>◌}
use tilda_mcp.Contracts.Records.{
  PublicationJournalRecord, PublicationJournalState, claimed, succeeded, noop, ambiguous,
  PublicationAction, publish, unpublish,
}
use tilda_mcp.Store.Attempts.{append_publication_action}
use tilda_mcp.Engine.World.{World, on_store}
use tilda_mcp.Publication.Data.{
  PublicationData, PublicationHost, PublicationActionResult, changed_hash, is_published, is_desired,
  terminal_publication, publication_now,
}
use tilda_mcp.Publication.Reread.{iff}

unfoldable pub was_already_desired : PublicationAction → Bool → Bool
was_already_desired publish before_published = before_published
was_already_desired unpublish before_published = not before_published

-- The terminal state of a claim which another process left.
abbrev pub noop_or_succeeded : Bool → PublicationJournalState
noop_or_succeeded true = noop
noop_or_succeeded false = succeeded

-- The result where nothing was dispatched.
unfoldable pub unchanged_result :
    PublicationJournalRecord → PublicationData → PublicationActionResult
unchanged_result r current = record {
  action = r.action;
  target = r.target;
  before = current;
  after = current;
  state_changed = false;
  dry_run = false;
}

module _ {E : Type 0} (host : PublicationHost E) where
  -- `appendPublicationAction(key, terminalPublication(…))`.
  unfoldable pub append_terminal :
      String
      → PublicationJournalRecord
      → PublicationJournalState
      → Option Code
      → Option Code
      → Exec (World E) PublicationJournalRecord
  append_terminal key r state failure reconciliation = do
    t ← publication_now host
    on_store (
        append_publication_action host.platform key
          (terminal_publication r t state failure reconciliation))

  -- After a success the page is still as it was left, or the replay is refused.
  unfoldable pub replay_terminal :
      PublicationJournalRecord → PublicationData → Exec (World E) PublicationActionResult
  replay_terminal r current = do
    throw_if
        (not (is_desired r.action current)
          || not (changed_hash host.platform current.changed == r.before_changed_hash))
        publication_replay_drift
    pure (unchanged_result r current)

  unfoldable pub replay_claimed :
      String → PublicationJournalRecord → PublicationData → Exec (World E) PublicationActionResult
  replay_claimed key r current =
      if is_desired r.action current
        && changed_hash host.platform current.changed == r.before_changed_hash
      then (do
        append_terminal key r (noop_or_succeeded (was_already_desired r.action r.before_published))
            none (some publication_replay_reconciled)
        pure (unchanged_result r current))
      else if iff (is_published current) r.before_published
          && changed_hash host.platform current.changed == r.before_changed_hash
      then (do
        append_terminal key r PublicationJournalState.failed
            (some publication_previous_attempt_unchanged) none
        throw recovery_required)
      else (do
        append_terminal key r ambiguous (some publication_ambiguous) none
        throw publication_ambiguous)

  unfoldable pub reconcile_replay :
      String
      → PublicationJournalRecord
      → PublicationJournalState
      → PublicationData
      → Exec (World E) PublicationActionResult
  reconcile_replay key r succeeded current = replay_terminal r current
  reconcile_replay key r noop current = replay_terminal r current
  reconcile_replay key r PublicationJournalState.failed current = throw recovery_required
  reconcile_replay key r ambiguous current = throw recovery_required
  reconcile_replay key r claimed current = replay_claimed key r current
