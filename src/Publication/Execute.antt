-- ===== src/Publication/Execute.antt =====
-- `execute` (src/core/publication.ts): one dispatch for each key, settled by rereads.
use tilda_mcp.Prelude.{ℕ, String, ◌==◌, Option, none, some, List, Bool, true, false, ◌&&◌}
use tilda_mcp.Effect.Codes.{
  Code, idempotency_key_required, publication_error_reconciled, publication_ack_reconciled,
  publication_failed_unchanged, publication_ambiguous,
}
use tilda_mcp.Effect.State.{Exec, pure, throw, try_catch, if◌then◌else◌, ◌>>=◌, ◌>>◌}
use tilda_mcp.Contracts.Targets.{PageTarget}
use tilda_mcp.Contracts.Records.{
  PublicationJournalRecord, PublicationJournalState, succeeded, noop, ambiguous, PublicationAction,
  publish, unpublish,
}
use tilda_mcp.Store.Claims.{Claim, claimed_now, replayed}
use tilda_mcp.Store.Attempts.{PublicationIntent, claim_publication_action}
use tilda_mcp.Engine.World.{World, on_store, on_outside, with_mutation_lock}
use tilda_mcp.Publication.Data.{
  PublicationData, DispatchReceipt, Acknowledgement, acknowledged, PublicationHost,
  PublicationActionResult, publication_intent_hash, changed_hash, is_published, is_desired,
  publication_now, with_session, read_page,
}
use tilda_mcp.Publication.Reread.{Verdict, desired, iff, read_after_dispatch}
use tilda_mcp.Publication.Replay.{append_terminal, reconcile_replay}

-- What became of the one dispatch.
pub data Dispatch : Type 0 where
  confirmed unconfirmed failed : Dispatch

abbrev is_acknowledged : Acknowledgement → Bool
is_acknowledged acknowledged = true
is_acknowledged _ = false

-- `acknowledgementMissing`.
abbrev pub dispatch_of : Bool → Dispatch
dispatch_of true = confirmed
dispatch_of false = unconfirmed

unfoldable pub receipt_dispatch : DispatchReceipt → Dispatch
receipt_dispatch r = dispatch_of (r.request_dispatched && is_acknowledged r.acknowledgement)

abbrev pub reconciliation_of : Dispatch → Option Code
reconciliation_of confirmed = none
reconciliation_of unconfirmed = some publication_ack_reconciled
reconciliation_of failed = some publication_error_reconciled

abbrev pub is_desired_verdict : Verdict → Bool
is_desired_verdict desired = true
is_desired_verdict _ = false

abbrev pub result_of :
    PublicationAction
    → PageTarget
    → PublicationData
    → PublicationData
    → Bool
    → Bool
    → PublicationActionResult
result_of action target before after state_changed dry_run = record {
  action = action;
  target = target;
  before = before;
  after = after;
  state_changed = state_changed;
  dry_run = dry_run;
}

module _ {E : Type 0} (host : PublicationHost E) where
  unfoldable pub send : PublicationAction → PageTarget → Exec (World E) DispatchReceipt
  send publish target = on_outside (host.publish_page target)
  send unpublish target = on_outside (host.unpublish_page target)

  -- The one call that writes; its error is kept.
  unfoldable pub dispatch : PublicationAction → PageTarget → Exec (World E) Dispatch
  dispatch action target =
      try_catch (do receipt ← send action target; pure (receipt_dispatch receipt))
        (λ e. pure failed)

  -- What is recorded of a dispatch by what was read after it.
  unfoldable pub settle_publication :
      PublicationAction
      → PageTarget
      → String
      → PublicationJournalRecord
      → PublicationData
      → Dispatch
      → Verdict
      → Option PublicationData
      → Exec (World E) PublicationActionResult
  settle_publication action target key r before d state none = do
    append_terminal host key r ambiguous (some publication_ambiguous) none
    throw publication_ambiguous
  settle_publication action target key r before d state (some after) =
      if is_desired_verdict state
      then (do
        append_terminal host key r succeeded none (reconciliation_of d)
        pure (result_of action target before after true false))
      else if iff (is_published after) r.before_published
          && changed_hash host.platform after.changed == r.before_changed_hash
      then (do
        append_terminal host key r PublicationJournalState.failed
            (some publication_failed_unchanged) none
        throw publication_failed_unchanged)
      else (do
        append_terminal host key r ambiguous (some publication_ambiguous) none
        throw publication_ambiguous)

  -- A key that is new.
  unfoldable pub publish_first :
      List ℕ
      → PublicationAction
      → PageTarget
      → String
      → PublicationJournalRecord
      → PublicationData
      → Exec (World E) PublicationActionResult
  publish_first delays action target key r before =
      if is_desired action before
      then (do
        append_terminal host key r noop none none
        pure (result_of action target before before false false))
      else (do
        d ← dispatch action target
        seen ←
            read_after_dispatch host target action r.before_published r.before_changed_hash delays
        settle_publication action target key r before d seen.state seen.value)

  unfoldable pub publish_claimed :
      List ℕ
      → PublicationAction
      → PageTarget
      → String
      → PublicationData
      → Claim × PublicationJournalRecord
      → Exec (World E) PublicationActionResult
  publish_claimed delays action target key before (replayed, r) =
      reconcile_replay host key r r.state before
  publish_claimed delays action target key before (claimed_now, r) =
      publish_first delays action target key r before

  unfoldable pub intent_of : PublicationAction → PageTarget → PublicationData → PublicationIntent
  intent_of action target before = record {
    intent_hash = publication_intent_hash host.platform action target;
    action = action;
    target = target;
    before_published = is_published before;
    before_changed_hash = changed_hash host.platform before.changed;
  }

  -- In the session, under the lock.
  unfoldable pub execute_locked :
      List ℕ → PublicationAction → PageTarget → String → Exec (World E) PublicationActionResult
  execute_locked delays action target key = do
    before ← read_page host target
    t ← publication_now host
    claim ← on_store (claim_publication_action host.platform key t (intent_of action target before))
    publish_claimed delays action target key before claim

  -- The options of a caller: a dry run unless it is refused, and a key.
  unfoldable pub execute :
      List ℕ
      → PublicationAction
      → PageTarget
      → Bool
      → Option String
      → Exec (World E) PublicationActionResult
  execute delays action target true key =
      with_session host
        (do before ← read_page host target; pure (result_of action target before before false true))
  execute delays action target false none = throw idempotency_key_required
  execute delays action target false (some key) =
      with_mutation_lock (with_session host (execute_locked delays action target key))
