-- ===== src/Store/Attempts.antt =====
-- Claiming an action or a publication, and the end of a publication's journal
-- (src/core/store.ts).
use tilda_mcp.Prelude.{
  String, ◌==◌, Option, none, some, List, [], ◌∷◌, ◌++◌, Bool, true, false, ◌&&◌, ltb,
}
use mathlib.Core.Logic.{ite}
use tilda_mcp.Dict.{lookup, insert}
use tilda_mcp.Effect.Codes.{
  tilda, idempotency_conflict, journal_immutable_field_changed, invalid_state_transition,
  stale_changeset,
}
use tilda_mcp.Effect.Check.{Result, ok, err, require, no_clobber}
use tilda_mcp.Effect.State.{Exec, pure, attempt, gets, modify, guard, throw_if, ◌>>=◌, ◌>>◌}
use tilda_mcp.Contracts.Targets.{PageTarget, PageTarget-discrete}
use tilda_mcp.Contracts.Records.{
  PublicationJournalRecord, claimed, Timestamp, PublicationAction, PublicationAction-discrete,
}
use tilda_mcp.Contracts.Hash.{Platform}
use tilda_mcp.Store.{Store, Action, IdempotencyMapping, action_mapping, publication_mapping}
use tilda_mcp.Store.Checks.{assert_uuid, assert_publication}
use tilda_mcp.Store.Transition.{same_publication}
use tilda_mcp.Store.Read.{
  last, load_change_set, load_publication_history, idempotency_digest, is_claimed,
}
use tilda_mcp.Store.Journal.{reads}
use tilda_mcp.Store.Claims.{
  ActionAttempt, unclaimed, replay, Claim, claimed_now, replayed, action_attempt_status, claims,
  assert_mapping, bind_key, add_claim,
}

-- The mapping of the key is written, or checked once more; then the claim file is.
unfoldable pub write_claim : Action → String → String → ActionAttempt → Exec Store Claim
unfolding assert_mapping bind_key add_claim claims
write_claim action id digest replay = pure replayed
write_claim action id digest unclaimed = do
  old ← gets (λ s. lookup digest s.idempotency)
  attempt (assert_mapping action id old)
  modify (bind_key digest (action_mapping action id) old)
  reads (λ s. no_clobber (lookup id (claims action s)))
  modify (add_claim action id (record { action = action; change_set_id = id; key_hash = digest }))
  pure claimed_now

unfoldable pub claim_action_idempotency : Platform → String → Action → String → Exec Store Claim
unfolding write_claim
claim_action_idempotency platform key action id = do
  attempt (assert_uuid id)
  reads (load_change_set id)
  digest ← attempt (idempotency_digest platform key)
  status ← reads (action_attempt_status platform key action id)
  write_claim action id digest status

-- What a caller gives of a new publication.
pub record PublicationIntent : Type 0 where
  pub intent_hash : String
  pub action : PublicationAction
  pub target : PageTarget
  pub before_published : Bool
  pub before_changed_hash : String

-- `null` where there is no folder.
unfoldable pub load_publication :
    String
    → Option (List PublicationJournalRecord)
    → Store
    → Result (Option PublicationJournalRecord)
load_publication digest none s = ok none
load_publication digest (some h) s = elim (load_publication_history digest s) [
  | err e ↦ err e
  | ok history ↦ elim (last history) [ err e ↦ err e | ok r ↦ ok (some r) ]
]

unfoldable pub load_publication_by_digest :
    String → Store → Result (Option PublicationJournalRecord)
unfolding load_publication
load_publication_by_digest digest s = load_publication digest (lookup digest s.publications) s

unfoldable pub assert_publication_mapping : String → Option IdempotencyMapping → Result (Unit {0})
assert_publication_mapping digest none = ok tt
assert_publication_mapping digest (some (publication_mapping k)) =
    require (k == digest) idempotency_conflict
assert_publication_mapping digest (some m) = err (tilda idempotency_conflict)

abbrev pub same_intent : PublicationJournalRecord → PublicationIntent → Bool
same_intent r i =
    r.intent_hash == i.intent_hash
    && ite (PublicationAction-discrete r.action i.action) true false
    && ite (PageTarget-discrete r.target i.target) true false

unfoldable pub claimed_record : String → Timestamp → PublicationIntent → PublicationJournalRecord
claimed_record digest now i = record {
  format = "tilda-mcp-publication-v1";
  key_hash = digest;
  intent_hash = i.intent_hash;
  action = i.action;
  target = i.target;
  state = claimed;
  created_at = now;
  updated_at = now;
  before_published = i.before_published;
  before_changed_hash = i.before_changed_hash;
  failure_code = none;
  reconciliation_code = none;
}

-- A known key replays its own intent; a new key is bound and gets a journal of one event.
unfoldable pub open_publication :
    String
    → Timestamp
    → PublicationIntent
    → Option PublicationJournalRecord
    → Exec Store (Claim × PublicationJournalRecord)
unfolding assert_publication_mapping bind_key claimed_record
open_publication digest now i (some r) = do
  guard (same_intent r i) idempotency_conflict
  pure (replayed, r)
open_publication digest now i none = do
  old ← gets (λ s. lookup digest s.idempotency)
  attempt (assert_publication_mapping digest old)
  modify (bind_key digest (publication_mapping digest) old)
  attempt (assert_publication (claimed_record digest now i))
  modify (λ s. record s {
    publications = insert digest (claimed_record digest now i ∷ []) s.publications;
  })
  pure (claimed_now, claimed_record digest now i)

unfoldable pub claim_publication_action :
    Platform
    → String
    → Timestamp
    → PublicationIntent
    → Exec Store (Claim × PublicationJournalRecord)
unfolding open_publication
claim_publication_action platform key now i = do
  digest ← attempt (idempotency_digest platform key)
  existing ← reads (load_publication_by_digest digest)
  open_publication digest now i existing

unfoldable pub append_publication_action :
    Platform → String → PublicationJournalRecord → Exec Store PublicationJournalRecord
append_publication_action platform key r = do
  digest ← attempt (idempotency_digest platform key)
  guard (r.key_hash == digest) idempotency_conflict
  attempt (assert_publication r)
  history ← reads (load_publication_history digest)
  current ← attempt (last history)
  guard (same_publication current r) journal_immutable_field_changed
  guard (is_claimed current.state) invalid_state_transition
  throw_if (is_claimed r.state) invalid_state_transition
  throw_if (ltb r.updated_at current.updated_at) stale_changeset
  modify (λ s. record s { publications = insert digest (history ++ r ∷ []) s.publications })
  pure r
