-- ===== src/Store/Transition.antt =====
-- Which event may follow which in a ChangeSet's journal (src/core/store.ts).
use tilda_mcp.Prelude.{String, ◌==◌, Option, none, some, Bool, true, false, ltb}
use mathlib.Core.Logic.{ite}
use tilda_mcp.Effect.Codes.{
  journal_immutable_field_changed, invalid_state_transition, stale_changeset,
}
use tilda_mcp.Effect.Check.{require, reject_if, ◌>>◌}
use tilda_mcp.Contracts.Records.{
  ChangeSetRecord, ChangeSetState, planned, applied, verified, rolled_back,
  ImmutableChangeSetFields, ImmutableChangeSetFields-discrete, PublicationJournalRecord,
  ImmutablePublicationFields, ImmutablePublicationFields-discrete,
}
use tilda_mcp.Store.Checks.{Checked}

-- `CHANGESET_TRANSITIONS[from].has(to)`.
unfoldable pub may_follow : ChangeSetState → ChangeSetState → Bool
may_follow planned verified = false
may_follow planned _ = true
may_follow applied planned = false
may_follow applied _ = true
may_follow verified verified = true
may_follow verified rolled_back = true
may_follow verified ChangeSetState.failed = true
may_follow verified _ = false
may_follow ChangeSetState.failed ChangeSetState.failed = true
may_follow ChangeSetState.failed rolled_back = true
may_follow ChangeSetState.failed _ = false
may_follow rolled_back rolled_back = true
may_follow rolled_back _ = false

unfoldable pub immutable_change_set_fields : ChangeSetRecord → ImmutableChangeSetFields
immutable_change_set_fields r = record {
  format = r.format;
  change_set_id = r.change_set_id;
  snapshot_id = r.snapshot_id;
  created_at = r.created_at;
  adapter = r.adapter;
  capability = r.capability;
  target = r.target;
  operation = r.operation;
  request_hash = r.request_hash;
  expected_before_hash = r.expected_before_hash;
  expected_before_revision = r.expected_before_revision;
  expected_after_hash = r.expected_after_hash;
  changed_paths = r.changed_paths;
  summary = r.summary;
  task_authority = r.task_authority;
  plan_idempotency_hash = r.plan_idempotency_hash;
}

unfoldable pub same_change_set : ChangeSetRecord → ChangeSetRecord → Bool
same_change_set a b =
    ite
      (ImmutableChangeSetFields-discrete (immutable_change_set_fields a)
        (immutable_change_set_fields b))
      true false

-- `a !== undefined && b !== a` does not hold.
unfoldable pub keeps_hash : Option String → Option String → Bool
keeps_hash none b = true
keeps_hash (some h) none = false
keeps_hash (some h) (some k) = k == h

unfoldable pub assert_change_set_transition : ChangeSetRecord → ChangeSetRecord → Checked
assert_change_set_transition current next = do
  require (same_change_set current next) journal_immutable_field_changed
  require (may_follow current.state next.state) invalid_state_transition
  reject_if (ltb next.updated_at current.updated_at) stale_changeset
  require (keeps_hash current.applied_hash next.applied_hash) journal_immutable_field_changed

unfoldable pub immutable_publication_fields : PublicationJournalRecord → ImmutablePublicationFields
immutable_publication_fields r = record {
  format = r.format;
  key_hash = r.key_hash;
  intent_hash = r.intent_hash;
  action = r.action;
  target = r.target;
  created_at = r.created_at;
  before_published = r.before_published;
  before_changed_hash = r.before_changed_hash;
}

unfoldable pub same_publication : PublicationJournalRecord → PublicationJournalRecord → Bool
same_publication a b =
    ite
      (ImmutablePublicationFields-discrete (immutable_publication_fields a)
        (immutable_publication_fields b))
      true false
