-- ===== src/Authority/Guard.antt =====
-- `TaskAuthorityGuard` (src/core/task-authority.ts). The clock and the flag of revocation, which
-- the guard asks at each call, are an argument of each method.
use tilda_mcp.Prelude.{
  String, ◌==◌, Option, none, some, ◌++◌, Bool, false, not, ◌&&◌, ◌||◌, leb, ltb, any,
}
use tilda_mcp.Effect.Codes.{
  task_authority_revoked, task_authority_expired, task_read_denied, task_write_denied,
  task_operation_denied, task_rollback_denied, task_publication_denied, task_copy_test_denied,
  task_changeset_authority_mismatch,
}
use tilda_mcp.Effect.Check.{Result, ok, require, reject_if, ◌>>◌}
use tilda_mcp.Contracts.Targets.{ExactTarget, PageTarget, of_page}
use tilda_mcp.Contracts.Requests.{ChangeRequest, ChangeOperation, operation, target}
use tilda_mcp.Contracts.Records.{Timestamp, PublicationAction, ChangeSetTaskAuthority}
use tilda_mcp.Store.Checks.{Checked}
use tilda_mcp.Contracts.Hash.{Platform}
use tilda_mcp.Authority.Hash.{hash_grant}
use tilda_mcp.Authority.Scope.{assert_target}
use tilda_mcp.Authority.Grant.{
  TaskAuthorityMode, TaskAuthorityGrant, TaskPublicationGrant, TaskAccountBinding, assert_grant,
  is_observe, is_copy_test, is_operation, is_action, in_scope, pages,
}

pub record TaskAuthorityReceipt : Type 0 where
  pub format : String
  pub task_id : String
  pub mode : TaskAuthorityMode
  pub grant_hash : String
  pub instruction_hash : String
  pub account_fingerprint : String
  pub inventory_hash : String
  pub expires_at : Timestamp

pub record Guard : Type 0 where
  pub grant : TaskAuthorityGrant
  pub receipt : TaskAuthorityReceipt

-- What the callbacks say when a method is called.
pub record Moment : Type 0 where
  pub is_revoked : Bool
  pub now : Timestamp

-- The constructor.
unfoldable pub new_guard :
    Platform
    → (Timestamp → String)
    → TaskAuthorityGrant
    → TaskAccountBinding
    → Timestamp
    → Result Guard
new_guard platform iso g live now = do
  assert_grant g live now
  ok (record {
    grant = g;
    receipt = record {
      format = "tilda-mcp-task-authority-receipt-v1";
      task_id = g.task_id;
      mode = g.mode;
      grant_hash = hash_grant platform iso g;
      instruction_hash = g.instruction_hash;
      account_fingerprint = g.account_binding.account_fingerprint;
      inventory_hash = g.account_binding.inventory_hash;
      expires_at = g.expires_at;
    };
  })

module _ (guard : Guard) (m : Moment) where
  open guard use {grant}

  unfoldable pub assert_active : Checked
  assert_active = do
    reject_if m.is_revoked task_authority_revoked
    reject_if (ltb m.now grant.issued_at || leb grant.expires_at m.now) task_authority_expired

  unfoldable pub receipt : Result TaskAuthorityReceipt
  unfolding assert_active
  receipt = do assert_active; ok guard.receipt

  abbrev published : Option TaskPublicationGrant → ExactTarget → Bool
  published none t = false
  published (some p) t = in_scope (pages p.targets) t

  unfoldable pub assert_read : ExactTarget → Checked
  unfolding assert_active
  assert_read t = do
    assert_active
    assert_target t
    require
        (in_scope (grant.observe_targets ++ grant.write_targets) t || published grant.publication t)
        task_read_denied

  unfoldable pub assert_change : ChangeOperation → ExactTarget → Checked
  unfolding assert_active
  assert_change op t = do
    assert_active
    assert_target t
    reject_if (is_observe grant.mode) task_write_denied
    require (any (is_operation op) grant.allowed_operations) task_operation_denied
    require (in_scope grant.write_targets t) task_write_denied

  unfoldable pub assert_request : ChangeRequest → Checked
  unfolding assert_change
  assert_request r = assert_change (operation r) (target r)

  unfoldable pub assert_rollback : ChangeOperation → ExactTarget → Checked
  unfolding assert_active
  assert_rollback op t = do
    assert_active
    assert_target t
    reject_if
        (is_observe grant.mode
          || not (any (is_operation op) grant.allowed_operations)
          || not (in_scope grant.write_targets t))
        task_rollback_denied

  abbrev pub permits : Option TaskPublicationGrant → PublicationAction → ExactTarget → Bool
  permits none a t = false
  permits (some p) a t = any (is_action a) p.actions && in_scope (pages p.targets) t

  unfoldable pub assert_publication : PublicationAction → PageTarget → Checked
  unfolding assert_active
  assert_publication a t = do
    assert_active
    assert_target (of_page t)
    reject_if (is_observe grant.mode || not (permits grant.publication a (of_page t)))
        task_publication_denied

  unfoldable pub assert_copy_test_write : ExactTarget → Checked
  unfolding assert_active
  assert_copy_test_write t = do
    assert_active
    assert_target t
    reject_if (not (is_copy_test grant.mode) || not (in_scope grant.write_targets t))
        task_copy_test_denied

  abbrev is_planned_here : Option ChangeSetTaskAuthority → Bool
  is_planned_here none = false
  is_planned_here (some a) =
      a.task_id == guard.receipt.task_id && a.grant_hash == guard.receipt.grant_hash

  unfoldable pub assert_change_set_authority : Option ChangeSetTaskAuthority → Checked
  unfolding assert_active
  assert_change_set_authority a = do
    assert_active
    require (is_planned_here a) task_changeset_authority_mismatch
