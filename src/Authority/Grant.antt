-- ===== src/Authority/Grant.antt =====
-- The grant of a task, and the checks that make it valid (src/core/task-authority.ts).
use mathlib.Core.Logic.{ite}
use tilda_mcp.Prelude.{
  ℕ, ◌-◌, String, ◌==◌, Option, none, some, List, [], ◌∷◌, Bool, true, false, not, ◌&&◌, ◌||◌, leb,
  ltb, any, is_task_uuid, is_hex_hash, is_canonical_hash,
}
use tilda_mcp.Effect.Codes.{
  task_authority_invalid, task_authority_ttl_invalid, task_authority_expired,
  task_authority_binding_mismatch, task_authority_scope_overlap, task_authority_mode_violation,
  task_authority_publication_scope_invalid,
}
use tilda_mcp.Effect.Check.{require, reject_if, if_present, ◌>>◌}
use tilda_mcp.Contracts.Targets.{ExactTarget, PageTarget, of_page}
use tilda_mcp.Contracts.Requests.{ChangeOperation, ChangeOperation-discrete}
use tilda_mcp.Contracts.Records.{Timestamp, PublicationAction, PublicationAction-discrete}
use tilda_mcp.Store.Checks.{Checked}
use tilda_mcp.Authority.Scope.{assert_target_list, task_scope_covers, scopes_overlap}

pub data TaskAuthorityMode : Type 0 where
  observe copy_test production : TaskAuthorityMode

pub record TaskAccountBinding : Type 0 where
  pub account_fingerprint : String
  pub inventory_hash : String

pub record TaskPublicationGrant : Type 0 where
  pub actions : List PublicationAction
  pub targets : List PageTarget

pub record TaskAuthorityGrant : Type 0 where
  pub format : String
  pub task_id : String
  pub mode : TaskAuthorityMode
  pub instruction_hash : String
  pub issued_at : Timestamp
  pub expires_at : Timestamp
  pub account_binding : TaskAccountBinding
  pub observe_targets : List ExactTarget
  pub write_targets : List ExactTarget
  pub allowed_operations : List ChangeOperation
  pub publication : Option TaskPublicationGrant

abbrev pub max_task_authority_ttl_ms : ℕ
max_task_authority_ttl_ms = 1800000

unfoldable pub is_operation : ChangeOperation → ChangeOperation → Bool
is_operation a b = ite (ChangeOperation-discrete a b) true false

unfoldable pub is_action : PublicationAction → PublicationAction → Bool
is_action a b = ite (PublicationAction-discrete a b) true false

-- `new Set(xs).size === xs.length`.
unfoldable pub no_repeats : {A : Type 0} → (A → A → Bool) → List A → Bool
no_repeats same [] = true
no_repeats same (x ∷ xs) = not (any (same x) xs) && no_repeats same xs

abbrev pub is_observe : TaskAuthorityMode → Bool
is_observe observe = true
is_observe _ = false

abbrev pub is_copy_test : TaskAuthorityMode → Bool
is_copy_test copy_test = true
is_copy_test _ = false

abbrev is_empty {ℓ} : {A : Type ℓ} → List A → Bool
is_empty [] = true
is_empty (x ∷ xs) = false

abbrev is_absent : {A : Type 0} → Option A → Bool
is_absent none = true
is_absent (some x) = false

-- Some scope of the list covers the target.
abbrev pub in_scope : List ExactTarget → ExactTarget → Bool
in_scope scopes t = any (λ s. task_scope_covers s t) scopes

unfoldable pub assert_times : TaskAuthorityGrant → Timestamp → Checked
assert_times g now = do
  reject_if (leb g.expires_at g.issued_at) task_authority_invalid
  reject_if (ltb max_task_authority_ttl_ms (g.expires_at - g.issued_at)) task_authority_ttl_invalid
  reject_if (ltb now g.issued_at || leb g.expires_at now) task_authority_expired

unfoldable pub assert_binding : TaskAccountBinding → TaskAccountBinding → Checked
assert_binding bound live = do
  require (is_hex_hash bound.account_fingerprint) task_authority_invalid
  require (is_hex_hash bound.inventory_hash) task_authority_invalid
  require
      (bound.account_fingerprint == live.account_fingerprint
        && bound.inventory_hash == live.inventory_hash)
      task_authority_binding_mismatch

-- What the mode asks of the scopes.
unfoldable pub assert_mode : TaskAuthorityGrant → TaskAuthorityMode → Checked
assert_mode g observe =
    reject_if
      (is_empty g.observe_targets
        || not (is_empty g.write_targets)
        || not (is_empty g.allowed_operations)
        || not (is_absent g.publication))
      task_authority_mode_violation
assert_mode g copy_test = do
  reject_if (is_empty g.write_targets) task_authority_mode_violation
  reject_if (is_empty g.observe_targets) task_authority_mode_violation
assert_mode g production = reject_if (is_empty g.write_targets) task_authority_mode_violation

abbrev pub pages : List PageTarget → List ExactTarget
pages [] = []
pages (t ∷ ts) = of_page t ∷ pages ts

unfoldable pub assert_publication_grant : List ExactTarget → TaskPublicationGrant → Checked
unfolding is_action no_repeats
assert_publication_grant writable p = do
  reject_if (is_empty p.actions || not (no_repeats is_action p.actions)) task_authority_invalid
  assert_target_list (pages p.targets)
  reject_if (is_empty p.targets || any (λ t. not (in_scope writable t)) (pages p.targets))
      task_authority_publication_scope_invalid

unfoldable pub overlapping : List ExactTarget → List ExactTarget → Bool
overlapping sources destinations =
    any (λ source. any (λ destination. scopes_overlap source destination) destinations) sources

unfoldable pub assert_grant : TaskAuthorityGrant → TaskAccountBinding → Timestamp → Checked
unfolding is_operation no_repeats
assert_grant g live now = do
  require (g.format == "tilda-mcp-task-authority-v1" && is_task_uuid g.task_id)
      task_authority_invalid
  require (is_canonical_hash g.instruction_hash) task_authority_invalid
  assert_times g now
  assert_binding g.account_binding live
  assert_target_list g.observe_targets
  assert_target_list g.write_targets
  reject_if (overlapping g.observe_targets g.write_targets) task_authority_scope_overlap
  require (no_repeats is_operation g.allowed_operations) task_authority_invalid
  assert_mode g g.mode
  if_present (assert_publication_grant g.write_targets) g.publication
