-- ===== src/Tests/Authority.antt =====
-- A task that may observe one page, and change and publish another.
use tilda_mcp.Prelude
use tilda_mcp.Prelude.{◌+◌, ◌<◌, String, ◌≡◌, refl, some, List, [], ◌∷◌, Bool, true, false, All}
use tilda_mcp.Effect.Check.{ok}
use tilda_mcp.Contracts.Targets.{ExactTarget, PageTarget, page_target, record_target, of_page}
use tilda_mcp.Contracts.Requests
use tilda_mcp.Contracts.Requests.{t123_code_replace}
use tilda_mcp.Contracts.Records
use tilda_mcp.Contracts.Records.{publish}
use tilda_mcp.Authority.Scope
use tilda_mcp.Authority.Scope.{task_scope_covers, scopes_overlap}
use tilda_mcp.Authority.Grant
use tilda_mcp.Authority.Grant.{
  TaskAuthorityGrant, TaskAccountBinding, copy_test, in_scope, max_task_authority_ttl_ms,
}
use tilda_mcp.Authority.Guard
use tilda_mcp.Authority.Guard.{Guard, Moment, assert_read}
use tilda_mcp.Authority.Paths.{path, is_prefix, task_scope_covers-eq-is_prefix}
use tilda_mcp.Authority.Isolation.{
  assert_change-isolated, assert_change-readable, assert_active-within_ttl,
  assert_publication-writable,
}
use tilda_mcp.Tests.Demo.{digest, hash_a}

-- Everything that a guard calls.
unfoldable pub authority_all : Unit {0}
unfolding Scope.assert_target_list Scope.task_scope_covers Scope.scopes_overlap Scope.assert_target
    Grant.is_operation Grant.is_action Grant.no_repeats Grant.assert_times Grant.assert_binding
    Grant.assert_mode Grant.assert_publication_grant Grant.overlapping Grant.assert_grant
    Guard.assert_active Guard.assert_read Guard.assert_change Guard.assert_publication
    Prelude.is_task_uuid Prelude.is_canonical_hash Prelude.is_hex_hash Prelude.is_canonical_id
    Prelude.String-discrete Requests.ChangeOperation-discrete Records.PublicationAction-discrete
authority_all = tt

abbrev pub binding : TaskAccountBinding
binding = record { account_fingerprint = digest; inventory_hash = digest }

abbrev pub page : PageTarget
page = record { project_id = "1"; page_id = "5" }

abbrev pub grant : TaskAuthorityGrant
grant = record {
  format = "tilda-mcp-task-authority-v1";
  task_id = "11111111-1111-4111-8111-111111111111";
  mode = copy_test;
  instruction_hash = hash_a;
  issued_at = 10;
  expires_at = 1000;
  account_binding = binding;
  observe_targets = page_target "1" "2" ∷ [];
  write_targets = of_page page ∷ [];
  allowed_operations = t123_code_replace ∷ [];
  publication = some (record { actions = publish ∷ []; targets = page ∷ [] });
}

abbrev pub guard : Guard
guard = record {
  grant = grant;
  receipt = record {
    format = "tilda-mcp-task-authority-receipt-v1";
    task_id = grant.task_id;
    mode = copy_test;
    grant_hash = hash_a;
    instruction_hash = hash_a;
    account_fingerprint = digest;
    inventory_hash = digest;
    expires_at = 1000;
  };
}

abbrev moment : Moment
moment = record { is_revoked = false; now = 20 }

abbrev leaf : ExactTarget
leaf = record_target "1" "5" "3"

assert_change-isolated_example :
    All (λ s. scopes_overlap s leaf ≡ false) guard.grant.observe_targets
unfolding authority_all
assert_change-isolated_example =
    assert_change-isolated guard moment binding 10 t123_code_replace leaf refl refl

assert_change-readable_example : assert_read guard moment leaf ≡ ok tt
unfolding authority_all
assert_change-readable_example = assert_change-readable guard moment t123_code_replace leaf refl

assert_active-within_ttl_example : moment.now < guard.grant.issued_at + max_task_authority_ttl_ms
unfolding authority_all
assert_active-within_ttl_example = assert_active-within_ttl guard moment binding 10 refl refl

assert_publication-writable_example : in_scope guard.grant.write_targets (of_page page) ≡ true
unfolding authority_all
assert_publication-writable_example =
    assert_publication-writable guard moment binding 10 publish page refl refl

task_scope_covers_example :
    task_scope_covers (of_page page) leaf ≡ is_prefix (path (of_page page)) (path leaf)
task_scope_covers_example = task_scope_covers-eq-is_prefix (of_page page) leaf
