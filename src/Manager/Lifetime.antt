-- ===== src/Manager/Lifetime.antt =====
-- Minting and replacing an authority (src/core/task-authority-manager.ts).
use tilda_mcp.Prelude.{ℕ, ◌+◌, ◌-◌, String, Option, none, some, false, ltb}
use tilda_mcp.Effect.Codes.{task_authority_clock_invalid, task_authority_already_active}
use tilda_mcp.Effect.State.{Exec, pure, attempt, throw_if, ◌>>=◌, ◌>>◌}
use tilda_mcp.Contracts.Records.{Timestamp}
use tilda_mcp.Authority.Grant.{TaskAuthorityGrant}
use tilda_mcp.Authority.Guard.{TaskAuthorityReceipt, new_guard}
use tilda_mcp.Manager.Inventory.{LiveInventory}
use tilda_mcp.Manager.Input.{
  assert_task_description, bounded_ttl, instruction_hash, trusted_inventory, max_date_ms,
}
use tilda_mcp.Manager.State.{
  MintTaskAuthorityInput, ReferencePageReceipt, ActiveAuthority, Process, AuthorityHost, is_held,
  update, fresh_object, now_ms, new_task_id,
}
use tilda_mcp.Manager.Guarded.{receipt_of}
use tilda_mcp.Manager.Leases.{assert_no_authority_transition, current}

module _ {E : Type 0} (host : AuthorityHost E) where
  -- `#activateGrant`: the guard compares `token`, and reads the manager's clock.
  unfoldable pub activate_grant :
      TaskAuthorityGrant
      → Option LiveInventory
      → ℕ
      → Timestamp
      → Option ReferencePageReceipt
      → Exec (Process E) ActiveAuthority
  activate_grant grant inventory token now pending =
      attempt (new_guard host.platform host.iso grant grant.account_binding now) >>= λ guard.
      pure (record {
        guard = record { guard = guard; token = token };
        expires_at_ms = grant.expires_at;
        grant = grant;
        inventory = inventory;
        pending_reference_receipt = pending;
      })

  unfoldable pub new_grant : MintTaskAuthorityInput → String → Timestamp → ℕ → TaskAuthorityGrant
  new_grant input task_id issued ttl = record {
    format = "tilda-mcp-task-authority-v1";
    task_id = task_id;
    mode = input.mode;
    instruction_hash = instruction_hash host.platform input.task_description;
    issued_at = issued;
    expires_at = issued + ttl;
    account_binding = input.binding;
    observe_targets = input.observe_targets;
    write_targets = input.write_targets;
    allowed_operations = input.allowed_operations;
    publication = input.publication;
  }

  -- `#build`.
  unfoldable pub build : MintTaskAuthorityInput → ℕ → Exec (Process E) ActiveAuthority
  build input token = do
    attempt (assert_task_description input.task_description)
    ttl ← attempt (bounded_ttl input.ttl_ms)
    issued ← now_ms host
    throw_if (ltb (max_date_ms - ttl) issued) task_authority_clock_invalid
    task_id ← new_task_id host
    inventory ← attempt (trusted_inventory host.platform host.trim input.inventory input.binding)
    activate_grant (new_grant input task_id issued ttl) inventory token issued none

  -- The new authority takes the place of the old one, whose guards are revoked.
  unfoldable pub install : ℕ → ActiveAuthority → Exec (Process E) TaskAuthorityReceipt
  install token a = do
    update (λ m. record m { active = some a; revocation_token = token })
    receipt_of host a.guard

  unfoldable pub mint : MintTaskAuthorityInput → Exec (Process E) TaskAuthorityReceipt
  mint input = do
    assert_no_authority_transition host false
    old ← current host
    throw_if (is_held old) task_authority_already_active
    token ← fresh_object
    a ← build input token
    install token a

  unfoldable pub replace : MintTaskAuthorityInput → Exec (Process E) TaskAuthorityReceipt
  replace input = do
    assert_no_authority_transition host false
    current host
    token ← fresh_object
    a ← build input token
    install token a
