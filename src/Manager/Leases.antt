-- ===== src/Manager/Leases.antt =====
-- Transitions of the authority and what blocks them (src/core/task-authority-manager.ts).
use tilda_mcp.Prelude.{Option, none, some, Bool, true, false, not, ◌&&◌, ◌||◌, leb}
use tilda_mcp.Effect.Codes.{
  task_inventory_lineage_busy, task_authority_execution_in_progress, task_authority_required,
}
use tilda_mcp.Effect.State.{Exec, pure, throw, throw_if, if◌then◌else◌, ◌>>=◌, ◌>>◌}
use tilda_mcp.Authority.Guard.{TaskAuthorityReceipt}
use tilda_mcp.Manager.State.{
  ActiveAuthority, ManagedGuard, Process, AuthorityHost, is_held, looks, update, fresh_object,
  now_ms,
}
use tilda_mcp.Manager.Guarded.{assert_no_mutation_dispatch, receipt_of}

abbrev pub has_pending : Option ActiveAuthority → Bool
has_pending none = false
has_pending (some a) = is_held a.pending_reference_receipt

module _ {E : Type 0} (host : AuthorityHost E) where
  unfoldable pub assert_no_authority_transition : Bool → Exec (Process E) (Unit {0})
  assert_no_authority_transition allow_verified_reference = do
    busy ← looks (λ m.
        not allow_verified_reference
        && (is_held m.reference_mutation_lease || has_pending m.active))
    throw_if busy task_inventory_lineage_busy
    assert_no_mutation_dispatch host
    executing ← looks (λ m. is_held m.task_execution_lease)
    throw_if executing task_authority_execution_in_progress

  -- The authority ends, and every guard of it with it.
  unfoldable pub drop_authority : Exec (Process E) (Unit {0})
  drop_authority = do
    token ← fresh_object
    update
        (λ m. record m { active = none; revocation_token = token; reference_mutation_lease = none })

  unfoldable pub drop_if_expired :
      ActiveAuthority → Bool → Exec (Process E) (Option ActiveAuthority)
  drop_if_expired a true = pure (some a)
  drop_if_expired a false = do
    t ← now_ms host
    if leb a.expires_at_ms t then (do drop_authority; pure none) else pure (some a)

  unfoldable pub current_of : Option ActiveAuthority → Exec (Process E) (Option ActiveAuthority)
  current_of none = pure none
  current_of (some a) = do
    pinned ← looks (λ m. is_held m.mutation_dispatch_lease || is_held m.task_execution_lease)
    drop_if_expired a pinned

  -- `#current`: an authority whose time is over ends here, unless a lease pins it.
  unfoldable pub current : Exec (Process E) (Option ActiveAuthority)
  current = looks (λ m. m.active) >>= current_of

  unfoldable pub required : Option ActiveAuthority → Exec (Process E) ActiveAuthority
  required none = throw task_authority_required
  required (some a) = pure a

  unfoldable pub require_guard : Exec (Process E) ManagedGuard
  require_guard = do a ← current; x ← required a; pure x.guard

  unfoldable pub receipt_if :
      Option ActiveAuthority → Exec (Process E) (Option TaskAuthorityReceipt)
  receipt_if none = pure none
  receipt_if (some a) = do r ← receipt_of host a.guard; pure (some r)

  unfoldable pub current_receipt : Exec (Process E) (Option TaskAuthorityReceipt)
  current_receipt = current >>= receipt_if

  -- `clear` and `close`.
  unfoldable pub clear : Exec (Process E) Bool
  clear = do
    assert_no_authority_transition false
    existed ← looks (λ m. is_held m.active)
    drop_authority
    pure existed
