-- ===== src/Manager/Session.antt =====
-- A session of the manager: calls of its methods, of the methods of its guards and of the leases, in
-- any order and with any arguments.
use tilda_mcp.Prelude.{ℕ, Option, List, [], ◌∷◌}
use tilda_mcp.Effect.State.{final}
use tilda_mcp.Contracts.Targets.{ExactTarget, PageTarget}
use tilda_mcp.Contracts.Requests.{ChangeOperation}
use tilda_mcp.Manager.State.{
  MintTaskAuthorityInput, ReferencePageReceipt, VerifiedReferenceInventoryTransition, ManagedGuard,
  Process, AuthorityHost,
}
use tilda_mcp.Manager.Guarded
use tilda_mcp.Manager.Leases
use tilda_mcp.Manager.Lifetime
use tilda_mcp.Manager.Lineage

pub data Call : Type 0 where
  mint : MintTaskAuthorityInput → Call
  replace : MintTaskAuthorityInput → Call
  clear : Call
  current_guard : Call
  current_receipt : Call
  guard_change : ChangeOperation → ExactTarget → ManagedGuard → Call
  begin_dispatch : ManagedGuard → Call
  begin_execution : ManagedGuard → Call
  release_dispatch : ℕ → Call
  release_execution : ℕ → Call
  begin_reference : PageTarget → Option ReferencePageReceipt → Call
  end_reference : ℕ → Call
  accept : VerifiedReferenceInventoryTransition → Call

module _ {E : Type 0} (host : AuthorityHost E) where
  -- The state after a call, whether it returned or threw.
  unfoldable pub after_call : Call → Process E → Process E
  after_call (mint input) w = final (Lifetime.mint host input w)
  after_call (replace input) w = final (Lifetime.replace host input w)
  after_call clear w = final (Leases.clear host w)
  after_call current_guard w = final (Leases.current host w)
  after_call current_receipt w = final (Leases.current_receipt host w)
  after_call (guard_change op t g) w = final (Guarded.guard_change host op t g w)
  after_call (begin_dispatch g) w = final (Guarded.begin_mutation_dispatch host g w)
  after_call (begin_execution g) w = final (Guarded.begin_task_execution host g w)
  after_call (release_dispatch lease) w = final (Guarded.release_dispatch host lease w)
  after_call (release_execution lease) w = final (Guarded.release_execution host lease w)
  after_call (begin_reference s r) w = final (Lineage.begin_reference_inventory_mutation host s r w)
  after_call (end_reference lease) w = final (Lineage.end_reference_inventory_mutation host lease w)
  after_call (accept t) w = final (Lineage.accept_transition host t w)

  unfoldable pub after : List Call → Process E → Process E
  after [] w = w
  after (c ∷ cs) w = after cs (after_call c w)
