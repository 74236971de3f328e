-- ===== src/Manager/Lineage.antt =====
-- The transitions of the inventory that a verified clone or cleanup of a reference page makes
-- (src/core/task-authority-manager.ts).
use tilda_mcp.Prelude.{
  ℕ, ◌+◌, String, ◌==◌, Option, none, some, List, [], ◌∷◌, Bool, true, false, not, ◌&&◌, eqb, any,
  every, length, is_canonical_id,
}
use tilda_mcp.Dict.{lookup, insert}
use tilda_mcp.Effect.Codes.{
  Code, tilda, task_inventory_lineage_busy, task_inventory_lineage_unavailable,
  task_inventory_lineage_scope_denied, task_inventory_lineage_mismatch,
  task_inventory_lineage_invalid, task_inventory_lineage_receipt_rejected,
}
use tilda_mcp.Effect.Check.{Result, ok, err}
use tilda_mcp.Effect.State.{Exec, pure, throw, throw_if, guard, attempt, if◌then◌else◌, ◌>>=◌, ◌>>◌}
use tilda_mcp.Contracts.Targets.{ExactTarget, project_target, PageTarget, of_page}
use tilda_mcp.Contracts.Requests.{page_reference_clone, page_reference_cleanup}
use tilda_mcp.Authority.Grant.{TaskAuthorityGrant, no_repeats, in_scope}
use tilda_mcp.Authority.Guard.{TaskAuthorityReceipt}
use tilda_mcp.Manager.Inventory.{LiveInventory, hash_live_inventory}
use tilda_mcp.Manager.State.{
  ReferencePageReceipt, ReferenceOperation, clone, cleanup, operation_of,
  VerifiedReferenceInventoryTransition, ActiveAuthority, Process, AuthorityHost, is_object, is_held,
  looks, update, fresh_object, now_ms,
}
use tilda_mcp.Manager.Guarded.{receipt_of, guard_change}
use tilda_mcp.Manager.Leases.{assert_no_authority_transition, current, required}
use tilda_mcp.Manager.Lifetime.{activate_grant, install}

abbrev pub has : List String → String → Bool
has ids id = any (λ x. x == id) ids

abbrev same_id : String → String → Bool
same_id a b = a == b

-- `sameIdSet`.
unfoldable pub same_id_set : List String → List String → Bool
same_id_set left right = eqb (length left) (length right) && every (λ id. has right id) left

abbrev pub is_page_ids : List String → Bool
is_page_ids ids = every is_canonical_id ids && no_repeats same_id ids

abbrev accepted : List String → Bool → Result (List String)
accepted ids true = ok ids
accepted ids false = err (tilda task_inventory_lineage_invalid)

unfoldable pub canonical_page_ids : List String → Result (List String)
canonical_page_ids ids = accepted ids (is_page_ids ids)

-- One page, and no other, is added or removed, and the source stays.
unfoldable pub exact_transition :
    ReferenceOperation → List String → List String → PageTarget → PageTarget → Bool
exact_transition clone before after source changed =
    not (has before changed.page_id)
    && eqb (length after) (length before + 1)
    && has after changed.page_id
    && every (λ id. has after id) before
    && has before source.page_id
exact_transition cleanup before after source changed =
    has before changed.page_id
    && eqb (length after + 1) (length before)
    && not (has after changed.page_id)
    && every (λ id. has before id) after
    && has after source.page_id

abbrev is_receipt : Option ReferencePageReceipt → Option ReferencePageReceipt → Bool
is_receipt none none = true
is_receipt (some a) (some b) = eqb a.identity b.identity
is_receipt _ _ = false

abbrev owned_pages : LiveInventory → PageTarget → Option (List String)
owned_pages i t = lookup t.project_id i.page_ownership

abbrev lists_page : Option (List String) → String → Bool
lists_page none id = false
lists_page (some ids) id = has ids id

-- The source is a page of the inventory.
abbrev knows_page : Option LiveInventory → PageTarget → Bool
knows_page none t = false
knows_page (some i) t = has i.project_ids t.project_id && lists_page (owned_pages i t) t.page_id

abbrev is_project_scope : String → ExactTarget → Bool
is_project_scope p (project_target q) = q == p
is_project_scope p _ = false

-- Two pages of one project.
unfoldable pub is_lineage : ReferencePageReceipt → Bool
is_lineage r =
    r.is_frozen
    && is_canonical_id r.source.project_id
    && is_canonical_id r.source.page_id
    && is_canonical_id r.created.project_id
    && is_canonical_id r.created.page_id
    && r.source.project_id == r.created.project_id
    && not (r.source.page_id == r.created.page_id)

-- A clone begins where none is pending, and a cleanup ends the one that is.
abbrev pub pending_fits :
    ReferenceOperation → ReferencePageReceipt → Option ReferencePageReceipt → Bool
pending_fits clone r pending = not (is_held pending)
pending_fits cleanup r pending = is_receipt pending (some r)

unfoldable pub next_inventory : LiveInventory → String → List String → LiveInventory
next_inventory i project after = record i { page_ownership = insert project after i.page_ownership }

unfoldable pub rebound_grant : TaskAuthorityGrant → String → TaskAuthorityGrant
rebound_grant g inventory_hash = record g {
  account_binding = record (g.account_binding) { inventory_hash = inventory_hash };
}

abbrev pending_after : ReferenceOperation → ReferencePageReceipt → Option ReferencePageReceipt
pending_after clone r = some r
pending_after cleanup r = none

abbrev without : ℕ → List ℕ → List ℕ
without n [] = []
without n (m ∷ ms) = let rest = without n ms in elim (eqb m n) [ true ↦ rest | false ↦ m ∷ rest ]

abbrev is_clone : ReferenceOperation → Bool
is_clone clone = true
is_clone cleanup = false

module _ {E : Type 0} (host : AuthorityHost E) where
  -- An error of a function is reported as `code`.
  abbrev pub or_throw : {A : Type 0} → Code → Result A → Exec (Process E) A
  or_throw code (ok a) = pure a
  or_throw code (err e) = throw code

  abbrev pub or_missing : {A : Type 0} → Code → Option A → Exec (Process E) A
  or_missing code none = throw code
  or_missing code (some a) = pure a

  unfoldable pub assert_reference_lineage_ready :
      PageTarget → Option ReferencePageReceipt → Exec (Process E) (Unit {0})
  assert_reference_lineage_ready source receipt = do
    found ← current host
    a ← required host found
    guard_change host page_reference_clone (of_page source) a.guard
    guard_change host page_reference_cleanup (of_page source) a.guard
    guard (is_receipt a.pending_reference_receipt receipt) task_inventory_lineage_busy
    guard (knows_page a.inventory source) task_inventory_lineage_unavailable
    guard (any (is_project_scope source.project_id) a.grant.write_targets)
        task_inventory_lineage_scope_denied

  unfoldable pub begin_reference_inventory_mutation :
      PageTarget → Option ReferencePageReceipt → Exec (Process E) ℕ
  begin_reference_inventory_mutation source receipt = do
    busy ← looks (λ m. is_held m.reference_mutation_lease)
    throw_if busy task_inventory_lineage_busy
    assert_reference_lineage_ready source receipt
    lease ← fresh_object
    update (λ m. record m { reference_mutation_lease = some lease })
    pure lease

  unfoldable pub end_reference_inventory_mutation : ℕ → Exec (Process E) (Unit {0})
  end_reference_inventory_mutation lease = do
    mine ← looks (λ m. is_object m.reference_mutation_lease lease)
    if mine then update (λ m. record m { reference_mutation_lease = none }) else pure tt

  -- Removing a receipt that is not eligible changes nothing. `consumeVerifiedReferencePageReceipt` (src/adapters/reference-page-lifecycle.ts).
  unfoldable pub consume_receipt : ReferencePageReceipt → Exec (Process E) Bool
  consume_receipt r = do
    eligible ← looks (λ m. any (λ n. eqb n r.identity) m.eligible_receipts)
    update (λ m. record m { eligible_receipts = without r.identity m.eligible_receipts })
    pure eligible

  unfoldable pub consume_if : Bool → ReferencePageReceipt → Exec (Process E) (Unit {0})
  consume_if false r = pure tt
  consume_if true r = do
    consumed ← consume_receipt r
    guard consumed task_inventory_lineage_receipt_rejected

  -- The checks of a transition against the active authority, and the inventory that it leads to.
  unfoldable pub verified_inventory :
      VerifiedReferenceInventoryTransition → ActiveAuthority → Exec (Process E) LiveInventory
  verified_inventory t a = do
    guard (is_lineage t.receipt) task_inventory_lineage_invalid
    guard (pending_fits t.operation t.receipt a.pending_reference_receipt)
        task_inventory_lineage_busy
    guard_change host (operation_of t.operation) (of_page t.receipt.source) a.guard
    i ← or_missing task_inventory_lineage_unavailable a.inventory
    guard (in_scope a.grant.write_targets (of_page t.receipt.created))
        task_inventory_lineage_scope_denied
    pages ← or_missing task_inventory_lineage_invalid (owned_pages i t.receipt.source)
    guard (has i.project_ids t.receipt.source.project_id) task_inventory_lineage_invalid
    before ← attempt (canonical_page_ids t.before_page_ids)
    after ← attempt (canonical_page_ids t.after_page_ids)
    guard (same_id_set before pages) task_inventory_lineage_mismatch
    guard (exact_transition t.operation before after t.receipt.source t.receipt.created)
        task_inventory_lineage_invalid
    pure (next_inventory i t.receipt.source.project_id after)

  unfoldable pub accept_transition :
      VerifiedReferenceInventoryTransition → Exec (Process E) TaskAuthorityReceipt
  accept_transition t = do
    assert_no_authority_transition host true
    found ← current host
    a ← required host found
    now_held ← receipt_of host a.guard
    mine ← looks (λ m. is_object m.reference_mutation_lease t.mutation_lease)
    guard mine task_inventory_lineage_mismatch
    guard (now_held.task_id == t.expected_task_id && now_held.grant_hash == t.expected_grant_hash)
        task_inventory_lineage_mismatch
    i ← verified_inventory t a
    digest ← or_throw task_inventory_lineage_invalid (hash_live_inventory host.platform host.trim i)
    token ← fresh_object
    now ← now_ms host
    b ←
        activate_grant host (rebound_grant a.grant digest) (some i) token now
          (pending_after t.operation t.receipt)
    consume_if (is_clone t.operation) t.receipt
    install host token b
