-- ===== src/Manager/State.antt =====
-- The state of the manager (src/core/task-authority-manager.ts). An object that the program compares
-- by identity, such as a token or a lease, is a number that no earlier object has.
use tilda_mcp.Prelude.{ℕ, suc, String, Option, none, some, List, Bool, true, false, eqb}
use tilda_mcp.Effect.Codes.{task_authority_clock_invalid}
use tilda_mcp.Effect.State.{returned, Exec, throw, pure, ◌>>=◌}
use tilda_mcp.Contracts.Targets.{ExactTarget, PageTarget}
use tilda_mcp.Contracts.Requests.{ChangeOperation, page_reference_clone, page_reference_cleanup}
use tilda_mcp.Contracts.Records.{Timestamp}
use tilda_mcp.Contracts.Hash.{Platform}
use tilda_mcp.Authority.Grant.{
  TaskAuthorityMode, TaskAuthorityGrant, TaskAccountBinding, TaskPublicationGrant,
}
use tilda_mcp.Authority.Guard.{Guard}
use tilda_mcp.Manager.Inventory.{LiveInventory}

pub record MintTaskAuthorityInput : Type 0 where
  pub task_description : String
  pub mode : TaskAuthorityMode
  pub observe_targets : List ExactTarget
  pub write_targets : List ExactTarget
  pub allowed_operations : List ChangeOperation
  pub publication : Option TaskPublicationGrant
  pub binding : TaskAccountBinding
  pub inventory : Option LiveInventory
  pub ttl_ms : Option ℕ

-- `ReferencePageReceipt` (src/adapters/reference-page-lifecycle.ts).
pub record ReferencePageReceipt : Type 0 where
  pub identity : ℕ
  pub is_frozen : Bool
  pub source : PageTarget
  pub created : PageTarget
  pub receipt_id : String

pub data ReferenceOperation : Type 0 where
  clone cleanup : ReferenceOperation

unfoldable pub operation_of : ReferenceOperation → ChangeOperation
operation_of clone = page_reference_clone
operation_of cleanup = page_reference_cleanup

pub record VerifiedReferenceInventoryTransition : Type 0 where
  pub operation : ReferenceOperation
  pub expected_task_id : String
  pub expected_grant_hash : String
  pub mutation_lease : ℕ
  pub receipt : ReferencePageReceipt
  pub before_page_ids : List String
  pub after_page_ids : List String

-- A guard with the token that its callbacks compare.
pub record ManagedGuard : Type 0 where
  pub guard : Guard
  pub token : ℕ

pub record ActiveAuthority : Type 0 where
  pub guard : ManagedGuard
  pub expires_at_ms : Timestamp
  pub grant : TaskAuthorityGrant
  pub inventory : Option LiveInventory
  pub pending_reference_receipt : Option ReferencePageReceipt

pub record Manager : Type 0 where
  pub active : Option ActiveAuthority
  pub revocation_token : ℕ
  pub reference_mutation_lease : Option ℕ
  pub mutation_dispatch_lease : Option ℕ
  pub task_execution_lease : Option ℕ
  -- the number of the next object
  pub next_object : ℕ
  -- `taskLineageEligibleReceipts` (src/adapters/reference-page-lifecycle.ts), by identity
  pub eligible_receipts : List ℕ

pub record Process (E : Type 0) : Type 0 where
  pub manager : Manager
  pub outside : E

-- What the platform and the options of the constructor give.
pub record AuthorityHost (E : Type 0) : Type 0 where
  pub platform : Platform
  -- the canonical ISO text of a time
  pub iso : Timestamp → String
  pub trim : String → String
  -- `none` is an invalid date
  pub now : E → Option ℕ × E
  pub create_task_id : E → String × E

-- `===` of objects, and of an object and `null`.
abbrev pub is_object : Option ℕ → ℕ → Bool
is_object none n = false
is_object (some m) n = eqb m n

abbrev pub is_held : {A : Type 0} → Option A → Bool
is_held none = false
is_held (some x) = true

module _ {E : Type 0} where
  unfoldable pub looks : {A : Type 0} → (Manager → A) → Exec (Process E) A
  looks f w = returned (f w.manager) w

  unfoldable pub update : (Manager → Manager) → Exec (Process E) (Unit {0})
  update f w = returned tt (record w { manager = f w.manager })

  -- `Object.freeze({})`: an object unlike every earlier one.
  unfoldable pub fresh_object : Exec (Process E) ℕ
  fresh_object w =
      returned w.manager.next_object
        (record w { manager = record (w.manager) { next_object = suc w.manager.next_object } })

module _ {E : Type 0} (host : AuthorityHost E) where
  abbrev pub valid_date : Option ℕ → Exec (Process E) ℕ
  valid_date none = throw task_authority_clock_invalid
  valid_date (some t) = pure t

  -- The clock is read, and its answer is `none` or a time.
  unfoldable pub read_clock : Exec (Process E) (Option ℕ)
  read_clock w = let (t, e) = host.now w.outside in returned t (record w { outside = e })

  unfoldable pub now_ms : Exec (Process E) ℕ
  now_ms = read_clock >>= valid_date

  unfoldable pub new_task_id : Exec (Process E) String
  new_task_id w =
      let (id, e) = host.create_task_id w.outside in returned id (record w { outside = e })
