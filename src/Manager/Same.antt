-- ===== src/Manager/Same.antt =====
-- The methods that leave the manager as it is, and the rules for what the others do to it
-- (src/core/task-authority-manager.ts).
use tilda_mcp.Prelude.{ℕ, ◌≡◌, refl, ◌∙◌, Option, none, some, Bool}
use tilda_mcp.Effect.Codes.{Code}
use tilda_mcp.Effect.Check.{Result, ok, err}
use tilda_mcp.Effect.Keeps.{
  IsPreorder, Keeps, Keeps-pure, Keeps-throw, Keeps-attempt, Keeps-bind, Keeps-if,
}
use tilda_mcp.Contracts.Targets.{ExactTarget}
use tilda_mcp.Contracts.Requests.{ChangeOperation}
use tilda_mcp.Contracts.Records.{Timestamp}
use tilda_mcp.Authority.Grant.{TaskAuthorityGrant}
use tilda_mcp.Authority.Guard.{Guard, Moment}
use tilda_mcp.Manager.Inventory.{LiveInventory}
use tilda_mcp.Manager.State.{
  MintTaskAuthorityInput, ReferencePageReceipt, VerifiedReferenceInventoryTransition,
  ActiveAuthority, Manager, ManagedGuard, Process, AuthorityHost, looks, valid_date, read_clock,
  now_ms, new_task_id,
}
use tilda_mcp.Manager.Guarded.{
  moment, checked, receipt_of, guard_active, guard_change, assert_no_mutation_dispatch,
}
use tilda_mcp.Manager.Leases.{assert_no_authority_transition, required, receipt_if}
use tilda_mcp.Manager.Lifetime.{activate_grant, build}
use tilda_mcp.Manager.Lineage.{or_throw, or_missing, verified_inventory}

abbrev pub Same : {E : Type 0} → Process E → Process E → Type 0
Same w v = v.manager ≡ w.manager

pub Same-preorder : {E : Type 0} → IsPreorder (Same {E = E})
Same-preorder = record { reflexive = λ w. refl; transitive = λ u v w h k. k ∙ h }

module _ {E : Type 0} where
  abbrev pre : IsPreorder (Same {E = E})
  pre = Same-preorder

  pub looks-Same : {A : Type 0} (f : Manager → A) → Keeps (Same {E = E}) (looks f)
  unfolding looks
  looks-Same f = record { at = λ w. refl }

module _ {E : Type 0} (host : AuthorityHost E) where
  read_clock-Same : Keeps Same (read_clock host)
  unfolding read_clock
  read_clock-Same = record { at = λ w. refl }

  valid_date-Same : (t : Option ℕ) → Keeps Same (valid_date host t)
  valid_date-Same none = Keeps-throw pre _
  valid_date-Same (some t) = Keeps-pure pre t

  pub now_ms-Same : Keeps Same (now_ms host)
  unfolding now_ms
  now_ms-Same = Keeps-bind pre read_clock-Same valid_date-Same

  pub new_task_id-Same : Keeps Same (new_task_id host)
  unfolding new_task_id
  new_task_id-Same = record { at = λ w. refl }

  moment-Same : (g : ManagedGuard) → Keeps Same (moment host g)
  unfolding moment
  moment-Same g =
      Keeps-bind pre (looks-Same _)
        λ revoked. Keeps-if _ (Keeps-pure pre _) (Keeps-bind pre now_ms-Same λ t. Keeps-pure pre _)

  pub checked-Same :
      {A : Type 0} (check : Guard → Moment → Result A) (g : ManagedGuard)
      → Keeps Same (checked host check g)
  unfolding checked
  checked-Same check g = Keeps-bind pre (moment-Same g) λ m. Keeps-attempt pre _

  pub receipt_of-Same : (g : ManagedGuard) → Keeps Same (receipt_of host g)
  unfolding receipt_of
  receipt_of-Same g = checked-Same _ g

  pub guard_active-Same : (g : ManagedGuard) → Keeps Same (guard_active host g)
  unfolding guard_active
  guard_active-Same g = checked-Same _ g

  pub guard_change-Same :
      (op : ChangeOperation) (t : ExactTarget) (g : ManagedGuard)
      → Keeps Same (guard_change host op t g)
  unfolding guard_change
  guard_change-Same op t g = checked-Same _ g

  pub assert_no_mutation_dispatch-Same : Keeps Same (assert_no_mutation_dispatch host)
  unfolding assert_no_mutation_dispatch
  assert_no_mutation_dispatch-Same = Keeps-bind pre (looks-Same _) λ busy. Keeps-attempt pre _

  pub assert_no_authority_transition-Same :
      (b : Bool) → Keeps Same (assert_no_authority_transition host b)
  unfolding assert_no_authority_transition
  assert_no_authority_transition-Same b = Keeps-bind pre (looks-Same _) λ busy.
      Keeps-bind pre (Keeps-attempt pre _) λ _.
        Keeps-bind pre assert_no_mutation_dispatch-Same
          λ _. Keeps-bind pre (looks-Same _) λ executing. Keeps-attempt pre _

  pub required-Same : (a : Option ActiveAuthority) → Keeps Same (required host a)
  unfolding required
  required-Same none = Keeps-throw pre _
  required-Same (some a) = Keeps-pure pre a

  pub receipt_if-Same : (a : Option ActiveAuthority) → Keeps Same (receipt_if host a)
  unfolding receipt_if
  receipt_if-Same none = Keeps-pure pre none
  receipt_if-Same (some a) = Keeps-bind pre (receipt_of-Same a.guard) λ r. Keeps-pure pre _

  pub activate_grant-Same :
      (g : TaskAuthorityGrant) (i : Option LiveInventory) (token : ℕ) (now : Timestamp)
      (pending : Option ReferencePageReceipt)
      → Keeps Same (activate_grant host g i token now pending)
  unfolding activate_grant
  activate_grant-Same g i token now pending =
      Keeps-bind pre (Keeps-attempt pre _) λ guard. Keeps-pure pre _

  pub build-Same :
      (input : MintTaskAuthorityInput) (token : ℕ) → Keeps Same (build host input token)
  unfolding build
  build-Same input token = Keeps-bind pre (Keeps-attempt pre _) λ _.
      Keeps-bind pre (Keeps-attempt pre _) λ ttl. Keeps-bind pre now_ms-Same λ issued.
        Keeps-bind pre (Keeps-attempt pre _) λ _.
          Keeps-bind pre new_task_id-Same λ id.
            Keeps-bind pre (Keeps-attempt pre _) λ i. activate_grant-Same _ i token issued none

  pub or_throw-Same : {A : Type 0} (c : Code) (r : Result A) → Keeps Same (or_throw host c r)
  or_throw-Same c (ok a) = Keeps-pure pre a
  or_throw-Same c (err e) = Keeps-throw pre c

  or_missing-Same : {A : Type 0} (c : Code) (o : Option A) → Keeps Same (or_missing host c o)
  or_missing-Same c none = Keeps-throw pre c
  or_missing-Same c (some a) = Keeps-pure pre a

  pub verified_inventory-Same :
      (t : VerifiedReferenceInventoryTransition) (a : ActiveAuthority)
      → Keeps Same (verified_inventory host t a)
  unfolding verified_inventory
  verified_inventory-Same t a = Keeps-bind pre (Keeps-attempt pre _) λ _.
      Keeps-bind pre (Keeps-attempt pre _) λ _. Keeps-bind pre (guard_change-Same _ _ a.guard) λ _.
        Keeps-bind pre (or_missing-Same _ a.inventory) λ i.
          Keeps-bind pre (Keeps-attempt pre _) λ _. Keeps-bind pre (or_missing-Same _ _) λ pages.
            Keeps-bind pre (Keeps-attempt pre _) λ _. Keeps-bind pre (Keeps-attempt pre _) λ b.
              Keeps-bind pre (Keeps-attempt pre _) λ c.
                Keeps-bind pre (Keeps-attempt pre _)
                  λ _. Keeps-bind pre (Keeps-attempt pre _) λ _. Keeps-pure pre _
