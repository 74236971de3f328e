-- ===== src/Manager/Uninterrupted.antt =====
-- While a lease is held nothing takes the authority away (src/core/task-authority-manager.ts).
use tilda_mcp.Prelude.{ℕ, ◌≡◌, refl, Option, none, some, true, false, List, [], ◌∷◌, All}
use tilda_mcp.Effect.Keeps.{
  IsPreorder, Keeps, Keeps-pure, Keeps-attempt, Keeps-bind, Keeps-catch, Keeps-if,
}
use tilda_mcp.Contracts.Targets.{PageTarget}
use tilda_mcp.Manager.State.{
  MintTaskAuthorityInput, ReferencePageReceipt, VerifiedReferenceInventoryTransition,
  ActiveAuthority, ManagedGuard, Process, AuthorityHost,
}
use tilda_mcp.Manager.Guarded.{
  release_dispatch, release_execution, take_dispatch, take_execution, begin_mutation_dispatch,
  begin_task_execution,
}
use tilda_mcp.Manager.Leases.{clear, current_receipt}
use tilda_mcp.Manager.Lifetime.{mint, replace}
use tilda_mcp.Manager.Lineage.{
  assert_reference_lineage_ready, begin_reference_inventory_mutation,
  end_reference_inventory_mutation, accept_transition,
}
use tilda_mcp.Manager.Session as Sessions
use tilda_mcp.Manager.Session.{Call, after_call, after}
use tilda_mcp.Manager.Same.{
  looks-Same, guard_active-Same, guard_change-Same, assert_no_mutation_dispatch-Same, required-Same,
  receipt_if-Same,
}
use tilda_mcp.Manager.Pinned.{
  Pin, dispatch, execution, lease_of, Holds, P, pre, same, stopped, no_transition, current-P, other,
  object,
}
use tilda_mcp.Manager.Exclusive.{
  Spares, take_dispatch-throws, take_execution-throws, other_dispatch, other_execution,
  other_reference, release_dispatch-P, release_execution-P, release_dispatch-spares,
  release_execution-spares,
}

module _ {E : Type 0} (host : AuthorityHost E) (lease : ℕ) (a : Option ActiveAuthority)
    (token : ℕ) where
  begin_dispatch-P :
      (pin : Pin) (g : ManagedGuard)
      → Keeps (P host pin lease a token) (begin_mutation_dispatch host g)
  unfolding begin_mutation_dispatch take_dispatch
  begin_dispatch-P dispatch g =
      Keeps-bind (pre host dispatch lease a token)
        (same host dispatch lease a token (guard_active-Same host g))
        λ _.
          stopped host dispatch lease a token (take_dispatch host g) _
            (take_dispatch-throws host lease a token g)
  begin_dispatch-P execution g =
      let q = pre host execution lease a token in
      Keeps-bind q (same host execution lease a token (guard_active-Same host g)) λ _.
        Keeps-bind q
          (Keeps-bind q (same host execution lease a token (looks-Same _)) λ stale.
            Keeps-bind q (Keeps-attempt q _) λ _.
              Keeps-bind q
                (same host execution lease a token (assert_no_mutation_dispatch-Same host))
                λ _. object host execution lease a token _ λ n.
                  Keeps-bind q
                    (other host execution lease a token _
                      (other_dispatch host lease a token (some n)))
                    λ _. Keeps-pure q n)
          (λ l.
            Keeps-catch q
              (Keeps-bind q (same host execution lease a token (guard_active-Same host g))
                λ _. Keeps-pure q l)
              (λ e. Keeps-bind q (release_dispatch-P host lease a token l) λ _. Keeps-attempt q _))

  begin_execution-P :
      (pin : Pin) (g : ManagedGuard)
      → Keeps (P host pin lease a token) (begin_task_execution host g)
  unfolding begin_task_execution take_execution
  begin_execution-P execution g =
      Keeps-bind (pre host execution lease a token)
        (same host execution lease a token (guard_active-Same host g))
        λ _.
          stopped host execution lease a token (take_execution host g) _
            (take_execution-throws host lease a token g)
  begin_execution-P dispatch g =
      let q = pre host dispatch lease a token in
      Keeps-bind q (same host dispatch lease a token (guard_active-Same host g)) λ _.
        Keeps-bind q
          (Keeps-bind q (same host dispatch lease a token (looks-Same _)) λ stale.
            Keeps-bind q (Keeps-attempt q _) λ _.
              Keeps-bind q (same host dispatch lease a token (looks-Same _)) λ busy.
                Keeps-bind q (Keeps-attempt q _) λ _. object host dispatch lease a token _ λ n.
                  Keeps-bind q
                    (other host dispatch lease a token _
                      (other_execution host lease a token (some n)))
                    λ _. Keeps-pure q n)
          (λ l.
            Keeps-catch q
              (Keeps-bind q (same host dispatch lease a token (guard_active-Same host g))
                λ _. Keeps-pure q l)
              (λ e. Keeps-bind q (release_execution-P host lease a token l) λ _. Keeps-attempt q _))

  module _ (pin : Pin) where
    abbrev q : IsPreorder (P host pin lease a token)
    q = pre host pin lease a token

    begin_reference-P :
        (s : PageTarget) (r : Option ReferencePageReceipt)
        → Keeps (P host pin lease a token) (begin_reference_inventory_mutation host s r)
    unfolding begin_reference_inventory_mutation assert_reference_lineage_ready
    begin_reference-P s r = Keeps-bind q (same host pin lease a token (looks-Same _)) λ busy.
        Keeps-bind q (Keeps-attempt q _) λ _.
          Keeps-bind q
            (Keeps-bind q (current-P host pin lease a token) λ found.
              Keeps-bind q (same host pin lease a token (required-Same host found)) λ x.
                Keeps-bind q (same host pin lease a token (guard_change-Same host _ _ x.guard)) λ _.
                  Keeps-bind q (same host pin lease a token (guard_change-Same host _ _ x.guard))
                    λ _.
                      Keeps-bind q (Keeps-attempt q _)
                        λ _. Keeps-bind q (Keeps-attempt q _) λ _. Keeps-attempt q _)
            (λ _. object host pin lease a token _ λ n.
              Keeps-bind q
                (other host pin lease a token _ (other_reference host lease a token pin (some n)))
                λ _. Keeps-pure q n)

    end_reference-P :
        (k : ℕ) → Keeps (P host pin lease a token) (end_reference_inventory_mutation host k)
    unfolding end_reference_inventory_mutation
    end_reference-P k = Keeps-bind q (same host pin lease a token (looks-Same _)) λ mine.
        Keeps-if _ (other host pin lease a token _ (other_reference host lease a token pin none))
          (Keeps-pure q tt)

    current_receipt-P : Keeps (P host pin lease a token) (current_receipt host)
    unfolding current_receipt
    current_receipt-P =
        Keeps-bind q (current-P host pin lease a token)
          λ x. same host pin lease a token (receipt_if-Same host x)

    mint-P : (input : MintTaskAuthorityInput) → Keeps (P host pin lease a token) (mint host input)
    unfolding mint
    mint-P input = no_transition host pin lease a token false _

    replace-P :
        (input : MintTaskAuthorityInput) → Keeps (P host pin lease a token) (replace host input)
    unfolding replace
    replace-P input = no_transition host pin lease a token false _

    clear-P : Keeps (P host pin lease a token) (clear host)
    unfolding clear
    clear-P = no_transition host pin lease a token false _

    accept-P :
        (x : VerifiedReferenceInventoryTransition)
        → Keeps (P host pin lease a token) (accept_transition host x)
    unfolding accept_transition
    accept-P x = no_transition host pin lease a token true _

  release_dispatch-at :
      (pin : Pin) (k : ℕ)
      → Spares pin lease (Sessions.release_dispatch k)
      → Keeps (P host pin lease a token) (release_dispatch host k)
  release_dispatch-at dispatch k spared = release_dispatch-spares host lease a token k spared
  release_dispatch-at execution k spared = release_dispatch-P host lease a token k

  release_execution-at :
      (pin : Pin) (k : ℕ)
      → Spares pin lease (Sessions.release_execution k)
      → Keeps (P host pin lease a token) (release_execution host k)
  release_execution-at dispatch k spared = release_execution-P host lease a token k
  release_execution-at execution k spared = release_execution-spares host lease a token k spared

  call-P :
      (pin : Pin) (c : Call) (w : Process E)
      → Spares pin lease c
      → P host pin lease a token w (after_call host c w)
  unfolding after_call
  call-P pin (Sessions.mint input) w s = (mint-P pin input).at w
  call-P pin (Sessions.replace input) w s = (replace-P pin input).at w
  call-P pin Sessions.clear w s = (clear-P pin).at w
  call-P pin Sessions.current_guard w s = (current-P host pin lease a token).at w
  call-P pin Sessions.current_receipt w s = (current_receipt-P pin).at w
  call-P pin (Sessions.guard_change op x g) w s =
      (same host pin lease a token (guard_change-Same host op x g)).at w
  call-P pin (Sessions.begin_dispatch g) w s = (begin_dispatch-P pin g).at w
  call-P pin (Sessions.begin_execution g) w s = (begin_execution-P pin g).at w
  call-P pin (Sessions.release_dispatch k) w s = (release_dispatch-at pin k s).at w
  call-P pin (Sessions.release_execution k) w s = (release_execution-at pin k s).at w
  call-P pin (Sessions.begin_reference x r) w s = (begin_reference-P pin x r).at w
  call-P pin (Sessions.end_reference k) w s = (end_reference-P pin k).at w
  call-P pin (Sessions.accept x) w s = (accept-P pin x).at w

  after-P :
      (pin : Pin) (cs : List Call) (w : Process E)
      → All (Spares pin lease) cs
      → P host pin lease a token w (after host cs w)
  unfolding after
  after-P pin [] w s h = h
  after-P pin (c ∷ cs) w (s, ss) h = after-P pin cs (after_call host c w) ss (call-P pin c w s h)

-- While a dispatch lease or an execution lease is held, no call but the release of that lease
-- takes it away, and the active authority and its token stay as they are: nothing mints, replaces,
-- clears, rebinds or expires the authority, in any session of calls.
pub after-Holds :
    {E : Type 0} (host : AuthorityHost E) (pin : Pin) (lease : ℕ) (cs : List Call) (w : Process E)
    → lease_of pin w.manager ≡ some lease
    → All (Spares pin lease) cs
    → Holds pin lease w.manager.active w.manager.revocation_token (after host cs w).manager
after-Holds host pin lease cs w held spared =
    after-P host lease w.manager.active w.manager.revocation_token pin cs w spared
      (record { authority = refl; same_token = refl; held = held })
