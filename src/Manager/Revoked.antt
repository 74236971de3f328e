-- ===== src/Manager/Revoked.antt =====
-- A guard that is revoked stays revoked (src/core/task-authority-manager.ts).
use tilda_mcp.Prelude.{ℕ, refl, Option, Bool, true, false, List, [], ◌∷◌}
use tilda_mcp.Effect.Keeps.{Keeps, Keeps-pure, Keeps-attempt, Keeps-bind, Keeps-catch, Keeps-if}
use tilda_mcp.Contracts.Targets.{PageTarget}
use tilda_mcp.Manager.State.{
  ReferencePageReceipt, VerifiedReferenceInventoryTransition, ManagedGuard, Process, AuthorityHost,
}
use tilda_mcp.Manager.Guarded.{
  release_dispatch, release_execution, take_dispatch, take_execution, begin_mutation_dispatch,
  begin_task_execution,
}
use tilda_mcp.Manager.Lineage.{
  assert_reference_lineage_ready, begin_reference_inventory_mutation,
  end_reference_inventory_mutation, consume_receipt, consume_if, accept_transition,
}
use tilda_mcp.Manager.Session as Sessions
use tilda_mcp.Manager.Session.{Call, after_call, after}
use tilda_mcp.Manager.Same.{
  looks-Same, now_ms-Same, receipt_of-Same, guard_active-Same, guard_change-Same,
  assert_no_mutation_dispatch-Same, assert_no_authority_transition-Same, required-Same,
  activate_grant-Same, or_throw-Same, verified_inventory-Same,
}
use tilda_mcp.Manager.Tokens.{
  R, pre, same, other, object, current-R, install-R, mint-R, replace-R, clear-R, current_receipt-R,
}

module _ {E : Type 0} (t : ℕ) (host : AuthorityHost E) where
  release_dispatch-R : (lease : ℕ) → Keeps (R t) (release_dispatch host lease)
  unfolding release_dispatch
  release_dispatch-R lease =
      Keeps-bind (pre t) (same t (looks-Same _))
        λ mine. Keeps-if _ (other t _ λ m. (refl, refl)) (Keeps-pure (pre t) tt)

  release_execution-R : (lease : ℕ) → Keeps (R t) (release_execution host lease)
  unfolding release_execution
  release_execution-R lease =
      Keeps-bind (pre t) (same t (looks-Same _))
        λ mine. Keeps-if _ (other t _ λ m. (refl, refl)) (Keeps-pure (pre t) tt)

  begin_dispatch-R : (g : ManagedGuard) → Keeps (R t) (begin_mutation_dispatch host g)
  unfolding begin_mutation_dispatch take_dispatch
  begin_dispatch-R g = Keeps-bind (pre t) (same t (guard_active-Same host g)) λ _.
      Keeps-bind (pre t)
        (Keeps-bind (pre t) (same t (looks-Same _)) λ stale.
          Keeps-bind (pre t) (Keeps-attempt (pre t) _) λ _.
            Keeps-bind (pre t) (same t (assert_no_mutation_dispatch-Same host)) λ _.
              object t _
                λ n new. Keeps-bind (pre t) (other t _ λ m. (refl, refl)) λ _. Keeps-pure (pre t) n)
        (λ lease.
          Keeps-catch (pre t)
            (Keeps-bind (pre t) (same t (guard_active-Same host g)) λ _. Keeps-pure (pre t) lease)
            (λ e. Keeps-bind (pre t) (release_dispatch-R lease) λ _. Keeps-attempt (pre t) _))

  begin_execution-R : (g : ManagedGuard) → Keeps (R t) (begin_task_execution host g)
  unfolding begin_task_execution take_execution
  begin_execution-R g = Keeps-bind (pre t) (same t (guard_active-Same host g)) λ _.
      Keeps-bind (pre t)
        (Keeps-bind (pre t) (same t (looks-Same _)) λ stale.
          Keeps-bind (pre t) (Keeps-attempt (pre t) _) λ _.
            Keeps-bind (pre t) (same t (looks-Same _)) λ busy.
              Keeps-bind (pre t) (Keeps-attempt (pre t) _) λ _.
                object t _ λ n new.
                  Keeps-bind (pre t) (other t _ λ m. (refl, refl)) λ _. Keeps-pure (pre t) n)
        (λ lease.
          Keeps-catch (pre t)
            (Keeps-bind (pre t) (same t (guard_active-Same host g)) λ _. Keeps-pure (pre t) lease)
            (λ e. Keeps-bind (pre t) (release_execution-R lease) λ _. Keeps-attempt (pre t) _))

  begin_reference-R :
      (s : PageTarget) (r : Option ReferencePageReceipt)
      → Keeps (R t) (begin_reference_inventory_mutation host s r)
  unfolding begin_reference_inventory_mutation assert_reference_lineage_ready
  begin_reference-R s r = Keeps-bind (pre t) (same t (looks-Same _)) λ busy.
      Keeps-bind (pre t) (Keeps-attempt (pre t) _) λ _.
        Keeps-bind (pre t)
          (Keeps-bind (pre t) (current-R t host) λ found.
            Keeps-bind (pre t) (same t (required-Same host found)) λ a.
              Keeps-bind (pre t) (same t (guard_change-Same host _ _ a.guard)) λ _.
                Keeps-bind (pre t) (same t (guard_change-Same host _ _ a.guard)) λ _.
                  Keeps-bind (pre t) (Keeps-attempt (pre t) _)
                    λ _. Keeps-bind (pre t) (Keeps-attempt (pre t) _) λ _. Keeps-attempt (pre t) _)
          (λ _.
            object t _
              λ n new. Keeps-bind (pre t) (other t _ λ m. (refl, refl)) λ _. Keeps-pure (pre t) n)

  end_reference-R : (lease : ℕ) → Keeps (R t) (end_reference_inventory_mutation host lease)
  unfolding end_reference_inventory_mutation
  end_reference-R lease =
      Keeps-bind (pre t) (same t (looks-Same _))
        λ mine. Keeps-if _ (other t _ λ m. (refl, refl)) (Keeps-pure (pre t) tt)

  consume_if-R : (b : Bool) (r : ReferencePageReceipt) → Keeps (R t) (consume_if host b r)
  unfolding consume_if consume_receipt
  consume_if-R false r = Keeps-pure (pre t) tt
  consume_if-R true r =
      Keeps-bind (pre t)
        (Keeps-bind (pre t) (same t (looks-Same _)) λ eligible.
          Keeps-bind (pre t) (other t _ λ m. (refl, refl)) λ _. Keeps-pure (pre t) eligible)
        (λ consumed. Keeps-attempt (pre t) _)

  accept-R : (x : VerifiedReferenceInventoryTransition) → Keeps (R t) (accept_transition host x)
  unfolding accept_transition
  accept-R x = Keeps-bind (pre t) (same t (assert_no_authority_transition-Same host true)) λ _.
      Keeps-bind (pre t) (current-R t host) λ found.
        Keeps-bind (pre t) (same t (required-Same host found)) λ a.
          Keeps-bind (pre t) (same t (receipt_of-Same host a.guard)) λ held.
            Keeps-bind (pre t) (same t (looks-Same _)) λ mine.
              Keeps-bind (pre t) (Keeps-attempt (pre t) _) λ _.
                Keeps-bind (pre t) (Keeps-attempt (pre t) _) λ _.
                  Keeps-bind (pre t) (same t (verified_inventory-Same host x a)) λ i.
                    Keeps-bind (pre t) (same t (or_throw-Same host _ _)) λ digest.
                      object t _ λ n new. Keeps-bind (pre t) (same t (now_ms-Same host)) λ now.
                        Keeps-bind (pre t) (same t (activate_grant-Same host _ _ n now _))
                          λ b. Keeps-bind (pre t) (consume_if-R _ _) λ _. install-R t host n b new

  call-R : (c : Call) (w : Process E) → R t w (after_call host c w)
  unfolding after_call
  call-R (Sessions.mint input) w = (mint-R t host input).at w
  call-R (Sessions.replace input) w = (replace-R t host input).at w
  call-R Sessions.clear w = (clear-R t host).at w
  call-R Sessions.current_guard w = (current-R t host).at w
  call-R Sessions.current_receipt w = (current_receipt-R t host).at w
  call-R (Sessions.guard_change op x g) w = (same t (guard_change-Same host op x g)).at w
  call-R (Sessions.begin_dispatch g) w = (begin_dispatch-R g).at w
  call-R (Sessions.begin_execution g) w = (begin_execution-R g).at w
  call-R (Sessions.release_dispatch lease) w = (release_dispatch-R lease).at w
  call-R (Sessions.release_execution lease) w = (release_execution-R lease).at w
  call-R (Sessions.begin_reference s r) w = (begin_reference-R s r).at w
  call-R (Sessions.end_reference lease) w = (end_reference-R lease).at w
  call-R (Sessions.accept x) w = (accept-R x).at w

  pub after-R : (cs : List Call) (w : Process E) → R t w (after host cs w)
  unfolding after
  after-R [] w h = h
  after-R (c ∷ cs) w h = after-R cs (after_call host c w) (call-R c w h)
