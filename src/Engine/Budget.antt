-- ===== src/Engine/Budget.antt =====
-- The first attempts of `apply` and `rollback` against the claims that pay for them
-- (src/core/engine.ts).
use mathlib.Core.List.{Memᴰ}
use tilda_mcp.Prelude.{ℕ, ◌+◌, ◌*◌, ◌≤◌, String, ap, Option, List, arith, length}
use tilda_mcp.Effect.Check.{require}
use tilda_mcp.Effect.Codes.{recovery_required}
use tilda_mcp.Effect.State.{Exec, Outcome, returned, threw, final, attempt, ◌>>=◌}
use tilda_mcp.Effect.Keeps.{
  Keeps, Keeps-pure, Keeps-attempt, Keeps-bind, Keeps-bind-both, Keeps-catch-both, Keeps-if,
}
use tilda_mcp.Contracts.Adapters.{AdapterState, ChangeAdapter, Host}
use tilda_mcp.Contracts.Records.{ChangeSetRecord}
use tilda_mcp.Dict.{Dict}
use tilda_mcp.Store.{Store, Action, apply, rollback, ActionClaim}
use tilda_mcp.Store.Claims.{unclaimed, Claim, claimed_now, replayed}
use tilda_mcp.Store.Attempts.{claim_action_idempotency}
use tilda_mcp.Store.Claimed.{Added, Earned, claim-Earned}
use tilda_mcp.Engine.World
use tilda_mcp.Engine.World.{World, VolatileChangeMaterial, on_store}
use tilda_mcp.Engine.Outcomes.{is_claimed_now}
use tilda_mcp.Engine.Apply.{recover_with, apply_recover, dispatch_apply, apply_attempt}
use tilda_mcp.Engine.Rollback.{dispatch_restore, rollback_remote, rollback_attempt}
use tilda_mcp.Engine.Quiet.{diagnostic_read-Keeps, get-Keeps}
use tilda_mcp.Engine.Walk.{
  apply_recover-Keeps, settle_apply-Keeps, settle_restore-Keeps, settle_rollback-Keeps, apply-Keeps,
  verify-Keeps, rollback-Keeps,
}
use tilda_mcp.Engine.WalkPlan.{plan-Keeps}
use tilda_mcp.Engine.Session.{Call, after, after-Keeps}
use tilda_mcp.Engine.Once.{
  Meter, budget, Paid, store_step, costs_add, free, then_free, Paid-preorder, Paid-quiet,
  Paid-plan_quiet, apply-Paid, restore-Paid,
}

module _ {E : Type 0} {host : Host E} (m : Meter host) where
  -- What a claim of the action pays for.
  abbrev cost : Action → ℕ
  cost apply = m.apply_cost + m.restore_cost
  cost rollback = m.restore_cost

  pays :
      (action : Action) (w : World E) (s : Store) (v : World E)
      → Added action w.store s
      → Paid m (cost action) (record w { store = s }) v
      → Paid m 0 w v
  pays apply w s v e h = omega (
    arith,
    ap (λ (n : ℕ). (m.apply_cost + m.restore_cost) * n) e.0,
    ap (λ (d : Dict ActionClaim). m.restore_cost * length d) e.1,
  )
  pays rollback w s v e h = omega (
    arith,
    ap (λ (n : ℕ). m.restore_cost * n) e.0,
    ap (λ (d : Dict ActionClaim). (m.apply_cost + m.restore_cost) * length d) e.1,
  )

  claim_pays :
      {A : Type 0} (action : Action) (rest : Exec (World E) A) (w : World E)
      (o : Outcome Store Claim)
      → Keeps (Paid m (cost action)) rest
      → Earned action w.store o
      → Paid m 0 w (
          final (elim (World.with_store w o) [
            | returned c v ↦
                (attempt (require (is_claimed_now c) recovery_required) >>= λ _. rest) v
            | threw e v ↦ threw e v
          ]))
  unfolding ◌>>=◌ attempt
  claim_pays apply rest w (returned claimed_now s) h e =
      pays apply w s (final (rest (record w { store = s }))) e (h.at (record w { store = s }))
  claim_pays rollback rest w (returned claimed_now s) h e =
      pays rollback w s (final (rest (record w { store = s }))) e (h.at (record w { store = s }))
  claim_pays action rest w (returned replayed s) h e = store_step m w (returned replayed s) e
  claim_pays action rest w (threw f s) h e = store_step m {A = Claim} w (threw f s) e

  pub claim_then :
      {A : Type 0} (action : Action) (key id : String) (rest : Exec (World E) A)
      → Keeps (Paid m (cost action)) rest
      → Keeps (Paid m 0) (
          on_store (claim_action_idempotency host.platform key action id) >>= λ c.
          attempt (require (is_claimed_now c) recovery_required) >>= λ _. rest)
  unfolding ◌>>=◌ on_store
  claim_then action key id rest h = record {
    at = λ w.
        unfold ◌>>=◌ in
        claim_pays action rest w _ h (claim-Earned host.platform key action id w.store);
  }

  module _ (a : ChangeAdapter E) (known : Memᴰ a host.adapters) where
    dispatch_apply-Paid :
        (material : VolatileChangeMaterial) (r : ChangeSetRecord)
        → Keeps (Paid m m.apply_cost) (dispatch_apply host a material r)
    unfolding dispatch_apply
    dispatch_apply-Paid material r =
        Keeps-catch-both (λ u v p. p)
          (λ u v w p q. omega (arith, costs_add m m.apply_cost 0 u v w p q))
          (then_free m m.apply_cost (apply-Paid m a known _) λ after.
            Keeps-bind (Paid-preorder m) (Keeps-attempt (Paid-preorder m) _)
              λ _. Keeps-pure (Paid-preorder m) _)
          (λ e.
            Keeps-bind (Paid-preorder m) (diagnostic_read-Keeps (Paid-quiet m) a known _)
              λ after. Keeps-pure (Paid-preorder m) _)

    recover_with-Paid :
        (r : ChangeSetRecord) (before : AdapterState)
        → Keeps (Paid m m.restore_cost) (recover_with host a r before)
    unfolding recover_with
    recover_with-Paid r before =
        Keeps-catch-both (λ u v p. p)
          (λ u v w p q. omega (arith, costs_add m m.restore_cost 0 u v w p q))
          (then_free m m.restore_cost (restore-Paid m a known _ before) λ candidate.
            Keeps-bind (Paid-preorder m) (Keeps-attempt (Paid-preorder m) _)
              λ _. diagnostic_read-Keeps (Paid-quiet m) a known _)
          (λ e. diagnostic_read-Keeps (Paid-quiet m) a known _)

    dispatch_restore-Paid :
        (before : AdapterState) (r : ChangeSetRecord)
        → Keeps (Paid m m.restore_cost) (dispatch_restore host a before r)
    unfolding dispatch_restore
    dispatch_restore-Paid before r =
        Keeps-catch-both (λ u v p. p)
          (λ u v w p q. omega (arith, costs_add m m.restore_cost 0 u v w p q))
          (then_free m m.restore_cost (restore-Paid m a known _ before) λ candidate.
            Keeps-bind (Paid-preorder m) (Keeps-attempt (Paid-preorder m) _) λ _.
              Keeps-bind (Paid-preorder m) (diagnostic_read-Keeps (Paid-quiet m) a known _)
                λ restored. Keeps-pure (Paid-preorder m) _)
          (λ e.
            Keeps-bind (Paid-preorder m) (diagnostic_read-Keeps (Paid-quiet m) a known _)
              λ restored. Keeps-pure (Paid-preorder m) _)

    apply_recover-Paid :
        (before : AdapterState) (r : ChangeSetRecord) (after : Option AdapterState)
        → Keeps (Paid m m.restore_cost) (apply_recover host a before r after)
    unfolding apply_recover
    apply_recover-Paid before r after =
        then_free m m.restore_cost (recover_with-Paid r before)
          (apply_recover-Keeps (Paid-quiet m) r after)

    first_apply-Paid :
        (material : VolatileChangeMaterial) (key : String) (r : ChangeSetRecord)
        (fresh : AdapterState)
        → Keeps (Paid m 0) (apply_attempt host a material key r fresh unclaimed)
    unfolding apply_attempt
    first_apply-Paid material key r fresh =
        Keeps-bind (Paid-preorder m) (Keeps-attempt (Paid-preorder m) _) λ _.
          Keeps-bind (Paid-preorder m) (Keeps-attempt (Paid-preorder m) _) λ _.
            claim_then apply key r.change_set_id _ (
              Keeps-bind-both (λ u v p. omega arith) (costs_add m m.apply_cost m.restore_cost)
                (dispatch_apply-Paid material r)
                (λ d.
                  settle_apply-Keeps (Paid-quiet m) a material.before r d (λ u v p. omega arith)
                    (apply_recover-Paid material.before r d.after)))

    rollback_remote-Paid :
        (key : String) (r : ChangeSetRecord) → Keeps (Paid m 0) (rollback_remote host a key r)
    unfolding rollback_remote
    rollback_remote-Paid key r =
        Keeps-bind (Paid-preorder m) (get-Keeps (Paid-quiet m) _) λ material.
          Keeps-bind (Paid-preorder m) (Keeps-attempt (Paid-preorder m) _) λ _.
            claim_then rollback key r.change_set_id _ (
              then_free m m.restore_cost (dispatch_restore-Paid material.before r)
                (settle_restore-Keeps (Paid-quiet m) r))

    first_rollback-Paid :
        (key : String) (r : ChangeSetRecord) (fresh : AdapterState)
        → Keeps (Paid m 0) (rollback_attempt host a key r fresh unclaimed)
    unfolding rollback_attempt
    first_rollback-Paid key r fresh =
        Keeps-bind (Paid-preorder m) (Keeps-attempt (Paid-preorder m) _) λ _.
          Keeps-if _ (rollback_remote-Paid key r) (
            claim_then rollback key r.change_set_id _
              (free m m.restore_cost (settle_rollback-Keeps (Paid-quiet m) r _ _ _)))

  -- By any count of writes that reads, the clock and random identifiers leave alone: over any
  -- session, whatever its calls and their outcomes, what was written to targets is covered by the
  -- claims that the session has added to the store, for each apply claim the cost of one apply and
  -- one restore, for each rollback claim the cost of one restore.
  pub after-Paid :
      (cs : List Call) (w : World E)
      → m.writes (after host cs w).outside + budget m w.store
        ≤ m.writes w.outside + budget m (after host cs w).store
  after-Paid cs w = omega (
    arith,
    after-Keeps host (Paid-preorder m)
        (λ request key authority. plan-Keeps (Paid-plan_quiet m) request authority key)
        (apply-Keeps (Paid-quiet m) first_apply-Paid) (verify-Keeps (Paid-quiet m))
        (rollback-Keeps (Paid-quiet m) first_rollback-Paid) cs w,
  )
