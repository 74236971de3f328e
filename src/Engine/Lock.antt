-- ===== src/Engine/Lock.antt =====
-- The lock of the store around every method (src/core/engine.ts, src/core/store.ts).
use tilda_mcp.Prelude.{◌≡◌, refl, ◌∙◌, ap, Bool, true, false, List, [], ◌∷◌}
use tilda_mcp.Effect.State.{Exec, Outcome, returned, threw, final, throw}
use tilda_mcp.Contracts.Adapters.{Host}
use tilda_mcp.Engine.World
use tilda_mcp.Engine.World.{World, set_lock, with_mutation_lock}
use tilda_mcp.Engine.Plan
use tilda_mcp.Engine.Apply
use tilda_mcp.Engine.Verify
use tilda_mcp.Engine.Rollback
use tilda_mcp.Engine.Session.{Call, plan, apply, verify, rollback, after_call, after}

module _ {E A : Type 0} (m : Exec (World E) A) where
  released : (o : Outcome (World E) A) → (final (World.unlock o)).store.locked ≡ false
  released (returned a w) = refl
  released (threw e w) = refl

  locked_run-lock :
      (b : Bool) (w : World E)
      → w.store.locked ≡ b
      → (final (World.locked_run b m w)).store.locked ≡ b
  unfolding World.locked_run throw
  locked_run-lock true w h = h
  locked_run-lock false w h = released (m (set_lock true w))

  with_mutation_lock-lock :
      (w : World E) → (final (with_mutation_lock m w)).store.locked ≡ w.store.locked
  unfolding with_mutation_lock
  with_mutation_lock-lock w = locked_run-lock w.store.locked w refl

  locked_run-held : (b : Bool) (w : World E) → b ≡ true → final (World.locked_run b m w) ≡ w
  unfolding World.locked_run throw
  locked_run-held true w h = refl
  locked_run-held false w h = cc

  with_mutation_lock-held :
      (w : World E) → w.store.locked ≡ true → final (with_mutation_lock m w) ≡ w
  unfolding with_mutation_lock
  with_mutation_lock-held w h = locked_run-held w.store.locked w h

module _ {E : Type 0} (host : Host E) where
  after_call-lock : (c : Call) (w : World E) → (after_call host c w).store.locked ≡ w.store.locked
  unfolding after_call Plan.plan Apply.apply Verify.verify Rollback.rollback
  after_call-lock (plan q key a) w = with_mutation_lock-lock _ w
  after_call-lock (apply id dry key) w = with_mutation_lock-lock _ w
  after_call-lock (verify id) w = with_mutation_lock-lock _ w
  after_call-lock (rollback id dry key) w = with_mutation_lock-lock _ w

  after_call-held : (c : Call) (w : World E) → w.store.locked ≡ true → after_call host c w ≡ w
  unfolding after_call Plan.plan Apply.apply Verify.verify Rollback.rollback
  after_call-held (plan q key a) w h = with_mutation_lock-held _ w h
  after_call-held (apply id dry key) w h = with_mutation_lock-held _ w h
  after_call-held (verify id) w h = with_mutation_lock-held _ w h
  after_call-held (rollback id dry key) w h = with_mutation_lock-held _ w h

  -- After any session the lock is as it was before: every method that takes it gives it back,
  -- also where it throws.
  pub after-lock : (cs : List Call) (w : World E) → (after host cs w).store.locked ≡ w.store.locked
  unfolding after
  after-lock [] w = refl
  after-lock (c ∷ cs) w = after-lock cs (after_call host c w) ∙ after_call-lock c w

  -- While another holder has the lock, no session changes anything: neither the store nor the
  -- vault nor what is outside.
  pub after-held : (cs : List Call) (w : World E) → w.store.locked ≡ true → after host cs w ≡ w
  unfolding after
  after-held [] w h = refl
  after-held (c ∷ cs) w h = ap (after host cs) (after_call-held c w h) ∙ after-held cs w h
