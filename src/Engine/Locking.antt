-- ===== src/Engine/Locking.antt =====
-- What a method keeps, it keeps under the mutation lock (`withMutationLock`, src/core/store.ts).
use tilda_mcp.Prelude.{Bool, true, false}
use tilda_mcp.Effect.State.{Exec, Outcome, returned, threw, final, throw}
use tilda_mcp.Effect.Ensures.{OnReturn, Ensures}
use tilda_mcp.Effect.Keeps.{IsPreorder, Keeps}
use tilda_mcp.Engine.World
use tilda_mcp.Engine.World.{World, set_lock, with_mutation_lock}

module _ {E : Type 0} {R : World E → World E → Type 0} (pre : IsPreorder R)
    (lock : (b : Bool) (w : World E) → R w (set_lock b w)) where
  unlock_step :
      {A : Type 0} (w : World E) (o : Outcome (World E) A)
      → R w (final o)
      → R w (final (World.unlock o))
  unlock_step w (returned a v) h = pre.transitive w v _ h (lock false v)
  unlock_step w (threw e v) h = pre.transitive w v _ h (lock false v)

  lock_step :
      {A : Type 0} {m : Exec (World E) A}
      → Keeps R m
      → (b : Bool) (w : World E) → R w (final (World.locked_run b m w))
  unfolding World.locked_run throw
  lock_step h true w = pre.reflexive w
  lock_step {m} h false w =
      unlock_step w (m (set_lock true w))
        (pre.transitive w _ _ (lock true w) (h.at (set_lock true w)))

  pub with_mutation_lock-Keeps :
      {A : Type 0} {m : Exec (World E) A} → Keeps R m → Keeps R (with_mutation_lock m)
  unfolding with_mutation_lock
  with_mutation_lock-Keeps h = record { at = λ w. lock_step h w.store.locked w }

-- What a method ensures of its result, it ensures under the lock.
module _ {E : Type 0} where
  locked-Ensures :
      {A : Type 0} {P : A → Type 0} {m : Exec (World E) A}
      → Ensures P m
      → (b : Bool) (w : World E) → OnReturn P (World.locked_run b m w)
  unfolding World.locked_run throw
  locked-Ensures h true w = tt
  locked-Ensures {A} {P} {m} h false w = unensures_step (m (World.set_lock true w)) (h.at _)
    where
      unensures_step : (o : Outcome (World E) A) → OnReturn P o → OnReturn P (World.unlock o)
      unensures_step (returned a v) p = p
      unensures_step (threw e v) p = tt

  pub with_mutation_lock-Ensures :
      {A : Type 0} {P : A → Type 0} {m : Exec (World E) A}
      → Ensures P m
      → Ensures P (with_mutation_lock m)
  unfolding with_mutation_lock
  with_mutation_lock-Ensures h = record { at = λ w. locked-Ensures h w.store.locked w }
