-- ===== src/Effect/Dead.antt =====
-- Methods that never return: what comes after them does not run.
use tilda_mcp.Prelude.{◌≡◌, refl}
use tilda_mcp.Effect.Codes.{Failure}
use tilda_mcp.Effect.State.{Outcome, returned, threw, Exec, final, ◌>>=◌}
use tilda_mcp.Effect.Ensures.{OnReturn}

pub dead_end :
    {W A : Type 0} (o : Outcome W A) → OnReturn (λ _. ⊥) o → (e : Failure) × (o ≡ threw e (final o))
dead_end (returned a w) h = elim h [ ]
dead_end (threw e w) h = (e, refl)

-- After a method that does not return nothing happens.
pub dead-then :
    {W A B : Type 0} (m : Exec W A) (f : A → Exec W B) (w : W)
    → OnReturn (λ _. ⊥) (m w)
    → (e : Failure) × ((m >>= f) w ≡ threw e (final (m w)))
unfolding ◌>>=◌
dead-then {W} {A} {B} m f w h = go (m w) h
  where
    go :
        (o : Outcome W A)
        → OnReturn (λ _. ⊥) o
        → (e : Failure) × (elim o [ returned a v ↦ f a v | threw d v ↦ threw d v ]
            ≡ threw e (final o))
    go (returned a v) k = elim k [ ]
    go (threw d v) k = (d, refl)
