-- ===== src/Effect/Cases.antt =====
-- What holds after a sequence that begins with a call which changes no state, at one state.
use tilda_mcp.Prelude.{◌≡◌, refl}
use tilda_mcp.Effect.Codes.{Failure}
use tilda_mcp.Effect.Check.{Result, ok, err}
use tilda_mcp.Effect.State.{Outcome, returned, threw, Exec, attempt, gets, modify, ◌>>=◌}

module _ {W A B : Type 0} (Q : Outcome W B → Type 0) (w : W) where
  pub attempt-cases :
      (r : Result A) (f : A → Exec W B)
      → ((a : A) → r ≡ ok a → Q (f a w))
      → ((e : Failure) → Q (threw e w))
      → Q ((attempt r >>= f) w)
  unfolding ◌>>=◌ attempt
  attempt-cases (ok a) f k l = k a refl
  attempt-cases (err e) f k l = l e

  pub gets-cases : (g : W → A) (f : A → Exec W B) → Q (f (g w) w) → Q ((gets g >>= f) w)
  unfolding ◌>>=◌ gets
  gets-cases g f k = k

module _ {W B : Type 0} (Q : Outcome W B → Type 0) (w : W) where
  pub modify-cases : (g : W → W) (f : Unit {0} → Exec W B) → Q (f tt (g w)) → Q ((modify g >>= f) w)
  unfolding ◌>>=◌ modify
  modify-cases g f k = k

module _ {W A B : Type 0} (f : A → Exec W B) (w : W) (e : Failure) where
  step-threw :
      (o : Outcome W A)
      → o ≡ threw e w
      → elim o [ returned a v ↦ f a v | threw d v ↦ threw d v ] ≡ threw e w
  step-threw (returned a v) h = cc
  step-threw (threw d v) h = cc

  -- A sequence ends where its first part throws.
  pub throws-then : (m : Exec W A) → m w ≡ threw e w → (m >>= f) w ≡ threw e w
  unfolding ◌>>=◌
  throws-then m h = step-threw (m w) h
