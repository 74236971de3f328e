-- ===== src/Effect/State.antt =====
-- Methods that change a state and return or throw. The control structure stays shut, and proofs
-- go through it by its rules.
use tilda_mcp.Prelude.{Bool, true, false}
use tilda_mcp.Effect.Codes.{Code, Failure, tilda}
use tilda_mcp.Effect.Check.{Result, ok, err, require, reject_if}

pub data Outcome (W A : Type 0) : Type 0 where
  returned : A → W → Outcome W A
  threw : Failure → W → Outcome W A

abbrev pub Exec : Type 0 → Type 0 → Type 0
Exec W A = W → Outcome W A

module _ {W A : Type 0} where
  abbrev pub final : Outcome W A → W
  final (returned a w) = w
  final (threw e w) = w

  unfoldable pub pure : A → Exec W A
  pure a w = returned a w

  unfoldable pub throw : Code → Exec W A
  throw c w = threw (tilda c) w

  -- A function with no effect, called in a method.
  unfoldable pub attempt : Result A → Exec W A
  attempt (ok a) w = returned a w
  attempt (err e) w = threw e w

  unfoldable pub gets : (W → A) → Exec W A
  gets f w = returned (f w) w

  -- `try { m } catch (e) { h }`.
  unfoldable pub try_catch : Exec W A → (Failure → Exec W A) → Exec W A
  try_catch m h w = elim (m w) [ returned a w' ↦ returned a w' | threw e w' ↦ h e w' ]

infixl 5 ◌>>=◌ ◌>>◌
unfoldable pub ◌>>=◌ : {W A B : Type 0} → Exec W A → (A → Exec W B) → Exec W B
◌>>=◌ m f w = elim (m w) [ returned a w' ↦ f a w' | threw e w' ↦ threw e w' ]

abbrev pub ◌>>◌ : {W A B : Type 0} → Exec W A → Exec W B → Exec W B
m >> k = m >>= λ _. k

-- The conditional of a method.
infix 1 if◌then◌else◌
unfoldable pub if◌then◌else◌ : {W A : Type 0} → Bool → Exec W A → Exec W A → Exec W A
if true then m else k = m
if false then m else k = k

module _ {W : Type 0} where
  abbrev pub guard : Bool → Code → Exec W (Unit {0})
  guard b c = attempt (require b c)

  abbrev pub throw_if : Bool → Code → Exec W (Unit {0})
  throw_if b c = attempt (reject_if b c)

  unfoldable pub modify : (W → W) → Exec W (Unit {0})
  modify f w = returned tt (f w)
