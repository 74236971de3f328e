-- ===== src/Effect/Ensures.antt =====
-- What the result of a method satisfies whenever the method returns, from any state.
use tilda_mcp.Prelude.{◌≡◌, refl, Bool, true, false}
use mathlib.Core.Path.{subst}
use tilda_mcp.Effect.Codes.{Code, Failure}
use tilda_mcp.Effect.Check.{Result, ok, err}
use tilda_mcp.Effect.State.{
  Outcome, returned, threw, Exec, pure, throw, attempt, try_catch, if◌then◌else◌, ◌>>=◌,
}

abbrev pub OnReturn : {W A : Type 0} → (A → Type 0) → Outcome W A → Type 0
OnReturn P (returned a w) = P a
OnReturn P (threw e w) = Unit

pub record Ensures {W A : Type 0} (P : A → Type 0) (m : Exec W A) : Type 0 where
  pub at : (w : W) → OnReturn P (m w)

any_result : {W B : Type 0} (m : Exec W B) → Ensures (λ _. Unit {0}) m
any_result m = record { at = λ w. go (m w) }
  where
    go : {W B : Type 0} (o : Outcome W B) → OnReturn (λ _. Unit {0}) o
    go (returned b w) = tt
    go (threw e w) = tt

module _ {W A : Type 0} {P : A → Type 0} where
  pub Ensures-pure : (a : A) → P a → Ensures {W = W} P (pure a)
  unfolding pure
  Ensures-pure a h = record { at = λ w. h }

  pub Ensures-throw : (c : Code) → Ensures {W = W} P (throw c)
  unfolding throw
  Ensures-throw c = record { at = λ w. tt }

  bind_step :
      {B : Type 0} {Q : B → Type 0} (f : B → Exec W A) (o : Outcome W B)
      → OnReturn Q o
      → ((b : B) → Q b → Ensures P (f b))
      → OnReturn P (elim o [ returned b w' ↦ f b w' | threw e w' ↦ threw e w' ])
  bind_step f (returned b w') q h = (h b q).at w'
  bind_step f (threw e w') q h = tt

  pub Ensures-bind-both :
      {B : Type 0} {Q : B → Type 0} {m : Exec W B} {f : B → Exec W A}
      → Ensures Q m
      → ((b : B) → Q b → Ensures P (f b))
      → Ensures P (m >>= f)
  unfolding ◌>>=◌
  Ensures-bind-both {m} {f} k h = record { at = λ w. bind_step f (m w) (k.at w) h }

  pub Ensures-bind :
      {B : Type 0} (m : Exec W B) {f : B → Exec W A}
      → ((b : B) → Ensures P (f b))
      → Ensures P (m >>= f)
  Ensures-bind m h = Ensures-bind-both (any_result m) (λ b _. h b)

  pub Ensures-bind-attempt :
      {B : Type 0} (r : Result B) {f : B → Exec W A}
      → ((b : B) → r ≡ ok b → Ensures P (f b))
      → Ensures P (attempt r >>= f)
  unfolding ◌>>=◌ attempt
  Ensures-bind-attempt (ok b) h = record { at = λ w. (h b refl).at w }
  Ensures-bind-attempt (err e) h = record { at = λ w. tt }

  pub Ensures-if :
      (b : Bool) {m k : Exec W A}
      → (b ≡ true → Ensures P m)
      → (b ≡ false → Ensures P k)
      → Ensures P (if b then m else k)
  unfolding if◌then◌else◌
  Ensures-if true h l = h refl
  Ensures-if false h l = l refl

module _ {W A : Type 0} {P : A → Type 0} (h : Failure → Exec W A) where
  catch_step :
      (o : Outcome W A)
      → OnReturn P o
      → ((e : Failure) → Ensures P (h e))
      → OnReturn P (elim o [ returned a w' ↦ returned a w' | threw e w' ↦ h e w' ])
  catch_step (returned a w') p k = p
  catch_step (threw e w') p k = (k e).at w'

pub Ensures-catch :
    {W A : Type 0} {P : A → Type 0} {m : Exec W A} {h : Failure → Exec W A}
    → Ensures P m
    → ((e : Failure) → Ensures P (h e))
    → Ensures P (try_catch m h)
unfolding try_catch
Ensures-catch {m} {h} k l = record { at = λ w. catch_step h (m w) (k.at w) l }

weaken_step :
    {W A : Type 0} {P Q : A → Type 0} (o : Outcome W A)
    → ((a : A) → P a → Q a)
    → OnReturn P o
    → OnReturn Q o
weaken_step (returned a w) h p = h a p
weaken_step (threw e w) h p = tt

pub Ensures-weaken :
    {W A : Type 0} {P Q : A → Type 0} {m : Exec W A}
    → ((a : A) → P a → Q a)
    → Ensures P m
    → Ensures Q m
Ensures-weaken {m} h k = record { at = λ w. weaken_step (m w) h (k.at w) }

pub on_returned :
    {W A : Type 0} (P : A → Type 0) {o : Outcome W A} {a : A} {w : W}
    → o ≡ returned a w
    → OnReturn P o
    → P a
on_returned P h p = subst (λ o. OnReturn P o) h p
