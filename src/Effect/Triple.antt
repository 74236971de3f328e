-- ===== src/Effect/Triple.antt =====
-- What holds of the result and of the state where a method returns, from what holds before it.
use mathlib.Core.Path.{subst}
use tilda_mcp.Prelude.{◌≡◌, refl, Bool, true, false}
use tilda_mcp.Effect.Codes.{Code, Failure}
use tilda_mcp.Effect.Check.{Result, ok, err}
use tilda_mcp.Effect.State.{
  Outcome, returned, threw, Exec, pure, throw, attempt, try_catch, if◌then◌else◌, ◌>>=◌,
}

abbrev pub Ends : {W A : Type 0} → (A → W → Type 0) → Outcome W A → Type 0
Ends Q (returned a w) = Q a w
Ends Q (threw e w) = Unit

pub record Triple {W A : Type 0} (P : W → Type 0) (Q : A → W → Type 0) (m : Exec W A) : Type 0 where
  pub at : (w : W) → P w → Ends Q (m w)

-- Nothing is asked before.
abbrev pub Always : {W : Type 0} → W → Type 0
Always w = Unit

module _ {W A : Type 0} {Q : A → W → Type 0} where
  bind_step :
      {B : Type 0} {R : B → W → Type 0} (f : B → Exec W A) (o : Outcome W B)
      → Ends R o
      → ((b : B) → Triple (R b) Q (f b))
      → Ends Q (elim o [ returned b v ↦ f b v | threw e v ↦ threw e v ])
  bind_step f (returned b v) r h = (h b).at v r
  bind_step f (threw e v) r h = tt

  catch_step :
      (h : Failure → Exec W A) (o : Outcome W A)
      → Ends Q o
      → ((e : Failure) → Triple Always Q (h e))
      → Ends Q (elim o [ returned a v ↦ returned a v | threw e v ↦ h e v ])
  catch_step h (returned a v) q k = q
  catch_step h (threw e v) q k = (k e).at v tt

module _ {W A : Type 0} {P : W → Type 0} {Q : A → W → Type 0} where
  pub Triple-pure : (a : A) → ((w : W) → P w → Q a w) → Triple P Q (pure a)
  unfolding pure
  Triple-pure a h = record { at = h }

  pub Triple-throw : (c : Code) → Triple P Q (throw c)
  unfolding throw
  Triple-throw c = record { at = λ w p. tt }

  pub Triple-bind :
      {B : Type 0} {R : B → W → Type 0} {m : Exec W B} {f : B → Exec W A}
      → Triple P R m
      → ((b : B) → Triple (R b) Q (f b))
      → Triple P Q (m >>= f)
  unfolding ◌>>=◌
  Triple-bind {m} {f} k h = record { at = λ w p. bind_step f (m w) (k.at w p) h }

  pub Triple-attempt :
      {B : Type 0} (r : Result B) {f : B → Exec W A}
      → ((b : B) → r ≡ ok b → Triple P Q (f b))
      → Triple P Q (attempt r >>= f)
  unfolding ◌>>=◌ attempt
  Triple-attempt (ok b) h = record { at = λ w p. (h b refl).at w p }
  Triple-attempt (err e) h = record { at = λ w p. tt }

  pub Triple-if :
      (b : Bool) {m k : Exec W A}
      → (b ≡ true → Triple P Q m)
      → (b ≡ false → Triple P Q k)
      → Triple P Q (if b then m else k)
  unfolding if◌then◌else◌
  Triple-if true h l = h refl
  Triple-if false h l = l refl

  pub Triple-catch :
      {m : Exec W A} {h : Failure → Exec W A}
      → Triple P Q m
      → ((e : Failure) → Triple Always Q (h e))
      → Triple P Q (try_catch m h)
  unfolding try_catch
  Triple-catch {m} {h} k l = record { at = λ w p. catch_step h (m w) (k.at w p) l }

any_end : {W A : Type 0} (o : Outcome W A) → Ends (λ _. Always) o
any_end (returned a v) = tt
any_end (threw e v) = tt

-- A method of which nothing is known, before another.
pub Triple-after :
    {W A B : Type 0} {P : W → Type 0} {Q : A → W → Type 0} (m : Exec W B) {f : B → Exec W A}
    → ((b : B) → Triple Always Q (f b))
    → Triple P Q (m >>= f)
Triple-after m h = Triple-bind (record { at = λ w p. any_end (m w) }) h

pub Triple-before :
    {W A : Type 0} {P R : W → Type 0} {Q : A → W → Type 0} {m : Exec W A}
    → ((w : W) → R w → P w)
    → Triple P Q m
    → Triple R Q m
Triple-before h k = record { at = λ w r. k.at w (h w r) }

pub on_end :
    {W A : Type 0} (Q : A → W → Type 0) (o : Outcome W A) {a : A} {w : W}
    → o ≡ returned a w
    → Ends Q o
    → Q a w
on_end Q o h q = subst (λ o. Ends Q o) h q

-- A fact that no state bears on stays known.
pub Triple-given :
    {W A T : Type 0} {P : W → Type 0} {Q : A → W → Type 0} {m : Exec W A}
    → (T → Triple P Q m)
    → Triple (λ w. T × P w) Q m
Triple-given h = record { at = λ w p. (h p.0).at w p.1 }
