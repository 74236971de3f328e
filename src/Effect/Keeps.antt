-- ===== src/Effect/Keeps.antt =====
-- Relations between the state before a method and the state after it, and how they go through
-- the control structure of a method.
use tilda_mcp.Prelude.{◌≡◌, refl, Bool, true, false}
use tilda_mcp.Effect.Codes.{Code, Failure}
use tilda_mcp.Effect.Check.{Result, ok, err}
use tilda_mcp.Effect.State.{
  Outcome, returned, threw, Exec, final, pure, throw, attempt, gets, try_catch, if◌then◌else◌,
  ◌>>=◌,
}

-- A preorder on states.
pub record IsPreorder {W : Type 0} (R : W → W → Type 0) : Type 0 where
  pub reflexive : (w : W) → R w w
  pub transitive : (u v w : W) → R u v → R v w → R u w

-- The method relates the state before it to the state after it, also where it throws.
pub record Keeps {W : Type 0} (R : W → W → Type 0) {A : Type 0} (m : Exec W A) : Type 0 where
  pub at : (w : W) → R w (final (m w))

module _ {W : Type 0} {R : W → W → Type 0} (pre : IsPreorder R) where
  pub Keeps-pure : {A : Type 0} (a : A) → Keeps R (pure a)
  unfolding pure
  Keeps-pure a = record { at = λ w. pre.reflexive w }

  pub Keeps-throw : {A : Type 0} (c : Code) → Keeps R {A = A} (throw c)
  unfolding throw
  Keeps-throw c = record { at = λ w. pre.reflexive w }

  pub Keeps-attempt : {A : Type 0} (r : Result A) → Keeps R (attempt r)
  unfolding attempt
  Keeps-attempt (ok a) = record { at = λ w. pre.reflexive w }
  Keeps-attempt (err e) = record { at = λ w. pre.reflexive w }

  pub Keeps-gets : {A : Type 0} (f : W → A) → Keeps R (gets f)
  unfolding gets
  Keeps-gets f = record { at = λ w. pre.reflexive w }

  bind_step :
      {A B : Type 0} (f : A → Exec W B) (w : W) (o : Outcome W A)
      → ((a : A) → Keeps R (f a))
      → R w (final o)
      → R w (final (elim o [ returned a w' ↦ f a w' | threw e w' ↦ threw e w' ]))
  bind_step f w (returned a w') h r = pre.transitive w w' _ r ((h a).at w')
  bind_step f w (threw e w') h r = r

  pub Keeps-bind :
      {A B : Type 0} {m : Exec W A} {f : A → Exec W B}
      → Keeps R m
      → ((a : A) → Keeps R (f a))
      → Keeps R (m >>= f)
  unfolding ◌>>=◌
  Keeps-bind {m} {f} h k = record { at = λ w. bind_step f w (m w) k (h.at w) }

  -- After a pure function the rest may use what it returned.
  pub Keeps-bind-attempt :
      {A B : Type 0} (r : Result A) (f : A → Exec W B)
      → ((a : A) → r ≡ ok a → Keeps R (f a))
      → Keeps R (attempt r >>= f)
  unfolding ◌>>=◌ attempt
  Keeps-bind-attempt (ok a) f k = record { at = λ w. (k a refl).at w }
  Keeps-bind-attempt (err e) f k = record { at = λ w. pre.reflexive w }

  catch_step :
      {A : Type 0} (h : Failure → Exec W A) (w : W) (o : Outcome W A)
      → ((e : Failure) → Keeps R (h e))
      → R w (final o)
      → R w (final (elim o [ returned a w' ↦ returned a w' | threw e w' ↦ h e w' ]))
  catch_step h w (returned a w') k r = r
  catch_step h w (threw e w') k r = pre.transitive w w' _ r ((k e).at w')

  pub Keeps-catch :
      {A : Type 0} {m : Exec W A} {h : Failure → Exec W A}
      → Keeps R m
      → ((e : Failure) → Keeps R (h e))
      → Keeps R (try_catch m h)
  unfolding try_catch
  Keeps-catch {m} {h} k l = record { at = λ w. catch_step h w (m w) l (k.at w) }

pub Keeps-if :
    {W A : Type 0} {R : W → W → Type 0} (b : Bool) {m k : Exec W A}
    → Keeps R m
    → Keeps R k
    → Keeps R (if b then m else k)
unfolding if◌then◌else◌
Keeps-if true h l = h
Keeps-if false h l = l

-- The same with a relation for each part: a part of the first relation alone, or of both in turn.
module _ {W : Type 0} {R S Q : W → W → Type 0} (alone : (u v : W) → R u v → Q u v)
    (both : (u v w : W) → R u v → S v w → Q u w) where
  bind_both :
      {A B : Type 0} (f : A → Exec W B) (w : W) (o : Outcome W A)
      → ((a : A) → Keeps S (f a))
      → R w (final o)
      → Q w (final (elim o [ returned a w' ↦ f a w' | threw e w' ↦ threw e w' ]))
  bind_both f w (returned a w') h r = both w w' _ r ((h a).at w')
  bind_both f w (threw e w') h r = alone w w' r

  pub Keeps-bind-both :
      {A B : Type 0} {m : Exec W A} {f : A → Exec W B}
      → Keeps R m
      → ((a : A) → Keeps S (f a))
      → Keeps Q (m >>= f)
  unfolding ◌>>=◌
  Keeps-bind-both {m} {f} h k = record { at = λ w. bind_both f w (m w) k (h.at w) }

  catch_both :
      {A : Type 0} (h : Failure → Exec W A) (w : W) (o : Outcome W A)
      → ((e : Failure) → Keeps S (h e))
      → R w (final o)
      → Q w (final (elim o [ returned a w' ↦ returned a w' | threw e w' ↦ h e w' ]))
  catch_both h w (returned a w') k r = alone w w' r
  catch_both h w (threw e w') k r = both w w' _ r ((k e).at w')

  pub Keeps-catch-both :
      {A : Type 0} {m : Exec W A} {h : Failure → Exec W A}
      → Keeps R m
      → ((e : Failure) → Keeps S (h e))
      → Keeps Q (try_catch m h)
  unfolding try_catch
  Keeps-catch-both {m} {h} k l = record { at = λ w. catch_both h w (m w) l (k.at w) }

pub Keeps-weaken :
    {W A : Type 0} {R Q : W → W → Type 0} {m : Exec W A}
    → ((u v : W) → R u v → Q u v)
    → Keeps R m
    → Keeps Q m
Keeps-weaken {m} le h = record { at = λ w. le w (final (m w)) (h.at w) }
