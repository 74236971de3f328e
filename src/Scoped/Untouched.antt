-- ===== src/Scoped/Untouched.antt =====
-- What the checks of a guard do: nothing but read the manager's clock
-- (src/core/task-authority.ts).
use mathlib.Core.Path.{subst}
use tilda_mcp.Prelude.{◌≡◌, refl, ◌∙◌, Option}
use tilda_mcp.Effect.Check.{Result, ok, err}
use tilda_mcp.Effect.State.{Outcome, returned, threw, Exec, final, attempt, ◌>>=◌}
use tilda_mcp.Effect.Keeps.{IsPreorder, Keeps}
use tilda_mcp.Effect.Ensures.{OnReturn, Ensures, Ensures-bind}
use tilda_mcp.Contracts.Records.{ChangeSetTaskAuthority}
use tilda_mcp.Authority.Guard.{Guard, Moment}
use tilda_mcp.Manager.State.{ManagedGuard, Process, AuthorityHost}
use tilda_mcp.Manager.Guarded.{moment, checked}
use tilda_mcp.Manager.Same.{Same, checked-Same}
use tilda_mcp.Store.{Store}
use tilda_mcp.Store.Journal.{reads}
use tilda_mcp.Engine.World.{World, with_store, with_outside, on_store, on_outside}
use tilda_mcp.Scoped.Calls.{asserts, assert_change_set_authority}

-- The store, the vault and the manager are as they were.
pub record Untouched {E : Type 0} (w v : World (Process E)) : Type 0 where
  pub same_store : v.store ≡ w.store
  pub same_vault : v.vault ≡ w.vault
  pub same_manager : v.outside.manager ≡ w.outside.manager

pub Untouched-preorder : {E : Type 0} → IsPreorder (Untouched {E = E})
Untouched-preorder = record {
  reflexive = λ w. record { same_store = refl; same_vault = refl; same_manager = refl };
  transitive = λ u v w h k. record {
    same_store = k.same_store ∙ h.same_store;
    same_vault = k.same_vault ∙ h.same_vault;
    same_manager = k.same_manager ∙ h.same_manager;
  };
}

module _ {E A : Type 0} where
  outside_step :
      (w : World (Process E)) (o : Outcome (Process E) A)
      → Same w.outside (final o)
      → Untouched w (final (with_outside w o))
  outside_step w (returned a v) h = record {
    same_store = refl;
    same_vault = refl;
    same_manager = h;
  }
  outside_step w (threw e v) h = record { same_store = refl; same_vault = refl; same_manager = h }

  pub on_outside-Untouched :
      {m : Exec (Process E) A} → Keeps Same m → Keeps Untouched (on_outside m)
  unfolding on_outside
  on_outside-Untouched {m} h = record { at = λ w. outside_step w (m w.outside) (h.at w.outside) }

  ensures_step :
      (P : A → Type 0) (w : World (Process E)) (o : Outcome (Process E) A)
      → OnReturn P o
      → OnReturn P (with_outside w o)
  ensures_step P w (returned a v) h = h
  ensures_step P w (threw e v) h = tt

  on_outside-Ensures :
      {P : A → Type 0} {m : Exec (Process E) A} → Ensures P m → Ensures P (on_outside m)
  unfolding on_outside
  on_outside-Ensures {m} h = record { at = λ w. ensures_step _ w (m w.outside) (h.at w.outside) }

attempt-Ensures :
    {W A : Type 0} {P : A → Type 0} (r : Result A)
    → ((a : A) → r ≡ ok a → P a)
    → Ensures {W = W} P (attempt r)
unfolding attempt
attempt-Ensures (ok a) h = record { at = λ w. h a refl }
attempt-Ensures (err e) h = record { at = λ w. tt }

module _ {E : Type 0} (authority : AuthorityHost E) (g : ManagedGuard) where
  pub asserts-Untouched :
      (check : Guard → Moment → Result (Unit {0})) → Keeps Untouched (asserts authority g check)
  unfolding asserts
  asserts-Untouched check = on_outside-Untouched (checked-Same authority check g)

  -- A check that returns has passed at some moment.
  pub asserts-Ensures :
      (check : Guard → Moment → Result (Unit {0}))
      → Ensures (λ _. (m : Moment) × (check g.guard m ≡ ok tt)) (asserts authority g check)
  unfolding asserts checked
  asserts-Ensures check =
      on_outside-Ensures
        (Ensures-bind (moment authority g) λ m. attempt-Ensures (check g.guard m) λ u p. (m, p))

  pub own-Untouched :
      (a : Option ChangeSetTaskAuthority)
      → Keeps Untouched (assert_change_set_authority authority g a)
  unfolding assert_change_set_authority
  own-Untouched a = asserts-Untouched _

module _ {W A B : Type 0} (Q : Outcome (World W) B → Type 0) (k : A → Exec (World W) B)
    (w : World W) where
  found_step :
      (r : Result A) {a : A}
      → r ≡ ok a
      → Q (k a w)
      → Q (elim (with_store w (attempt r w.store)) [ returned a v ↦ k a v | threw e v ↦ threw e v ])
  unfolding attempt
  found_step (ok b) {a} h q = let same : a ≡ b = cc in subst (λ b. Q (k b w)) same q
  found_step (err e) h q = cc

  -- A read of the store that succeeds hands on what it found.
  pub reads-then :
      (f : Store → Result A) {a : A}
      → f w.store ≡ ok a
      → Q (k a w)
      → Q ((on_store (reads f) >>= k) w)
  unfolding ◌>>=◌ on_store reads
  reads-then f h q = found_step (f w.store) h q
