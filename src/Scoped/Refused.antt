-- ===== src/Scoped/Refused.antt =====
-- Actions outside the scope of the task (src/core/task-authority.ts).
use mathlib.Core.Path.{subst}
use tilda_mcp.Prelude.{String, ◌≡◌, refl, sym, Option, true, false, arith}
use tilda_mcp.Effect.Codes.{Failure}
use tilda_mcp.Effect.Check.{Result, ok, >>-eq-ok, reject_if-eq-ok}
use tilda_mcp.Effect.State.{Outcome, returned, threw, Exec, final, pure, ◌>>=◌}
use tilda_mcp.Effect.Dead.{dead-then}
use tilda_mcp.Effect.Keeps.{Keeps, Keeps-bind, Keeps-pure}
use tilda_mcp.Effect.Ensures.{OnReturn, Ensures, Ensures-weaken, Ensures-bind, Ensures-pure}
use tilda_mcp.Contracts.Adapters.{Host}
use tilda_mcp.Contracts.Records.{ChangeSetRecord}
use tilda_mcp.Store.Read.{load_change_set}
use tilda_mcp.Authority.Grant.{in_scope}
use tilda_mcp.Authority.Guard.{Guard, Moment, assert_rollback}
use tilda_mcp.Authority.Guard as TheGuard
use tilda_mcp.Authority.Isolation.{writable_change}
use tilda_mcp.Manager.State.{ManagedGuard, Process, AuthorityHost}
use tilda_mcp.Engine.World.{World}
use tilda_mcp.Scoped.Calls
use tilda_mcp.Scoped.Calls.{asserts, assert_change_set_authority}
use tilda_mcp.Scoped.Engine.{own_record, apply_own, apply, rollback_own, rollback}
use tilda_mcp.Scoped.Untouched.{
  Untouched, Untouched-preorder, asserts-Untouched, asserts-Ensures, own-Untouched, reads-then,
}

-- The method threw, and the store, the vault and the manager are as they were.
abbrev pub Refused : {E A : Type 0} → World (Process E) → Outcome (World (Process E)) A → Type 0
Refused {E} w o = ((e : Failure) × (o ≡ threw e (final o))) × Untouched w (final o)

scoped_rollback :
    (g : Guard) (m : Moment) (op : _) (t : _)
    → assert_rollback g m op t ≡ ok tt
    → in_scope g.grant.write_targets t ≡ true
unfolding assert_rollback
scoped_rollback g m op t h =
    let (_, a) = >>-eq-ok (TheGuard.assert_active g m) _ h in
    let (_, b) = >>-eq-ok _ _ a in let c = reject_if-eq-ok _ _ b in ground arith

Refused-thrown :
    {E A : Type 0} (w v : World (Process E)) (o : Outcome (World (Process E)) A)
    → (e : Failure) × (o ≡ threw e v)
    → Untouched w v
    → Refused w o
Refused-thrown w v o (e, h) u = subst (λ o. Refused w o) (sym h) ((e, refl), u)

step-Refused :
    {E A B : Type 0} {P : A → Type 0} (w : World (Process E)) (o : Outcome (World (Process E)) A)
    (f : A → Exec (World (Process E)) B)
    → Untouched w (final o)
    → OnReturn P o
    → ((a : A) (v : World (Process E)) → P a → Refused v (f a v))
    → Refused w (elim o [ returned a v ↦ f a v | threw e v ↦ threw e v ])
step-Refused w (returned a v) f u p k =
    let (t, u') = k a v p in (t, Untouched-preorder.transitive w v _ u u')
step-Refused w (threw e v) f u p k = ((e, refl), u)

bind-Refused :
    {E A B : Type 0} {P : A → Type 0} (w : World (Process E)) (m : Exec (World (Process E)) A)
    (f : A → Exec (World (Process E)) B)
    → Untouched w (final (m w))
    → OnReturn P (m w)
    → ((a : A) (v : World (Process E)) → P a → Refused v (f a v))
    → Refused w ((m >>= f) w)
unfolding ◌>>=◌
bind-Refused w m f u p k = step-Refused w (m w) f u p k

module _ {E : Type 0} (authority : AuthorityHost E) (g : ManagedGuard) where
  -- A check that never passes.
  check-Refused :
      {B : Type 0} (check : Guard → Moment → Result (Unit {0}))
      (f : Unit {0} → Exec (World (Process E)) B) (w : World (Process E))
      → ((m : Moment) → check g.guard m ≡ ok tt → ⊥)
      → Refused w ((asserts authority g check >>= f) w)
  check-Refused check f w never =
      Refused-thrown w _ _
        (dead-then (asserts authority g check) f w
          ((Ensures-weaken (λ u p. never p.0 p.1) (asserts-Ensures authority g check)).at w))
        ((asserts-Untouched authority g check).at w)

module _ {E : Type 0} (host : Host (Process E)) (authority : AuthorityHost E)
    (g : ManagedGuard) where
  named :
      (r : ChangeSetRecord)
      → Ensures
          (λ x. x ≡ r)
          (assert_change_set_authority authority g r.task_authority >>= λ _. pure r)
  named r = Ensures-bind _ λ _. Ensures-pure r refl

  kept :
      (r : ChangeSetRecord)
      → Keeps Untouched (assert_change_set_authority authority g r.task_authority >>= λ _. pure r)
  kept r =
      Keeps-bind Untouched-preorder (own-Untouched authority g _)
        λ _. Keeps-pure Untouched-preorder r

  after_own :
      {B : Type 0} (id : String) (w : World (Process E)) (r : ChangeSetRecord)
      (f : ChangeSetRecord → Exec (World (Process E)) B)
      → load_change_set id w.store ≡ ok r
      → ((v : World (Process E)) → Refused v (f r v))
      → Refused w ((own_record host authority g id >>= f) w)
  unfolding own_record
  after_own id w r f loaded k =
      bind-Refused {P = λ x. x ≡ r} w (own_record host authority g id) f
        (reads-then (λ o. Untouched w (final o)) _ w (load_change_set id) loaded ((kept r).at w))
        (reads-then (λ o. OnReturn (λ x. x ≡ r) o) _ w (load_change_set id) loaded ((named r).at w))
        (λ x v same. subst (λ x. Refused v (f x v)) (sym same) (k v))

  -- A ChangeSet whose target is outside the write scope of the task is not applied: `apply` with
  -- `dryRun` false throws, and the store, the vault and the manager are as they were.
  pub apply-Refused :
      (id : String) (key : Option String) (w : World (Process E)) (r : ChangeSetRecord)
      → load_change_set id w.store ≡ ok r
      → in_scope g.guard.grant.write_targets r.target ≡ false
      → Refused w (apply host authority g id false key w)
  unfolding apply apply_own Calls.assert_change
  apply-Refused id key w r loaded outside =
      after_own id w r (apply_own host authority g id false key) loaded λ v.
        check-Refused authority g _ _ v
          λ m passed. let p = (writable_change g.guard m r.operation r.target passed).0 in cc

  -- Nor is it rolled back: `rollback` with `dryRun` false throws, and the store, the vault and the
  -- manager are as they were.
  pub rollback-Refused :
      (id : String) (key : Option String) (w : World (Process E)) (r : ChangeSetRecord)
      → load_change_set id w.store ≡ ok r
      → in_scope g.guard.grant.write_targets r.target ≡ false
      → Refused w (rollback host authority g id false key w)
  unfolding rollback rollback_own Calls.assert_rollback
  rollback-Refused id key w r loaded outside =
      after_own id w r (rollback_own host authority g id false key) loaded λ v.
        check-Refused authority g _ _ v
          λ m passed. let p = scoped_rollback g.guard m r.operation r.target passed in cc
