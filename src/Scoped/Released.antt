-- ===== src/Scoped/Released.antt =====
-- The execution lease of an action ends with the action (src/core/task-authority.ts,
-- src/core/task-authority-manager.ts).
use mathlib.Core.Path.{subst}
use tilda_mcp.Prelude.{ℕ, ◌≡◌, refl, sym, ◌∙◌, ap, none, false, arith, Bool-cases, inl, inr}
use tilda_mcp.Effect.Codes.{Failure}
use tilda_mcp.Effect.Check.{err}
use tilda_mcp.Effect.State.{
  Outcome, returned, threw, final, pure, attempt, try_catch, if◌then◌else◌, ◌>>=◌, ◌>>◌,
}
use tilda_mcp.Effect.Ensures.{OnReturn, Ensures-bind, Ensures-pure}
use tilda_mcp.Effect.Post.{bind-post, catch-post}
use tilda_mcp.Manager.State.{
  ManagedGuard, Process, AuthorityHost, is_object, is_held, looks, update, fresh_object,
}
use tilda_mcp.Manager.Guarded.{
  guard_active, release_execution, take_execution, begin_task_execution, is_stale_token,
}
use tilda_mcp.Manager.Same.{guard_active-Same}

-- This lease is not the one that is held.
abbrev pub IsFree : {E : Type 0} → ℕ → Process E → Type 0
IsFree k w = is_object w.manager.task_execution_lease k ≡ false

-- The lease that is given is this one, or it is not held.
abbrev pub Begun : {E : Type 0} → ℕ → Outcome (Process E) ℕ → Type 0
Begun k (returned lease v) = lease ≡ k
Begun k (threw e v) = IsFree k v

abbrev Unmoved : {E A : Type 0} → Process E → Outcome (Process E) A → Type 0
Unmoved w o = (final o).manager ≡ w.manager

module _ {E : Type 0} (host : AuthorityHost E) where
  -- A lease that is released is free, and its release does not throw.
  pub release-returns :
      (k : ℕ) (w : Process E)
      → (v : Process E) × (release_execution host k w ≡ returned tt v) × IsFree k v
  unfolding release_execution looks update pure ◌>>=◌ if◌then◌else◌
  release-returns k w = elim (Bool-cases (is_object w.manager.task_execution_lease k)) [
    | inl p ↦ (
      record w { manager = record (w.manager) { task_execution_lease = none } },
      ground arith,
      refl,
    )
    | inr p ↦ (w, ground arith, p)
  ]

  moved-IsFree : (k : ℕ) (w v : Process E) → v.manager ≡ w.manager → IsFree k w → IsFree k v
  moved-IsFree k w v h free = subst (λ m. is_object m.task_execution_lease k ≡ false) (sym h) free

  take-Begun :
      (g : ManagedGuard) (w : Process E)
      → IsFree w.manager.next_object w
      → Begun w.manager.next_object (take_execution host g w)
  unfolding take_execution fresh_object looks update pure attempt ◌>>=◌
  take-Begun g w free = elim (Bool-cases (is_stale_token host g w.manager)) [
    | inl p ↦ rw p free
    | inr p ↦ elim (Bool-cases (is_held w.manager.task_execution_lease)) [
      | inl q ↦ rw p (rw q free)
      | inr q ↦ rw p (rw q refl)
    ]
  ]

  released_throw :
      (k : ℕ) (e : Failure) (v : Process E)
      → Begun k ((release_execution host k >> attempt {A = ℕ} (err e)) v)
  unfolding attempt
  released_throw k e v =
      let (u, h, free) = release-returns k v in
      bind-post (λ (o : Outcome (Process E) (Unit {0})). IsFree k (final o)) (Begun k) _
        (λ a u' p. p) (λ d u' p. p) (release_execution host k) v
        (subst (λ (o : Outcome (Process E) (Unit {0})). IsFree k (final o)) (sym h) free)

  finish-Begun :
      (g : ManagedGuard) (k lease : ℕ) (w : Process E)
      → lease ≡ k
      → Begun k (
          try_catch
            (do guard_active host g; pure lease)
            (λ e. do release_execution host lease; attempt (err e))
            w)
  finish-Begun g k lease w same =
      catch-post (OnReturn (λ x. x ≡ lease)) (Begun k) _ (λ a v p. p ∙ same)
        (λ e v p.
          subst (λ n. Begun k ((release_execution host n >> attempt {A = ℕ} (err e)) v)) (sym same)
            (released_throw k e v))
        (guard_active host g >> pure lease) w
        ((Ensures-bind (guard_active host g) λ u. Ensures-pure lease refl).at w)

  taken-Begun :
      (g : ManagedGuard) (w : Process E)
      → IsFree w.manager.next_object w
      → Begun w.manager.next_object (
          (take_execution host g >>= λ lease.
          try_catch
            (do guard_active host g; pure lease)
            (λ e. do release_execution host lease; attempt (err e)))
            w)
  taken-Begun g w free =
      bind-post (Begun w.manager.next_object) (Begun w.manager.next_object) _
        (λ lease v same. finish-Begun g w.manager.next_object lease v same) (λ e v p. p)
        (take_execution host g) w (take-Begun g w free)

  pub begin-Begun :
      (g : ManagedGuard) (w : Process E)
      → IsFree w.manager.next_object w
      → Begun w.manager.next_object (begin_task_execution host g w)
  unfolding begin_task_execution
  begin-Begun g w free =
      bind-post (Unmoved w) (Begun w.manager.next_object) _
        (λ u v same.
          subst
            (λ k. Begun k (
              (take_execution host g >>= λ lease.
              try_catch (do guard_active host g; pure lease)
                (λ e. do release_execution host lease; attempt (err e)))
                v))
            (ap (λ m. m.next_object) same)
            (taken-Begun g v (
              subst (λ m. is_object m.task_execution_lease m.next_object ≡ false) (sym same) free)))
        (λ e v same. moved-IsFree w.manager.next_object w v same free) (guard_active host g) w
        ((guard_active-Same host g).at w)
