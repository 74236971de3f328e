-- ===== src/Manager/Pinned.antt =====
-- A lease pins the authority (src/core/task-authority-manager.ts).
use mathlib.Core.Path.{subst}
use tilda_mcp.Prelude.{
  ℕ, suc, ◌≡◌, refl, sym, Option, none, some, Bool, true, not, ◌||◌, ◌&&◌, arith, Bool-cases, inl,
  inr,
}
use tilda_mcp.Effect.Codes.{
  Failure, tilda, task_inventory_lineage_busy, task_authority_mutation_in_progress,
  task_authority_execution_in_progress,
}
use tilda_mcp.Effect.State.{Outcome, returned, threw, Exec, final, pure, attempt, ◌>>=◌}
use tilda_mcp.Effect.Cases.{throws-then}
use tilda_mcp.Effect.Keeps.{IsPreorder, Keeps, Keeps-weaken}
use tilda_mcp.Manager.State.{
  ActiveAuthority, Manager, Process, AuthorityHost, is_held, looks, update, fresh_object,
}
use tilda_mcp.Manager.Guarded.{assert_no_mutation_dispatch}
use tilda_mcp.Manager.Leases.{
  has_pending, assert_no_authority_transition, drop_if_expired, current_of, current,
}
use tilda_mcp.Manager.Same.{Same}

pub data Pin : Type 0 where
  dispatch execution : Pin

abbrev pub lease_of : Pin → Manager → Option ℕ
lease_of dispatch m = m.mutation_dispatch_lease
lease_of execution m = m.task_execution_lease

-- The authority and its token are these, and the lease is held.
pub record Holds (pin : Pin) (lease : ℕ) (a : Option ActiveAuthority) (token : ℕ) (m : Manager)
    : Type 0 where
  pub authority : m.active ≡ a
  pub same_token : m.revocation_token ≡ token
  pub held : lease_of pin m ≡ some lease

abbrev pub is_pinned : Manager → Bool
is_pinned m = is_held m.mutation_dispatch_lease || is_held m.task_execution_lease

held-some : (o : Option ℕ) (l : ℕ) → o ≡ some l → is_held o ≡ true
held-some none l h = cc
held-some (some k) l h = refl

pinned :
    (pin : Pin) (lease : ℕ) (a : Option ActiveAuthority) (token : ℕ) (m : Manager)
    → Holds pin lease a token m
    → is_pinned m ≡ true
pinned dispatch lease a token m h = ground (arith, held-some m.mutation_dispatch_lease lease h.held)
pinned execution lease a token m h = ground (arith, held-some m.task_execution_lease lease h.held)

module _ {E : Type 0} (host : AuthorityHost E) where
  -- No transition begins.
  transition-throws :
      (allow : Bool) (w : Process E)
      → is_pinned w.manager ≡ true
      → (e : Failure) × (assert_no_authority_transition host allow w ≡ threw e w)
  unfolding assert_no_authority_transition assert_no_mutation_dispatch looks ◌>>=◌ attempt
  transition-throws allow w h =
      elim (Bool-cases (
        not allow
        && (is_held w.manager.reference_mutation_lease || has_pending w.manager.active))) [
          | inl p ↦ (tilda task_inventory_lineage_busy, ground arith)
          | inr p ↦ elim (Bool-cases (is_held w.manager.mutation_dispatch_lease)) [
            | inl q ↦ (tilda task_authority_mutation_in_progress, ground arith)
            | inr q ↦
                let r : is_held w.manager.task_execution_lease ≡ true = ground arith in
                (tilda task_authority_execution_in_progress, ground arith)
          ]
        ]

  current_of-pinned :
      (a : Option ActiveAuthority) (w : Process E)
      → is_pinned w.manager ≡ true
      → current_of host a w ≡ returned a w
  unfolding current_of drop_if_expired looks pure ◌>>=◌
  current_of-pinned none w h = refl
  current_of-pinned (some a) w h = rw h refl

  -- An authority that is pinned does not end with its time.
  pub current-pinned :
      (w : Process E) → is_pinned w.manager ≡ true → current host w ≡ returned w.manager.active w
  unfolding current looks ◌>>=◌
  current-pinned w h = current_of-pinned w.manager.active w h

  module _ (pin : Pin) (lease : ℕ) (a : Option ActiveAuthority) (token : ℕ) where
    abbrev pub P : Process E → Process E → Type 0
    P w v = Holds pin lease a token w.manager → Holds pin lease a token v.manager

    pub pre : IsPreorder P
    pre = record { reflexive = λ w h. h; transitive = λ u v w h k l. k (h l) }

    pub same : {A : Type 0} {m : Exec (Process E) A} → Keeps Same m → Keeps P m
    same h = Keeps-weaken (λ w v e l. subst (Holds pin lease a token) (sym e) l) h

    -- What throws before it changes anything.
    pub stopped :
        {A B : Type 0} (m : Exec (Process E) A) (f : A → Exec (Process E) B)
        → ((w : Process E) → Holds pin lease a token w.manager → (e : Failure) × (m w ≡ threw e w))
        → Keeps P (m >>= f)
    stopped m f h = record {
      at = λ w l.
          let (e, thrown) = h w l in
          subst (λ (o : Outcome (Process E) _). Holds pin lease a token (final o).manager)
            (sym (throws-then f w e m thrown)) l;
    }

    pub no_transition :
        {B : Type 0} (allow : Bool) (f : Unit {0} → Exec (Process E) B)
        → Keeps P (assert_no_authority_transition host allow >>= f)
    no_transition allow f =
        stopped (assert_no_authority_transition host allow) f
          λ w l. transition-throws allow w (pinned pin lease a token w.manager l)

    pub current-P : Keeps P (current host)
    current-P = record {
      at = λ w l.
          subst (λ (o : Outcome (Process E) _). Holds pin lease a token (final o).manager)
            (sym (current-pinned w (pinned pin lease a token w.manager l))) l;
    }

    pub other :
        (f : Manager → Manager)
        → ((m : Manager) → Holds pin lease a token m → Holds pin lease a token (f m))
        → Keeps P (update f)
    unfolding update
    other f h = record { at = λ w l. h w.manager l }

    pub object :
        {A : Type 0} (f : ℕ → Exec (Process E) A)
        → ((n : ℕ) → Keeps P (f n))
        → Keeps P (fresh_object >>= f)
    unfolding fresh_object ◌>>=◌
    object f h = record { at = λ w l. (h w.manager.next_object).at _ (grown pin w.manager l) }
      where
        grown :
            (q : Pin) (m : Manager)
            → Holds q lease a token m
            → Holds q lease a token (record m { next_object = suc m.next_object })
        grown dispatch m l = record {
          authority = l.authority;
          same_token = l.same_token;
          held = l.held;
        }
        grown execution m l = record {
          authority = l.authority;
          same_token = l.same_token;
          held = l.held;
        }
