-- ===== src/Manager/Exclusive.antt =====
-- Leases are exclusive (src/core/task-authority-manager.ts).
use tilda_mcp.Prelude.{ℕ, ◌≡◌, ◌≢◌, refl, Option, none, some, false, arith, Bool-cases, inl, inr}
use tilda_mcp.Effect.Codes.{
  Failure, tilda, task_authority_revoked, task_authority_mutation_in_progress,
  task_authority_execution_in_progress,
}
use tilda_mcp.Effect.State.{threw, pure, attempt, if◌then◌else◌, ◌>>=◌}
use tilda_mcp.Effect.Keeps.{Keeps, Keeps-pure, Keeps-bind, Keeps-if}
use tilda_mcp.Manager.State.{
  ActiveAuthority, Manager, ManagedGuard, Process, AuthorityHost, is_object, looks, update,
}
use tilda_mcp.Manager.Guarded.{
  release_dispatch, release_execution, assert_no_mutation_dispatch, take_dispatch, take_execution,
  is_stale_token,
}
use tilda_mcp.Manager.Session as Sessions
use tilda_mcp.Manager.Session.{Call, after_call, after}
use tilda_mcp.Manager.Same.{looks-Same}
use tilda_mcp.Manager.Pinned.{Pin, dispatch, execution, Holds, P, pre, same, other}

-- The call does not give back this lease.
abbrev pub Spares : Pin → ℕ → Call → Type 0
Spares dispatch lease (Sessions.release_dispatch k) = k ≢ lease
Spares execution lease (Sessions.release_execution k) = k ≢ lease
Spares pin lease c = Unit

not_mine : (o : Option ℕ) (k lease : ℕ) → o ≡ some lease → k ≢ lease → is_object o k ≡ false
not_mine none k lease h other = refl
not_mine (some l) k lease h other = ground arith

module _ {E : Type 0} (host : AuthorityHost E) (lease : ℕ) (a : Option ActiveAuthority)
    (token : ℕ) where
  -- A second dispatch lease is refused.
  pub take_dispatch-throws :
      (g : ManagedGuard) (w : Process E)
      → Holds dispatch lease a token w.manager
      → (e : Failure) × (take_dispatch host g w ≡ threw e w)
  unfolding take_dispatch assert_no_mutation_dispatch looks ◌>>=◌ attempt
  take_dispatch-throws g w h = elim (Bool-cases (is_stale_token host g w.manager)) [
    | inl p ↦ (tilda task_authority_revoked, ground arith)
    | inr p ↦ let q = h.held in (tilda task_authority_mutation_in_progress, ground arith)
  ]

  pub take_execution-throws :
      (g : ManagedGuard) (w : Process E)
      → Holds execution lease a token w.manager
      → (e : Failure) × (take_execution host g w ≡ threw e w)
  unfolding take_execution looks ◌>>=◌ attempt
  take_execution-throws g w h = elim (Bool-cases (is_stale_token host g w.manager)) [
    | inl p ↦ (tilda task_authority_revoked, ground arith)
    | inr p ↦ let q = h.held in (tilda task_authority_execution_in_progress, ground arith)
  ]

  -- The other lease may come and go.
  pub other_dispatch :
      (o : Option ℕ) (m : Manager)
      → Holds execution lease a token m
      → Holds execution lease a token (record m { mutation_dispatch_lease = o })
  other_dispatch o m h = record {
    authority = h.authority;
    same_token = h.same_token;
    held = h.held;
  }

  pub other_execution :
      (o : Option ℕ) (m : Manager)
      → Holds dispatch lease a token m
      → Holds dispatch lease a token (record m { task_execution_lease = o })
  other_execution o m h = record {
    authority = h.authority;
    same_token = h.same_token;
    held = h.held;
  }

  pub other_reference :
      (pin : Pin) (o : Option ℕ) (m : Manager)
      → Holds pin lease a token m
      → Holds pin lease a token (record m { reference_mutation_lease = o })
  other_reference dispatch o m h = record {
    authority = h.authority;
    same_token = h.same_token;
    held = h.held;
  }
  other_reference execution o m h = record {
    authority = h.authority;
    same_token = h.same_token;
    held = h.held;
  }

  pub release_dispatch-P :
      (k : ℕ) → Keeps (P host execution lease a token) (release_dispatch host k)
  unfolding release_dispatch
  release_dispatch-P k =
      Keeps-bind (pre host execution lease a token)
        (same host execution lease a token (looks-Same _))
        λ mine.
          Keeps-if _ (other host execution lease a token _ (other_dispatch none))
            (Keeps-pure (pre host execution lease a token) tt)

  pub release_execution-P :
      (k : ℕ) → Keeps (P host dispatch lease a token) (release_execution host k)
  unfolding release_execution
  release_execution-P k =
      Keeps-bind (pre host dispatch lease a token) (same host dispatch lease a token (looks-Same _))
        λ mine.
          Keeps-if _ (other host dispatch lease a token _ (other_execution none))
            (Keeps-pure (pre host dispatch lease a token) tt)

  -- The end of another lease of the same kind, which is not the one that is held, changes nothing.
  pub release_dispatch-spares :
      (k : ℕ) → k ≢ lease → Keeps (P host dispatch lease a token) (release_dispatch host k)
  unfolding release_dispatch looks update pure ◌>>=◌ if◌then◌else◌
  release_dispatch-spares k differ = record {
    at = λ w h. let n = not_mine w.manager.mutation_dispatch_lease k lease h.held differ in rw n h;
  }

  pub release_execution-spares :
      (k : ℕ) → k ≢ lease → Keeps (P host execution lease a token) (release_execution host k)
  unfolding release_execution looks update pure ◌>>=◌ if◌then◌else◌
  release_execution-spares k differ = record {
    at = λ w h. let n = not_mine w.manager.task_execution_lease k lease h.held differ in rw n h;
  }
