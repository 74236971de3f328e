-- ===== src/Engine/Once.antt =====
-- Every write to a target is paid for by a durable claim (src/core/engine.ts).
use mathlib.Core.List.{Memᴰ}
use tilda_mcp.Prelude.{ℕ, ◌+◌, ◌*◌, ◌≤◌, ◌≡◌, ap, arith, length}
use tilda_mcp.Effect.State.{Exec, Outcome, returned, threw, final, ◌>>=◌}
use tilda_mcp.Effect.Keeps.{IsPreorder, Keeps, Keeps-bind-both, Keeps-weaken}
use tilda_mcp.Contracts.Targets.{ExactTarget}
use tilda_mcp.Contracts.Adapters.{AdapterState, PlannedMutation, ChangeAdapter, Host}
use tilda_mcp.Store.{Store}
use tilda_mcp.Store.Claimed.{
  SameClaims, append_change_set-SameClaims, create_snapshot-SameClaims, discard-SameClaims,
  create_change_set-SameClaims, find_by_idempotency_key-SameClaims,
}
use tilda_mcp.Engine.World
use tilda_mcp.Engine.World.{World, on_store, on_outside}
use tilda_mcp.Engine.Calls.{now, random_uuid, append}
use tilda_mcp.Engine.Quiet.{Quiet}
use tilda_mcp.Engine.WalkPlan.{PlanQuiet}
use tilda_mcp.Contracts.Records.{ChangeSetRecord}

-- A count of writes to targets, as the outside sees them. The costs say which calls count: reads,
-- the clock and random identifiers never do.
pub record Meter {E : Type 0} (host : Host E) : Type 0 where
  pub writes : E → ℕ
  pub apply_cost : ℕ
  pub restore_cost : ℕ
  pub read_free :
      (a : ChangeAdapter E)
      → Memᴰ a host.adapters
      → (t : ExactTarget) (e : E) → writes (final (a.read t e)) ≡ writes e
  pub apply_bounded :
      (a : ChangeAdapter E)
      → Memᴰ a host.adapters
      → (p : PlannedMutation) (e : E) → writes (final (a.apply p e)) ≤ writes e + apply_cost
  pub restore_bounded :
      (a : ChangeAdapter E)
      → Memᴰ a host.adapters
      → (t : ExactTarget) (s : AdapterState) (e : E)
      → writes (final (a.restore t s e)) ≤ writes e + restore_cost
  pub clock_free : (e : E) → writes (host.now e).1 ≡ writes e
  pub uuid_free : (e : E) → writes (host.random_uuid e).1 ≡ writes e

module _ {E : Type 0} {host : Host E} (m : Meter host) where
  -- An apply claim pays for one apply and one restore of its recovery, a rollback claim for one
  -- restore.
  abbrev pub budget : Store → ℕ
  budget s =
      (m.apply_cost + m.restore_cost) * length s.apply_claims
      + m.restore_cost * length s.rollback_claims

  -- What was written is paid for by the claims made, up to `k`.
  abbrev pub Paid : ℕ → World E → World E → Type 0
  Paid k w v = m.writes v.outside + budget w.store ≤ m.writes w.outside + budget v.store + k

  pub Paid-preorder : IsPreorder (Paid 0)
  Paid-preorder = record { reflexive = λ w. omega arith; transitive = λ u v w h k. omega arith }

  pub store_step :
      {A : Type 0} (w : World E) (o : Outcome Store A)
      → SameClaims w.store (final o)
      → Paid 0 w (final (World.with_store w o))
  store_step w (returned a s) h =
      ground (arith, ap length h.apply_claims, ap length h.rollback_claims)
  store_step w (threw e s) h = ground (arith, ap length h.apply_claims, ap length h.rollback_claims)

  outside_step :
      {A : Type 0} (k : ℕ) (w : World E) (o : Outcome E A)
      → m.writes (final o) ≤ m.writes w.outside + k
      → Paid k w (final (World.with_outside w o))
  outside_step k w (returned a e) h = omega arith
  outside_step k w (threw f e) h = omega arith

  on_store-Paid : {A : Type 0} {f : Exec Store A} → Keeps SameClaims f → Keeps (Paid 0) (on_store f)
  unfolding on_store
  on_store-Paid {f} h = record { at = λ w. store_step w (f w.store) (h.at w.store) }

  pub with_cost : (j k : ℕ) → j ≤ k → (u v : World E) → Paid j u v → Paid k u v
  with_cost j k h u v p = omega arith

  pub costs_add : (j k : ℕ) (u v w : World E) → Paid j u v → Paid k v w → Paid (j + k) u w
  costs_add j k u v w p q = omega arith

  pub free : {A : Type 0} {f : Exec (World E) A} (k : ℕ) → Keeps (Paid 0) f → Keeps (Paid k) f
  free k h = Keeps-weaken (with_cost 0 k (omega arith)) h

  pub then_free :
      {A B : Type 0} {f : Exec (World E) A} {g : A → Exec (World E) B} (k : ℕ)
      → Keeps (Paid k) f
      → ((a : A) → Keeps (Paid 0) (g a))
      → Keeps (Paid k) (f >>= g)
  then_free k h l =
      Keeps-bind-both (λ u v p. p) (λ u v w p q. omega (arith, costs_add k 0 u v w p q)) h l

  clock_step : (w : World E) → Paid 0 w (final (now host w))
  unfolding now
  clock_step w = omega (arith, m.clock_free w.outside)

  uuid_step : (w : World E) → Paid 0 w (final (random_uuid host w))
  unfolding random_uuid
  uuid_step w = omega (arith, m.uuid_free w.outside)

  read_step :
      (a : ChangeAdapter E)
      → Memᴰ a host.adapters
      → (t : ExactTarget) → Keeps (Paid 0) (on_outside (a.read t))
  unfolding on_outside
  read_step a known t = record {
    at =
        λ w. outside_step 0 w (a.read t w.outside) (omega (arith, m.read_free a known t w.outside));
  }

  journal_step : (r : ChangeSetRecord) → Keeps (Paid 0) (append r)
  unfolding append
  journal_step r = on_store-Paid (append_change_set-SameClaims r)

  pub Paid-quiet : Quiet host (Paid 0)
  Paid-quiet = record {
    preorder = Paid-preorder;
    reading = read_step;
    clock = record { at = clock_step };
    uuid = record { at = uuid_step };
    vault = λ w v. omega arith;
    lock = λ b w. omega arith;
    journal = journal_step;
  }

  pub Paid-plan_quiet : PlanQuiet host (Paid 0)
  Paid-plan_quiet = record {
    quiet = Paid-quiet;
    snapshot = λ s. on_store-Paid (create_snapshot-SameClaims s);
    discard = λ id. on_store-Paid (discard-SameClaims id);
    creation = λ r key. on_store-Paid (create_change_set-SameClaims host.platform r key);
    search_key = λ key. on_store-Paid (find_by_idempotency_key-SameClaims host.platform key);
  }

  module _ (a : ChangeAdapter E) (known : Memᴰ a host.adapters) where
    pub apply-Paid : (p : PlannedMutation) → Keeps (Paid m.apply_cost) (on_outside (a.apply p))
    unfolding on_outside
    apply-Paid p = record {
      at = λ w.
          outside_step m.apply_cost w (a.apply p w.outside) (m.apply_bounded a known p w.outside);
    }

    pub restore-Paid :
        (t : ExactTarget) (s : AdapterState)
        → Keeps (Paid m.restore_cost) (on_outside (a.restore t s))
    unfolding on_outside
    restore-Paid t s = record {
      at = λ w.
          outside_step m.restore_cost w (a.restore t s w.outside)
            (m.restore_bounded a known t s w.outside);
    }
