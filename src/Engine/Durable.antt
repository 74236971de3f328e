-- ===== src/Engine/Durable.antt =====
-- What every operation of the store keeps, every session keeps (src/core/engine.ts).
use mathlib.Core.List.{Memᴰ}
use tilda_mcp.Prelude.{String, Option, Bool, List}
use tilda_mcp.Effect.State.{Exec, Outcome, returned, threw, final}
use tilda_mcp.Effect.Keeps.{
  IsPreorder, Keeps, Keeps-attempt, Keeps-bind, Keeps-catch, Keeps-pure, Keeps-if,
}
use tilda_mcp.Contracts.Hash.{Platform}
use tilda_mcp.Contracts.Adapters.{AdapterState, ChangeAdapter, Host}
use tilda_mcp.Contracts.Records.{ChangeSetRecord, SnapshotEnvelope}
use tilda_mcp.Store.{Store, Action}
use tilda_mcp.Store.Journal.{
  create_snapshot, discard_unreferenced_snapshot, create_change_set, append_change_set,
  find_by_idempotency_key,
}
use tilda_mcp.Store.Claims.{unclaimed}
use tilda_mcp.Store.Attempts.{claim_action_idempotency}
use tilda_mcp.Engine.World.{
  World, VolatileChangeMaterial, with_store, with_outside, on_store, on_outside,
}
use tilda_mcp.Engine.Calls.{now, random_uuid, append}
use tilda_mcp.Engine.Outcomes.{Dispatched}
use tilda_mcp.Engine.Apply.{recover_with, apply_recover, dispatch_apply, apply_attempt}
use tilda_mcp.Engine.Rollback.{dispatch_restore, rollback_remote, rollback_attempt}
use tilda_mcp.Engine.Quiet.{Quiet, diagnostic_read-Keeps, get-Keeps}
use tilda_mcp.Engine.Walk.{
  apply-Keeps, apply_recover-Keeps, settle_apply-Keeps, verify-Keeps, rollback-Keeps,
  settle_rollback-Keeps, settle_restore-Keeps,
}
use tilda_mcp.Engine.WalkPlan.{PlanQuiet, plan-Keeps}
use tilda_mcp.Engine.Session.{Call, after, after-Keeps}

-- A relation on stores that every operation which the engine calls keeps.
pub record Durable (platform : Platform) (S : Store → Store → Type 0) : Type 0 where
  pub preorder : IsPreorder S
  pub lock : (b : Bool) (s : Store) → S s (record s { locked = b })
  pub append : (r : ChangeSetRecord) → Keeps S (append_change_set r)
  pub snapshot : (s : SnapshotEnvelope) → Keeps S (create_snapshot s)
  pub discard : (id : String) → Keeps S (discard_unreferenced_snapshot id)
  pub creation :
      (r : ChangeSetRecord) (key : Option String) → Keeps S (create_change_set platform r key)
  pub search_key : (key : String) → Keeps S (find_by_idempotency_key platform key)
  pub claim :
      (key : String) (action : Action) (id : String)
      → Keeps S (claim_action_idempotency platform key action id)

module _ {E : Type 0} (host : Host E) {S : Store → Store → Type 0}
    (d : Durable host.platform S) where
  abbrev R : World E → World E → Type 0
  R w v = S w.store v.store

  pre : IsPreorder R
  pre = record {
    reflexive = λ w. d.preorder.reflexive w.store;
    transitive = λ u v w. d.preorder.transitive u.store v.store w.store;
  }

  store_step :
      {A : Type 0} (w : World E) (o : Outcome Store A)
      → S w.store (final o)
      → R w (final (with_store w o))
  store_step w (returned a s) h = h
  store_step w (threw e s) h = h

  on_store-R : {A : Type 0} {f : Exec Store A} → Keeps S f → Keeps R (on_store f)
  unfolding on_store
  on_store-R {f} h = record { at = λ w. store_step w (f w.store) (h.at w.store) }

  outside_step : {A : Type 0} (w : World E) (o : Outcome E A) → R w (final (with_outside w o))
  outside_step w (returned a e) = d.preorder.reflexive w.store
  outside_step w (threw f e) = d.preorder.reflexive w.store

  on_outside-R : {A : Type 0} (f : Exec E A) → Keeps R (on_outside f)
  unfolding on_outside
  on_outside-R f = record { at = λ w. outside_step w (f w.outside) }

  now-R : Keeps R (now host)
  unfolding now
  now-R = record { at = λ w. d.preorder.reflexive w.store }

  random_uuid-R : Keeps R (random_uuid host)
  unfolding random_uuid
  random_uuid-R = record { at = λ w. d.preorder.reflexive w.store }

  append-R : (r : ChangeSetRecord) → Keeps R (append r)
  unfolding append
  append-R r = on_store-R (d.append r)

  quiet : Quiet host R
  quiet = record {
    preorder = pre;
    reading = λ a known t. on_outside-R (a.read t);
    clock = now-R;
    uuid = random_uuid-R;
    vault = λ w v. d.preorder.reflexive w.store;
    lock = λ b w. d.lock b w.store;
    journal = append-R;
  }

  plan_quiet : PlanQuiet host R
  plan_quiet = record {
    quiet = quiet;
    snapshot = λ s. on_store-R (d.snapshot s);
    discard = λ id. on_store-R (d.discard id);
    creation = λ r key. on_store-R (d.creation r key);
    search_key = λ key. on_store-R (d.search_key key);
  }

  module _ (a : ChangeAdapter E) (known : Memᴰ a host.adapters) where
    recover :
        (before : AdapterState) (r : ChangeSetRecord) (x : Dispatched)
        → Keeps R (apply_recover host a before r x.after)
    unfolding apply_recover recover_with
    recover before r x =
        Keeps-bind pre
          (Keeps-catch pre
            (Keeps-bind pre (on_outside-R _) λ candidate.
              Keeps-bind pre (Keeps-attempt pre _) λ _. diagnostic_read-Keeps quiet a known _)
            (λ e. diagnostic_read-Keeps quiet a known _))
          (apply_recover-Keeps quiet r x.after)

    first_apply :
        (m : VolatileChangeMaterial) (key : String) (r : ChangeSetRecord) (fresh : AdapterState)
        → Keeps R (apply_attempt host a m key r fresh unclaimed)
    unfolding apply_attempt dispatch_apply
    first_apply m key r fresh = Keeps-bind pre (Keeps-attempt pre _) λ _.
        Keeps-bind pre (Keeps-attempt pre _) λ _. Keeps-bind pre (on_store-R (d.claim _ _ _)) λ _.
          Keeps-bind pre (Keeps-attempt pre _) λ _.
            Keeps-bind pre
              (Keeps-catch pre
                (Keeps-bind pre (on_outside-R _)
                  λ after. Keeps-bind pre (Keeps-attempt pre _) λ _. Keeps-pure pre _)
                (λ e.
                  Keeps-bind pre (diagnostic_read-Keeps quiet a known _) λ after. Keeps-pure pre _))
              (λ x. settle_apply-Keeps quiet a m.before r x (λ u v h. h) (recover m.before r x))

    restores :
        (before : AdapterState) (r : ChangeSetRecord) → Keeps R (dispatch_restore host a before r)
    unfolding dispatch_restore
    restores before r =
        Keeps-catch pre
          (Keeps-bind pre (on_outside-R _) λ candidate. Keeps-bind pre (Keeps-attempt pre _) λ _.
            Keeps-bind pre (diagnostic_read-Keeps quiet a known _) λ restored. Keeps-pure pre _)
          (λ e. Keeps-bind pre (diagnostic_read-Keeps quiet a known _) λ restored. Keeps-pure pre _)

    first_rollback :
        (key : String) (r : ChangeSetRecord) (fresh : AdapterState)
        → Keeps R (rollback_attempt host a key r fresh unclaimed)
    unfolding rollback_attempt rollback_remote
    first_rollback key r fresh = Keeps-bind pre (Keeps-attempt pre _) λ _.
        Keeps-if _
          (Keeps-bind pre (get-Keeps quiet _) λ m. Keeps-bind pre (Keeps-attempt pre _) λ _.
            Keeps-bind pre (on_store-R (d.claim _ _ _)) λ _.
              Keeps-bind pre (Keeps-attempt pre _)
                λ _. Keeps-bind pre (restores m.before r) (settle_restore-Keeps quiet r))
          (Keeps-bind pre (on_store-R (d.claim _ _ _))
            λ _. Keeps-bind pre (Keeps-attempt pre _) λ _. settle_rollback-Keeps quiet r _ _ _)

  pub after-Durable : (cs : List Call) (w : World E) → S w.store (after host cs w).store
  after-Durable =
      after-Keeps host pre (λ request key authority. plan-Keeps plan_quiet request authority key)
        (apply-Keeps quiet first_apply) (verify-Keeps quiet) (rollback-Keeps quiet first_rollback)
