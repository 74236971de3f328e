-- ===== src/Engine/Frozen.antt =====
-- An action that has a claim never writes to its target again (src/core/engine.ts).
use mathlib.Core.List.{Memᴰ}
use tilda_mcp.Prelude.{String, ◌≡◌, refl, ap, ◌∙◌, Option, none, some, Bool, true, false, arith}
use tilda_mcp.Effect.Check.{Result, ok, err, >>=-eq-ok, >>-eq-ok}
use tilda_mcp.Effect.State.{Exec, Outcome, returned, threw, final, attempt, throw, ◌>>=◌}
use tilda_mcp.Effect.Keeps.{IsPreorder, Keeps, Keeps-throw, Keeps-pure}
use tilda_mcp.Contracts.Targets.{ExactTarget}
use tilda_mcp.Contracts.Hash.{Platform}
use tilda_mcp.Contracts.Adapters.{ChangeAdapter, Host}
use tilda_mcp.Contracts.Records.{ChangeSetRecord}
use tilda_mcp.Dict.{lookup}
use tilda_mcp.Store.{Store, Action, apply as apply_action, rollback as rollback_action, ActionClaim}
use tilda_mcp.Store.Checks.{assert_uuid}
use tilda_mcp.Store.Read.{load_change_set, idempotency_digest}
use tilda_mcp.Store.Loaded.{load-checks}
use tilda_mcp.Store.Journal.{reads, append_change_set}
use tilda_mcp.Store.Claims.{
  ActionAttempt, unclaimed, replay, claims, claim_status, attempt_status, action_attempt_status,
}
use tilda_mcp.Engine.World
use tilda_mcp.Engine.World.{World, with_store, on_store, on_outside, set_lock, with_mutation_lock}
use tilda_mcp.Engine.Calls.{now, random_uuid, append}
use tilda_mcp.Engine.Quiet.{Quiet}
use tilda_mcp.Engine.Once.{Meter}
use tilda_mcp.Engine.Walk.{FirstApply, FirstRollback, apply_by_state-Keeps, rollback_by_state-Keeps}
use tilda_mcp.Engine.Apply.{apply_locked, apply}
use tilda_mcp.Engine.Rollback.{rollback_locked, rollback}

claimed_status :
    (action : Action) (id digest : String) (o : Option ActionClaim) (c : ActionClaim)
    (status : ActionAttempt)
    → o ≡ some c
    → claim_status action id digest o ≡ ok status
    → status ≡ replay
unfolding claim_status
claimed_status action id digest none c status k h = ground arith
claimed_status action id digest (some d) c status k h = ground arith

replayed_status :
    (action : Action) (id digest : String) (s : Store) (first status : ActionAttempt)
    → first ≡ replay
    → attempt_status action id digest s first ≡ ok status
    → status ≡ replay
unfolding attempt_status
replayed_status action id digest s unclaimed status k h = ground arith
replayed_status action id digest s replay status k h = ground arith

replay_only :
    (platform : Platform) (key : String) (action : Action) (id : String) (s : Store)
    (c : ActionClaim) (status : ActionAttempt)
    → lookup id (claims action s) ≡ some c
    → action_attempt_status platform key action id s ≡ ok status
    → status ≡ replay
unfolding action_attempt_status
replay_only platform key action id s c status k h =
    let (_, loaded) = >>-eq-ok (assert_uuid id) _ h in
    let (r, _, digested) = >>=-eq-ok (load_change_set id s) _ loaded in
    let (digest, _, judged) = >>=-eq-ok (idempotency_digest platform key) _ digested in
    let (first, claimed, last) =
      >>=-eq-ok (claim_status action id digest (lookup id (claims action s))) _ judged in
    replayed_status action id digest s first status
      (claimed_status action id digest _ c first k claimed) last

module _ {E : Type 0} {host : Host E} (m : Meter host) where
  abbrev pub Unwritten : World E → World E → Type 0
  Unwritten w v = m.writes v.outside ≡ m.writes w.outside

  Unwritten-preorder : IsPreorder Unwritten
  Unwritten-preorder = record { reflexive = λ w. refl; transitive = λ u v w h k. k ∙ h }

  pub store_step :
      {A : Type 0} (w : World E) (o : Outcome Store A) → Unwritten w (final (with_store w o))
  store_step w (returned a s) = refl
  store_step w (threw e s) = refl

  append_step : (r : ChangeSetRecord) → Keeps Unwritten (append r)
  unfolding append on_store
  append_step r = record { at = λ w. store_step w (append_change_set r w.store) }

  outside_step :
      {A : Type 0} (w : World E) (o : Outcome E A)
      → m.writes (final o) ≡ m.writes w.outside
      → Unwritten w (final (World.with_outside w o))
  outside_step w (returned a e) h = h
  outside_step w (threw f e) h = h

  clock_step : (w : World E) → Unwritten w (final (now host w))
  unfolding now
  clock_step w = m.clock_free w.outside

  uuid_step : (w : World E) → Unwritten w (final (random_uuid host w))
  unfolding random_uuid
  uuid_step w = m.uuid_free w.outside

  read_step :
      (a : ChangeAdapter E)
      → Memᴰ a host.adapters
      → (t : ExactTarget) → Keeps Unwritten (on_outside (a.read t))
  unfolding on_outside
  read_step a known t = record {
    at = λ w. outside_step w (a.read t w.outside) (m.read_free a known t w.outside);
  }

  pub quiet : Quiet host Unwritten
  quiet = record {
    preorder = Unwritten-preorder;
    reading = read_step;
    clock = record { at = clock_step };
    uuid = record { at = uuid_step };
    vault = λ w v. refl;
    lock = λ b w. refl;
    journal = append_step;
  }

  read_then :
      {A B : Type 0} (g : Store → Result A) (f : A → Exec (World E) B) (w : World E)
      → ((a : A) → g w.store ≡ ok a → Unwritten w (final (f a w)))
      → Unwritten w (final ((on_store (reads g) >>= f) w))
  unfolding ◌>>=◌ on_store reads attempt
  read_then {A} g f w h = go (g w.store) h
    where
      go :
          (r : Result A)
          → ((a : A) → r ≡ ok a → Unwritten w (final (f a w)))
          → Unwritten w (
              final (elim (with_store w (attempt r w.store)) [
                | returned a v ↦ f a v
                | threw e v ↦ threw e v
              ]))
      go (ok a) h = h a refl
      go (err e) h = refl

  lock_step :
      {A : Type 0} (f : Exec (World E) A) (b : Bool) (w : World E)
      → Unwritten (set_lock true w) (final (f (set_lock true w)))
      → Unwritten w (final (World.locked_run b f w))
  unfolding World.locked_run throw
  lock_step f true w h = refl
  lock_step {A} f false w h = go (f (set_lock true w)) h
    where
      go : (o : Outcome (World E) A) → Unwritten w (final o) → Unwritten w (final (World.unlock o))
      go (returned a v) h = h
      go (threw e v) h = h

  first_apply : (status : ActionAttempt) → status ≡ replay → status ≡ unclaimed → FirstApply quiet
  first_apply replay h k = ground arith
  first_apply unclaimed h k = ground arith

  first_rollback :
      (status : ActionAttempt) → status ≡ replay → status ≡ unclaimed → FirstRollback quiet
  first_rollback replay h k = ground arith
  first_rollback unclaimed h k = ground arith

  -- The claim of the identifier asked for is the claim of the ChangeSet that is loaded.
  loaded_claim :
      (action : Action) (id : String) (s : Store) (c : ActionClaim) (r : ChangeSetRecord)
      → lookup id (claims action s) ≡ some c
      → load_change_set id s ≡ ok r
      → lookup r.change_set_id (claims action s) ≡ some c
  loaded_claim action id s c r h k =
      ap (λ i. lookup i (claims action s)) (load-checks id s r k).0 ∙ h

  apply_locked-frozen :
      (id : String) (dry_run : Bool) (key : Option String) (w : World E) (c : ActionClaim)
      → lookup id w.store.apply_claims ≡ some c
      → Unwritten w (final (apply_locked host id dry_run key w))
  unfolding apply_locked claims
  apply_locked-frozen id true key w c h =
      read_then _ _ w λ r _. (Keeps-pure Unwritten-preorder _).at w
  apply_locked-frozen id false none w c h =
      read_then _ _ w λ r _. (Keeps-throw Unwritten-preorder _).at w
  apply_locked-frozen id false (some key) w c h = read_then _ _ w λ r k. read_then _ _ w λ status l.
      let same =
        replay_only host.platform key apply_action r.change_set_id w.store c status
          (loaded_claim apply_action id w.store c r h k) l in
      (apply_by_state-Keeps quiet status (first_apply status same) key r r.state).at w

  rollback_locked-frozen :
      (id : String) (dry_run : Bool) (key : Option String) (w : World E) (c : ActionClaim)
      → lookup id w.store.rollback_claims ≡ some c
      → Unwritten w (final (rollback_locked host id dry_run key w))
  unfolding rollback_locked claims
  rollback_locked-frozen id true key w c h =
      read_then _ _ w λ r _. (Keeps-pure Unwritten-preorder _).at w
  rollback_locked-frozen id false none w c h =
      read_then _ _ w λ r _. (Keeps-throw Unwritten-preorder _).at w
  rollback_locked-frozen id false (some key) w c h = read_then _ _ w λ r k.
      read_then _ _ w λ status l.
        let same =
          replay_only host.platform key rollback_action r.change_set_id w.store c status
            (loaded_claim rollback_action id w.store c r h k) l in
        (rollback_by_state-Keeps quiet status (first_rollback status same) key r r.state).at w

  -- Once the store holds an apply claim of a ChangeSet, no later apply of that ChangeSet writes to
  -- a target, whatever its key, its state and the adapters' answers.
  pub apply-frozen :
      (id : String) (dry_run : Bool) (key : Option String) (w : World E) (c : ActionClaim)
      → lookup id w.store.apply_claims ≡ some c
      → m.writes (final (apply host id dry_run key w)).outside ≡ m.writes w.outside
  unfolding apply with_mutation_lock
  apply-frozen id dry_run key w c h =
      lock_step _ w.store.locked w (apply_locked-frozen id dry_run key (set_lock true w) c h)

  -- The same of rollbacks: once there is a rollback claim of a ChangeSet, no later rollback of it
  -- writes to a target.
  pub rollback-frozen :
      (id : String) (dry_run : Bool) (key : Option String) (w : World E) (c : ActionClaim)
      → lookup id w.store.rollback_claims ≡ some c
      → m.writes (final (rollback host id dry_run key w)).outside ≡ m.writes w.outside
  unfolding rollback with_mutation_lock
  rollback-frozen id dry_run key w c h =
      lock_step _ w.store.locked w (rollback_locked-frozen id dry_run key (set_lock true w) c h)
