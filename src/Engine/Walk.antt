-- ===== src/Engine/Walk.antt =====
-- `apply`, `verify` and `rollback` walked by the rules of a quiet relation: what is left open is
-- the first attempt, which writes to the target (src/core/engine.ts).
use mathlib.Core.List.{Memᴰ}
use tilda_mcp.Prelude.{String, ◌≡◌, refl, Option, none, some, Bool, true, false}
use tilda_mcp.Effect.Codes.{Code}
use tilda_mcp.Effect.Keeps.{
  Keeps, Keeps-pure, Keeps-throw, Keeps-attempt, Keeps-bind, Keeps-bind-attempt, Keeps-if,
  Keeps-weaken,
}
use tilda_mcp.Contracts.Adapters.{AdapterState, ChangeAdapter, Host}
use tilda_mcp.Contracts.Records.{
  ChangeSetRecord, ChangeSetState, planned, applied, verified, rolled_back,
}
use tilda_mcp.Store.Claims.{ActionAttempt, unclaimed, replay}
use tilda_mcp.Engine.World.{World, VolatileChangeMaterial}
use tilda_mcp.Engine.Apply.{
  apply_replay, apply_recover, settle_recovery, settle_found, settle_apply, apply_attempt,
  apply_planned, return_settled, apply_by_state, apply_locked, apply,
}
use tilda_mcp.Engine.Outcomes.{Dispatched}
use tilda_mcp.Engine.Verify.{verify_locked, verify}
use tilda_mcp.Engine.Rollback.{
  settle_rollback, rollback_replay, settle_restored, settle_restore, rollback_attempt,
  rollback_open, return_rolled_back, rollback_by_state, rollback_locked, rollback,
}
use tilda_mcp.Engine.Quiet.{
  Quiet, by_id-mem, Keeps-reads, checked_read-Keeps, checked_now-Keeps, get-Keeps, delete-Keeps,
  fail_and_throw-Keeps, fail_and_forget-Keeps, with_mutation_lock-Keeps,
}

module _ {E : Type 0} {host : Host E} {R : World E → World E → Type 0} (q : Quiet host R) where
  open q use {preorder, clock, journal}

  pub apply_replay-Keeps :
      (r : ChangeSetRecord) (fresh : AdapterState) → Keeps R (apply_replay host r fresh)
  unfolding apply_replay
  apply_replay-Keeps r fresh =
      Keeps-if _
        (Keeps-bind preorder clock λ t.
          Keeps-bind preorder (checked_now-Keeps q _ _)
            λ v. Keeps-bind preorder (journal _) λ _. Keeps-pure preorder _)
        (Keeps-if _ (fail_and_forget-Keeps q _ _ _ _ _ _) (fail_and_throw-Keeps q _ _ _ _ _ _))

  -- What follows a recovery.
  pub apply_recover-Keeps :
      (r : ChangeSetRecord) (after recovered : Option AdapterState)
      → Keeps R (settle_recovery host r after recovered)
  unfolding settle_recovery
  apply_recover-Keeps r after recovered =
      Keeps-if _ (fail_and_forget-Keeps q _ _ _ _ _ _) (fail_and_throw-Keeps q _ _ _ _ _ _)

  settle_found-Keeps :
      {Q : World E → World E → Type 0} (a : ChangeAdapter E) (before : AdapterState)
      (r : ChangeSetRecord) (d : Dispatched) (found : Option AdapterState)
      → ((u v : World E) → R u v → Q u v)
      → Keeps Q (apply_recover host a before r d.after)
      → Keeps Q (settle_found host a before r d found)
  unfolding settle_found
  settle_found-Keeps a before r d (some s) weaken h = Keeps-weaken weaken (
      Keeps-bind preorder clock λ t.
        Keeps-bind preorder (checked_now-Keeps q _ _)
          λ v. Keeps-bind preorder (journal _) λ _. Keeps-pure preorder _)
  settle_found-Keeps a before r d none weaken h = Keeps-if _ h (
      Keeps-if _ (Keeps-weaken weaken (fail_and_forget-Keeps q _ _ _ _ _ _))
        (Keeps-weaken weaken (fail_and_throw-Keeps q _ _ _ _ _ _)))

  -- The rest of a first attempt, for a weaker relation that the recovery keeps.
  pub settle_apply-Keeps :
      {Q : World E → World E → Type 0} (a : ChangeAdapter E) (before : AdapterState)
      (r : ChangeSetRecord) (d : Dispatched)
      → ((u v : World E) → R u v → Q u v)
      → Keeps Q (apply_recover host a before r d.after)
      → Keeps Q (settle_apply host a before r d)
  unfolding settle_apply
  settle_apply-Keeps a before r d weaken h =
      Keeps-if _ (Keeps-weaken weaken (fail_and_throw-Keeps q _ _ _ _ _ _))
        (settle_found-Keeps a before r d _ weaken h)

  abbrev pub FirstApply : Type 0
  FirstApply =
      (a : ChangeAdapter E)
      → Memᴰ a host.adapters
      → (m : VolatileChangeMaterial) (key : String) (r : ChangeSetRecord) (fresh : AdapterState)
      → Keeps R (apply_attempt host a m key r fresh unclaimed)

  apply_attempt-Keeps :
      (status : ActionAttempt)
      → (status ≡ unclaimed → FirstApply)
      → (a : ChangeAdapter E) → Memᴰ a host.adapters
      → (m : VolatileChangeMaterial) (key : String) (r : ChangeSetRecord) (fresh : AdapterState)
      → Keeps R (apply_attempt host a m key r fresh status)
  unfolding apply_attempt
  apply_attempt-Keeps replay first a known m key r fresh = apply_replay-Keeps r fresh
  apply_attempt-Keeps unclaimed first a known m key r fresh = first refl a known m key r fresh

  apply_planned-Keeps :
      (status : ActionAttempt)
      → (status ≡ unclaimed → FirstApply)
      → (key : String) (r : ChangeSetRecord) → Keeps R (apply_planned host key r status)
  unfolding apply_planned
  apply_planned-Keeps status first key r = Keeps-bind-attempt preorder _ _ λ a known.
      let mem = by_id-mem host.adapters r.adapter a known in
      Keeps-bind preorder (get-Keeps q _) λ m. Keeps-bind preorder (Keeps-attempt preorder _) λ _.
        Keeps-bind preorder (checked_read-Keeps q a mem _)
          λ fresh. apply_attempt-Keeps status first a mem m key r fresh

  return_settled-Keeps :
      (r : ChangeSetRecord) (status : ActionAttempt) → Keeps R (return_settled host r status)
  unfolding return_settled
  return_settled-Keeps r replay = Keeps-pure preorder _
  return_settled-Keeps r unclaimed = Keeps-throw preorder _

  pub apply_by_state-Keeps :
      (status : ActionAttempt)
      → (status ≡ unclaimed → FirstApply)
      → (key : String) (r : ChangeSetRecord) (s : ChangeSetState)
      → Keeps R (apply_by_state host key r status s)
  unfolding apply_by_state
  apply_by_state-Keeps status first key r applied = return_settled-Keeps r status
  apply_by_state-Keeps status first key r verified = return_settled-Keeps r status
  apply_by_state-Keeps status first key r planned = apply_planned-Keeps status first key r
  apply_by_state-Keeps status first key r _ = Keeps-throw preorder _

  apply_locked-Keeps :
      FirstApply
      → (id : String) (dry_run : Bool) (key : Option String)
      → Keeps R (apply_locked host id dry_run key)
  unfolding apply_locked
  apply_locked-Keeps first id true key =
      Keeps-bind preorder (Keeps-reads q _) λ r. Keeps-pure preorder _
  apply_locked-Keeps first id false none =
      Keeps-bind preorder (Keeps-reads q _) λ r. Keeps-throw preorder _
  apply_locked-Keeps first id false (some key) = Keeps-bind preorder (Keeps-reads q _) λ r.
      Keeps-bind preorder (Keeps-reads q _)
        λ status. apply_by_state-Keeps status (λ _. first) key r r.state

  pub apply-Keeps :
      FirstApply
      → (id : String) (dry_run : Bool) (key : Option String) → Keeps R (apply host id dry_run key)
  unfolding apply
  apply-Keeps first id dry_run key =
      with_mutation_lock-Keeps q (apply_locked-Keeps first id dry_run key)

  verify_locked-Keeps : (id : String) → Keeps R (verify_locked host id)
  unfolding verify_locked
  verify_locked-Keeps id = Keeps-bind preorder (Keeps-reads q _) λ r.
      Keeps-bind preorder (Keeps-attempt preorder _) λ expected.
        Keeps-bind-attempt preorder _ _ λ a known.
          Keeps-bind preorder (checked_read-Keeps q a (by_id-mem host.adapters r.adapter a known) _)
            λ actual. Keeps-bind preorder (checked_now-Keeps q _ _) λ v.
              Keeps-bind preorder clock λ t.
                Keeps-bind preorder (journal _)
                  λ _. Keeps-bind preorder (Keeps-attempt preorder _) λ _. Keeps-pure preorder _

  pub verify-Keeps : (id : String) → Keeps R (verify host id)
  unfolding verify
  verify-Keeps id = with_mutation_lock-Keeps q (verify_locked-Keeps id)

  pub settle_rollback-Keeps :
      (r : ChangeSetRecord) (actual : String) (code : Option Code) (changed : Bool)
      → Keeps R (settle_rollback host r actual code changed)
  unfolding settle_rollback
  settle_rollback-Keeps r actual code changed = Keeps-bind preorder clock λ t.
      Keeps-bind preorder (checked_now-Keeps q _ _) λ v.
        Keeps-bind preorder (journal _)
          λ _. Keeps-bind preorder (delete-Keeps q _) λ _. Keeps-pure preorder _

  pub rollback_replay-Keeps :
      (r : ChangeSetRecord) (fresh : AdapterState) → Keeps R (rollback_replay host r fresh)
  unfolding rollback_replay
  rollback_replay-Keeps r fresh = Keeps-if _ (settle_rollback-Keeps r _ _ _) (
      Keeps-if _ (Keeps-if _ (Keeps-throw preorder _) (fail_and_throw-Keeps q _ _ _ _ _ _))
        (Keeps-if _ (Keeps-throw preorder _) (fail_and_throw-Keeps q _ _ _ _ _ _)))

  settle_restored-Keeps :
      (r : ChangeSetRecord) (d : Dispatched) (found : Option AdapterState)
      → Keeps R (settle_restored host r d found)
  unfolding settle_restored
  settle_restored-Keeps r d (some s) = settle_rollback-Keeps r _ _ _
  settle_restored-Keeps r d none =
      Keeps-if _ (fail_and_throw-Keeps q _ _ _ _ _ _) (fail_and_throw-Keeps q _ _ _ _ _ _)

  pub settle_restore-Keeps :
      (r : ChangeSetRecord) (d : Dispatched) → Keeps R (settle_restore host r d)
  unfolding settle_restore
  settle_restore-Keeps r d =
      Keeps-if _ (fail_and_throw-Keeps q _ _ _ _ _ _) (settle_restored-Keeps r d _)

  abbrev pub FirstRollback : Type 0
  FirstRollback =
      (a : ChangeAdapter E)
      → Memᴰ a host.adapters
      → (key : String) (r : ChangeSetRecord) (fresh : AdapterState)
      → Keeps R (rollback_attempt host a key r fresh unclaimed)

  rollback_attempt-Keeps :
      (status : ActionAttempt)
      → (status ≡ unclaimed → FirstRollback)
      → (a : ChangeAdapter E) → Memᴰ a host.adapters
      → (key : String) (r : ChangeSetRecord) (fresh : AdapterState)
      → Keeps R (rollback_attempt host a key r fresh status)
  unfolding rollback_attempt
  rollback_attempt-Keeps replay first a known key r fresh = rollback_replay-Keeps r fresh
  rollback_attempt-Keeps unclaimed first a known key r fresh = first refl a known key r fresh

  rollback_open-Keeps :
      (status : ActionAttempt)
      → (status ≡ unclaimed → FirstRollback)
      → (key : String) (r : ChangeSetRecord) → Keeps R (rollback_open host key r status)
  unfolding rollback_open
  rollback_open-Keeps status first key r = Keeps-bind-attempt preorder _ _ λ a known.
      let mem = by_id-mem host.adapters r.adapter a known in
      Keeps-bind preorder (checked_read-Keeps q a mem _) λ fresh.
        Keeps-bind preorder (Keeps-reads q _) λ snapshot.
          Keeps-bind preorder (Keeps-attempt preorder _)
            λ _. rollback_attempt-Keeps status first a mem key r fresh

  return_rolled_back-Keeps :
      (r : ChangeSetRecord) (status : ActionAttempt) → Keeps R (return_rolled_back host r status)
  unfolding return_rolled_back
  return_rolled_back-Keeps r replay = Keeps-pure preorder _
  return_rolled_back-Keeps r unclaimed = Keeps-throw preorder _

  pub rollback_by_state-Keeps :
      (status : ActionAttempt)
      → (status ≡ unclaimed → FirstRollback)
      → (key : String) (r : ChangeSetRecord) (s : ChangeSetState)
      → Keeps R (rollback_by_state host key r status s)
  unfolding rollback_by_state
  rollback_by_state-Keeps status first key r rolled_back = return_rolled_back-Keeps r status
  rollback_by_state-Keeps status first key r _ = rollback_open-Keeps status first key r

  rollback_locked-Keeps :
      FirstRollback
      → (id : String) (dry_run : Bool) (key : Option String)
      → Keeps R (rollback_locked host id dry_run key)
  unfolding rollback_locked
  rollback_locked-Keeps first id true key =
      Keeps-bind preorder (Keeps-reads q _) λ r. Keeps-pure preorder _
  rollback_locked-Keeps first id false none =
      Keeps-bind preorder (Keeps-reads q _) λ r. Keeps-throw preorder _
  rollback_locked-Keeps first id false (some key) = Keeps-bind preorder (Keeps-reads q _) λ r.
      Keeps-bind preorder (Keeps-reads q _)
        λ status. rollback_by_state-Keeps status (λ _. first) key r r.state

  pub rollback-Keeps :
      FirstRollback
      → (id : String) (dry_run : Bool) (key : Option String)
      → Keeps R (rollback host id dry_run key)
  unfolding rollback
  rollback-Keeps first id dry_run key =
      with_mutation_lock-Keeps q (rollback_locked-Keeps first id dry_run key)
