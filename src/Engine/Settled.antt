-- ===== src/Engine/Settled.antt =====
-- What a call of the engine that returns has established (src/core/engine.ts).
pub mod Apply
pub mod Rollback
pub mod Verify
use mathlib.Core.Path.{subst}
use tilda_mcp.Prelude.{
  String, ◌==◌, ◌≡◌, refl, ◌⊎◌, inl, inr, Option, none, some, Bool, true, false, arith, ap, ◌∙◌,
  sym, not, ◌&&◌, Bool-cases, if◌then◌else◌,
}
use tilda_mcp.Effect.Codes.{Code, state_corrupt}
use tilda_mcp.Effect.Check.{Result, ok, err, require, >>-eq-ok, require-eq-ok}
use tilda_mcp.Effect.State.{Exec, Outcome, returned, threw, attempt, throw, ◌>>=◌}
use tilda_mcp.Effect.Triple.{Ends, Triple, Triple-pure, Triple-throw, Triple-bind, Triple-after}
use tilda_mcp.Contracts.Adapters.{AdapterState, ChangeAdapter, Host}
use tilda_mcp.Contracts.Records.{
  ChangeSetRecord, ChangeSetState, planned, applied, verified, rolled_back, VerificationRecord,
  Timestamp,
}
use tilda_mcp.Store.{Store}
use tilda_mcp.Store.Checks.{assert_change_set, assert_fields, assert_evidence, is_some, proves}
use tilda_mcp.Store.Read.{load_change_set, load_change_set_history}
use tilda_mcp.Store.Loaded.{==-sound, ==-refl, load-checks}
use tilda_mcp.Store.Journal.{reads}
use tilda_mcp.Store.Claims.{ActionAttempt, unclaimed, replay}
use tilda_mcp.Engine.World
use tilda_mcp.Engine.World.{World, VolatileChangeMaterial, on_store, with_mutation_lock}
use tilda_mcp.Engine.Calls.{
  EngineActionResult, verification, checked_now, settle_with, fail_with, found_at,
}
use tilda_mcp.Engine.Sights.{Sight, Log, Seen, now-Seen}
use tilda_mcp.Engine.Outcomes.{Dispatched, fail_and_throw, fail_and_forget, verified_state}
use tilda_mcp.Engine.Apply.{
  apply_replay, settle_recovery, apply_recover, settle_apply, apply_attempt, apply_planned,
  return_settled, apply_by_state, apply_locked, apply,
}
use tilda_mcp.Engine.Verify.{verify_locked, verify}
use tilda_mcp.Engine.Rollback.{
  settle_rollback, rollback_replay, settle_restore, rollback_remote, rollback_attempt,
  rollback_open, return_rolled_back, rollback_by_state, rollback_locked, rollback,
}

-- The ChangeSet is applied: its state says so, a hash is recorded as applied, and a verification
-- has found the hash that was planned.
pub record IsApplied (r : ChangeSetRecord) : Type 0 where
  pub state : (r.state ≡ applied) ⊎ (r.state ≡ verified)
  pub recorded : is_some r.applied_hash ≡ true
  pub proven : proves r.verification r.expected_after_hash ≡ true

-- The ChangeSet is rolled back, and a verification has found the hash from before it.
pub record IsRolledBack (r : ChangeSetRecord) : Type 0 where
  pub state : r.state ≡ rolled_back
  pub proven : proves r.verification r.expected_before_hash ≡ true

pub proves-verification :
    (t : Timestamp) (h k : String) → (k == h) ≡ true → proves (some (verification t h k)) h ≡ true
unfolding proves verification ◌==◌
proves-verification t h k e = ground arith

pub applied_evidence :
    (r : ChangeSetRecord) (s : ChangeSetState)
    → (s ≡ applied) ⊎ (s ≡ verified)
    → r.state ≡ s
    → assert_evidence r s ≡ ok tt
    → IsApplied r
unfolding assert_evidence
applied_evidence r applied k e h =
    let (recorded, proven) = >>-eq-ok (require (is_some r.applied_hash) state_corrupt) _ h in
    record {
      state = inl e;
      recorded = require-eq-ok _ _ recorded;
      proven = require-eq-ok _ _ proven;
    }
applied_evidence r verified k e h =
    let (recorded, proven) = >>-eq-ok (require (is_some r.applied_hash) state_corrupt) _ h in
    record {
      state = inr e;
      recorded = require-eq-ok _ _ recorded;
      proven = require-eq-ok _ _ proven;
    }
applied_evidence r planned k e h = ground arith
applied_evidence r rolled_back k e h = ground arith
applied_evidence r ChangeSetState.failed k e h = ground arith

pub rolled_back_evidence :
    (r : ChangeSetRecord)
    → r.state ≡ rolled_back
    → assert_evidence r rolled_back ≡ ok tt
    → IsRolledBack r
unfolding assert_evidence
rolled_back_evidence r e h = record { state = e; proven = require-eq-ok _ _ h }

pub evidence :
    (r : ChangeSetRecord) (s : ChangeSetState)
    → r.state ≡ s
    → assert_change_set r ≡ ok tt
    → assert_evidence r s ≡ ok tt
unfolding assert_change_set
evidence r s e h = ap (assert_evidence r) (sym e) ∙ (>>-eq-ok (assert_fields r) _ h).1

module _ {E : Type 0} (host : Host E) {A : Type 0} {P : World E → Type 0}
    {Q : A → World E → Type 0} where
  -- What fails does not return.
  pub fail_and_throw-Triple :
      (r : ChangeSetRecord) (c : Code) (o : Option String) (h : String) (s : Option AdapterState)
      (d : Code)
      → Triple P Q (fail_and_throw host r c o h s d)
  unfolding fail_and_throw
  fail_and_throw-Triple r c o h s d =
      Triple-after _ λ t. Triple-after _ λ v. Triple-after _ λ _. Triple-throw d

  pub fail_and_forget-Triple :
      (r : ChangeSetRecord) (c : Code) (o : Option String) (h : String) (s : Option AdapterState)
      (d : Code)
      → Triple P Q (fail_and_forget host r c o h s d)
  unfolding fail_and_forget
  fail_and_forget-Triple r c o h s d =
      Triple-after _ λ t. Triple-after _ λ v. Triple-after _ λ _. Triple-after _ λ _. Triple-throw d

module _ {E : Type 0} {host : Host E} (log : Log host) (x : Sight) where
  pub checked_now-Seen :
      (h k : String)
      → Triple
          (Seen log x)
          (λ v w. (v ≡ verification v.checked_at h k) × Seen log x w)
          (checked_now host h k)
  unfolding checked_now verification
  checked_now-Seen h k =
      Triple-bind (now-Seen log x) λ t. Triple-pure (verification t h k) λ w seen. (refl, seen)

module _ {E A : Type 0} (Q : A → World E → Type 0) where
  found_step :
      {B : Type 0} (r : Result B) (w : World E) (f : B → Exec (World E) A)
      → ((b : B) → r ≡ ok b → Ends Q (f b w))
      → Ends Q (elim (World.with_store w (attempt r w.store)) [
        | returned b v ↦ f b v
        | threw e v ↦ threw e v
      ])
  unfolding attempt
  found_step (ok b) w f h = h b refl
  found_step (err e) w f h = tt

  -- A read of the store hands on what it found.
  pub read-Ends :
      {B : Type 0} (g : Store → Result B) (f : B → Exec (World E) A) (w : World E)
      → ((b : B) → g w.store ≡ ok b → Ends Q (f b w))
      → Ends Q ((on_store (reads g) >>= f) w)
  unfolding ◌>>=◌ on_store reads
  read-Ends g f w h = found_step (g w.store) w f h

  unlock_step :
      (o : Outcome (World E) A)
      → ((a : A) (w : World E) → Q a w → Q a (World.set_lock false w))
      → Ends Q o
      → Ends Q (World.unlock o)
  unlock_step (returned a w) keep q = keep a w q
  unlock_step (threw e w) keep q = tt

  lock_step :
      (m : Exec (World E) A) (b : Bool) (w : World E)
      → ((a : A) (w : World E) → Q a w → Q a (World.set_lock false w))
      → Ends Q (m (World.set_lock true w))
      → Ends Q (World.locked_run b m w)
  unfolding World.locked_run throw
  lock_step m true w keep q = tt
  lock_step m false w keep q = unlock_step (m (World.set_lock true w)) keep q

  pub locked-Ends :
      (m : Exec (World E) A) (w : World E)
      → ((a : A) (w : World E) → Q a w → Q a (World.set_lock false w))
      → Ends Q (m (World.set_lock true w))
      → Ends Q (with_mutation_lock m w)
  unfolding with_mutation_lock
  locked-Ends m w keep q = lock_step m w.store.locked w keep q

-- The lock hides nothing of the journals.
pub load-unlocked :
    {E : Type 0} (id : String) (w : World E)
    → load_change_set id (World.set_lock true w).store ≡ load_change_set id w.store
unfolding load_change_set load_change_set_history
load-unlocked id w = refl

pub found_at-some :
    (o : Option AdapterState) (h : String) (s : AdapterState)
    → found_at o h ≡ some s
    → (o ≡ some s) × ((s.hash == h) ≡ true)
unfolding found_at
found_at-some none h s e = cc
found_at-some (some k) h s e = elim (Bool-cases (k.hash == h)) [
  | inl p ↦
      let same : k ≡ s = ground arith in (ap some same, subst (λ s. (s.hash == h) ≡ true) same p)
  | inr p ↦ ground arith
]
