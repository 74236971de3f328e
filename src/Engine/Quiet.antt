-- ===== src/Engine/Quiet.antt =====
-- Rules for relations that the engine keeps wherever it does not write to a target: each method
-- is walked once, for every such relation (src/core/engine.ts).
use mathlib.Core.List.{Memᴰ}
use tilda_mcp.Prelude.{
  String, ◌==◌, ◌≡◌, Option, none, some, Bool, List, [], ◌∷◌, arith, Bool-cases, inl, inr,
}
use tilda_mcp.Dict.{Dict}
use tilda_mcp.Effect.Codes.{Code}
use tilda_mcp.Effect.Check.{Result, ok, err}
use tilda_mcp.Effect.State.{Exec, final, attempt}
use tilda_mcp.Effect.Keeps.{
  IsPreorder, Keeps, Keeps-pure, Keeps-throw, Keeps-attempt, Keeps-bind, Keeps-catch,
}
use tilda_mcp.Contracts.Targets.{ExactTarget}
use tilda_mcp.Contracts.Adapters.{AdapterState, ChangeAdapter, Host}
use tilda_mcp.Contracts.Records.{ChangeSetRecord, VerificationRecord}
use tilda_mcp.Store.{Store}
use tilda_mcp.Store.Journal.{reads}
use tilda_mcp.Engine.Locking
use tilda_mcp.Engine.World.{
  World, VolatileChangeMaterial, with_store, on_store, on_outside, set_lock, with_mutation_lock,
}
use tilda_mcp.Engine.Registry.{by_id}
use tilda_mcp.Engine.Vault
use tilda_mcp.Engine.Calls.{
  checked_read, diagnostic_read, append, now, random_uuid, checked_now, checked_if_read,
}
use tilda_mcp.Engine.Outcomes.{fail_and_throw, fail_and_forget}

pub record Quiet {E : Type 0} (host : Host E) (R : World E → World E → Type 0) : Type 0 where
  pub preorder : IsPreorder R
  pub reading :
      (a : ChangeAdapter E)
      → Memᴰ a host.adapters
      → (t : ExactTarget) → Keeps R (on_outside (a.read t))
  pub clock : Keeps R (now host)
  pub uuid : Keeps R (random_uuid host)
  pub vault : (w : World E) (v : Dict VolatileChangeMaterial) → R w (record w { vault = v })
  pub lock : (b : Bool) (w : World E) → R w (set_lock b w)
  pub journal : (r : ChangeSetRecord) → Keeps R (append r)

pub by_id-mem :
    {E : Type 0} (as' : List (ChangeAdapter E)) (id : String) (a : ChangeAdapter E)
    → by_id as' id ≡ ok a
    → Memᴰ a as'
unfolding by_id
by_id-mem [] id a h = cc
by_id-mem (b ∷ as') id a h = elim (Bool-cases (b.id == id)) [
  | inl same ↦ Memᴰ.head (ground arith)
  | inr other ↦ Memᴰ.tail (by_id-mem as' id a (ground arith))
]

module _ {E : Type 0} {host : Host E} {R : World E → World E → Type 0} (q : Quiet host R) where
  reads_step :
      {A : Type 0} (r : Result A) (w : World E) → R w (final (with_store w (attempt r w.store)))
  unfolding attempt
  reads_step (ok a) w = q.preorder.reflexive w
  reads_step (err e) w = q.preorder.reflexive w

  pub Keeps-reads : {A : Type 0} (f : Store → Result A) → Keeps R (on_store (reads f))
  unfolding on_store reads
  Keeps-reads f = record { at = λ w. reads_step (f w.store) w }

  module _ (a : ChangeAdapter E) (known : Memᴰ a host.adapters) where
    pub checked_read-Keeps : (t : ExactTarget) → Keeps R (checked_read a t)
    unfolding checked_read
    checked_read-Keeps t =
        Keeps-bind q.preorder (q.reading a known t)
          λ s. Keeps-bind q.preorder (Keeps-attempt q.preorder _) λ _. Keeps-pure q.preorder s

    pub diagnostic_read-Keeps : (t : ExactTarget) → Keeps R (diagnostic_read a t)
    unfolding diagnostic_read
    diagnostic_read-Keeps t =
        Keeps-catch q.preorder
          (Keeps-bind q.preorder (checked_read-Keeps t) λ s. Keeps-pure q.preorder _)
          (λ _. Keeps-pure q.preorder none)

  pub checked_now-Keeps : (expected actual : String) → Keeps R (checked_now host expected actual)
  unfolding checked_now
  checked_now-Keeps expected actual = Keeps-bind q.preorder q.clock λ t. Keeps-pure q.preorder _

  pub checked_if_read-Keeps :
      (expected : String) (state : Option AdapterState) (old : Option VerificationRecord)
      → Keeps R (checked_if_read host expected state old)
  unfolding checked_if_read
  checked_if_read-Keeps expected none old = Keeps-pure q.preorder old
  checked_if_read-Keeps expected (some s) old =
      Keeps-bind q.preorder (checked_now-Keeps expected s.hash) λ v. Keeps-pure q.preorder _

  pub delete-Keeps : (id : String) → Keeps R (Vault.delete id)
  unfolding Vault.delete
  delete-Keeps id = record { at = λ w. q.vault w _ }

  get_step : (o : Option VolatileChangeMaterial) (w : World E) → R w (final (Vault.take_known o w))
  unfolding Vault.take_known
  get_step none w = q.preorder.reflexive w
  get_step (some m) w = q.preorder.reflexive w

  pub get-Keeps : (id : String) → Keeps R (Vault.get id)
  unfolding Vault.get
  get-Keeps id = record { at = λ w. get_step _ w }

  put_step :
      (id : String) (m : VolatileChangeMaterial) (o : Option VolatileChangeMaterial) (w : World E)
      → R w (final (Vault.put_new id m o w))
  unfolding Vault.put_new
  put_step id m none w = q.vault w _
  put_step id m (some old) w = q.preorder.reflexive w

  pub put-Keeps : (id : String) (m : VolatileChangeMaterial) → Keeps R (Vault.put id m)
  unfolding Vault.put
  put-Keeps id m = record { at = λ w. put_step id m _ w }

  module _ {A : Type 0} (r : ChangeSetRecord) (recorded : Code) (applied_hash : Option String)
      (expected : String) (state : Option AdapterState) (thrown : Code) where
    pub fail_and_throw-Keeps :
        Keeps R (fail_and_throw host {A = A} r recorded applied_hash expected state thrown)
    unfolding fail_and_throw
    fail_and_throw-Keeps = Keeps-bind q.preorder q.clock λ t.
        Keeps-bind q.preorder (checked_if_read-Keeps expected state _)
          λ v. Keeps-bind q.preorder (q.journal _) λ _. Keeps-throw q.preorder thrown

    pub fail_and_forget-Keeps :
        Keeps R (fail_and_forget host {A = A} r recorded applied_hash expected state thrown)
    unfolding fail_and_forget
    fail_and_forget-Keeps = Keeps-bind q.preorder q.clock λ t.
        Keeps-bind q.preorder (checked_if_read-Keeps expected state _) λ v.
          Keeps-bind q.preorder (q.journal _)
            λ _. Keeps-bind q.preorder (delete-Keeps _) λ _. Keeps-throw q.preorder thrown

  pub with_mutation_lock-Keeps :
      {A : Type 0} {m : Exec (World E) A} → Keeps R m → Keeps R (with_mutation_lock m)
  with_mutation_lock-Keeps h = Locking.with_mutation_lock-Keeps q.preorder q.lock h
