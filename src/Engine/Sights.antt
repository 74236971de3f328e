-- ===== src/Engine/Sights.antt =====
-- What the adapters have shown of their targets (src/core/contracts.ts, src/core/engine.ts).
use mathlib.Core.List.{Memᴰ}
use tilda_mcp.Prelude.{String, Option, none, some, List}
use tilda_mcp.Effect.State.{Outcome, returned, threw, Exec}
use tilda_mcp.Effect.Triple.{
  Ends, Triple, Always, Triple-pure, Triple-bind, Triple-attempt, Triple-catch,
}
use tilda_mcp.Contracts.Targets.{ExactTarget}
use tilda_mcp.Contracts.Adapters.{AdapterState, PlannedMutation, ChangeAdapter, Host}
use tilda_mcp.Contracts.Records.{ChangeSetRecord}
use tilda_mcp.Store.{Store}
use tilda_mcp.Engine.Vault
use tilda_mcp.Engine.World.{World, with_store, with_outside, on_store, on_outside}
use tilda_mcp.Engine.Calls.{checked_read, diagnostic_read, append, now}

-- A hash that a read of a target has shown, or that the result of a write has.
pub data Sight : Type 0 where
  read_back : ExactTarget → String → Sight
  write_result : PlannedMutation → String → Sight

-- A log of what is outside: every state that a read or a write returns is in it afterwards, and the
-- clock takes nothing away.
pub record Log {E : Type 0} (host : Host E) : Type 0 where
  pub sights : E → List Sight
  pub read_logged :
      (a : ChangeAdapter E)
      → Memᴰ a host.adapters
      → (t : ExactTarget) (e : E) → Ends (λ s v. Memᴰ (read_back t s.hash) (sights v)) (a.read t e)
  pub write_logged :
      (a : ChangeAdapter E)
      → Memᴰ a host.adapters
      → (p : PlannedMutation) (e : E)
      → Ends (λ s v. Memᴰ (write_result p s.hash) (sights v)) (a.apply p e)
  pub clock_keeps : (x : Sight) (e : E) → Memᴰ x (sights e) → Memᴰ x (sights (host.now e).1)

module _ {E : Type 0} {host : Host E} (log : Log host) where
  abbrev pub Seen : Sight → World E → Type 0
  Seen x w = Memᴰ x (log.sights w.outside)

  outside_step :
      {A : Type 0} (Q : A → E → Type 0) (w : World E) (o : Outcome E A)
      → Ends Q o
      → Ends (λ a v. Q a v.outside) (with_outside w o)
  outside_step Q w (returned a v) h = h
  outside_step Q w (threw e v) h = h

  module _ (a : ChangeAdapter E) (known : Memᴰ a host.adapters) where
    pub read-Seen :
        (t : ExactTarget)
        → Triple Always (λ s w. Seen (read_back t s.hash) w) (on_outside (a.read t))
    unfolding on_outside
    read-Seen t = record {
      at = λ w _. outside_step _ w (a.read t w.outside) (log.read_logged a known t w.outside);
    }

    pub write-Seen :
        (p : PlannedMutation)
        → Triple Always (λ s w. Seen (write_result p s.hash) w) (on_outside (a.apply p))
    unfolding on_outside
    write-Seen p = record {
      at = λ w _. outside_step _ w (a.apply p w.outside) (log.write_logged a known p w.outside);
    }

    pub checked_read-Seen :
        (t : ExactTarget) → Triple Always (λ s w. Seen (read_back t s.hash) w) (checked_read a t)
    unfolding checked_read
    checked_read-Seen t =
        Triple-bind (read-Seen t) λ s. Triple-attempt _ λ _ _. Triple-pure s λ w h. h

    -- Where the read fails nothing is known.
    abbrev pub IfRead : ExactTarget → Option AdapterState → World E → Type 0
    IfRead t none w = Unit
    IfRead t (some s) w = Seen (read_back t s.hash) w

    pub diagnostic_read-Seen : (t : ExactTarget) → Triple Always (IfRead t) (diagnostic_read a t)
    unfolding diagnostic_read
    diagnostic_read-Seen t =
        Triple-catch (Triple-bind (checked_read-Seen t) λ s. Triple-pure (some s) λ w h. h)
          λ e. Triple-pure none λ w h. tt

  -- The store does not touch what was seen, nor do the clock and the vault.
  store_step :
      {A : Type 0} (x : Sight) (w : World E) (o : Outcome Store A)
      → Seen x w
      → Ends (λ _. Seen x) (with_store w o)
  store_step x w (returned a s) h = h
  store_step x w (threw e s) h = tt

  pub on_store-Seen :
      {A : Type 0} (x : Sight) (m : Exec Store A) → Triple (Seen x) (λ _. Seen x) (on_store m)
  unfolding on_store
  on_store-Seen x m = record { at = λ w h. store_step x w (m w.store) h }

  pub append-Seen : (x : Sight) (r : ChangeSetRecord) → Triple (Seen x) (λ _. Seen x) (append r)
  unfolding append
  append-Seen x r = on_store-Seen x _

  pub delete-Seen : (x : Sight) (id : String) → Triple (Seen x) (λ _. Seen x) (Vault.delete id)
  unfolding Vault.delete
  delete-Seen x id = record { at = λ w h. h }

  pub now-Seen : (x : Sight) → Triple (Seen x) (λ _. Seen x) (now host)
  unfolding now
  now-Seen x = record { at = λ w h. log.clock_keeps x w.outside h }
