-- ===== src/Engine/World.antt =====
-- What the methods of the engine change: the store, the vault and everything outside the process.
use tilda_mcp.Prelude.{Bool, true, false}
use tilda_mcp.Dict.{Dict}
use tilda_mcp.Effect.Codes.{concurrent_operation}
use tilda_mcp.Effect.State.{Outcome, returned, threw, Exec, throw}
use tilda_mcp.Contracts.Requests.{ChangeRequest}
use tilda_mcp.Contracts.Adapters.{AdapterState, PlannedMutation}
use tilda_mcp.Store.{Store}

-- `VolatileChangeMaterial` (src/core/vault.ts).
pub record VolatileChangeMaterial : Type 0 where
  pub request : ChangeRequest
  pub before : AdapterState
  pub plan : PlannedMutation

pub record World (E : Type 0) : Type 0 where
  pub store : Store
  pub vault : Dict VolatileChangeMaterial
  pub outside : E

abbrev pub set_lock : {E : Type 0} → Bool → World E → World E
set_lock b w = record w { store = record (w.store) { locked = b } }

module _ {E A : Type 0} where
  -- The state of a part, put back into the whole.
  abbrev pub with_store : World E → Outcome Store A → Outcome (World E) A
  with_store w (returned a s) = returned a (record w { store = s })
  with_store w (threw e s) = threw e (record w { store = s })

  abbrev pub with_outside : World E → Outcome E A → Outcome (World E) A
  with_outside w (returned a e) = returned a (record w { outside = e })
  with_outside w (threw f e) = threw f (record w { outside = e })

  -- A method of the store, and a call to the outside.
  unfoldable pub on_store : Exec Store A → Exec (World E) A
  on_store m w = with_store w (m w.store)

  unfoldable pub on_outside : Exec E A → Exec (World E) A
  on_outside m w = with_outside w (m w.outside)

  abbrev pub unlock : Outcome (World E) A → Outcome (World E) A
  unlock (returned a w) = returned a (set_lock false w)
  unlock (threw e w) = threw e (set_lock false w)

  unfoldable pub locked_run : Bool → Exec (World E) A → Exec (World E) A
  locked_run true action = throw concurrent_operation
  locked_run false action = λ w. unlock (action (set_lock true w))

  -- `withMutationLock` (src/core/store.ts).
  unfoldable pub with_mutation_lock : Exec (World E) A → Exec (World E) A
  unfolding locked_run
  with_mutation_lock action w = locked_run w.store.locked action w
