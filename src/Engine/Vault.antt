-- ===== src/Engine/Vault.antt =====
-- `VolatileSnapshotVault` (src/core/vault.ts). Every material of the model can be cloned.
use tilda_mcp.Prelude.{String, Option, none, some}
use tilda_mcp.Dict.{lookup, insert, erase}
use tilda_mcp.Effect.Codes.{tilda, vault_conflict, plan_material_unavailable}
use tilda_mcp.Effect.State.{Exec, returned, threw}
use tilda_mcp.Engine.World.{World, VolatileChangeMaterial}

module _ {E : Type 0} where
  unfoldable pub put_new :
      String → VolatileChangeMaterial → Option VolatileChangeMaterial → Exec (World E) (Unit {0})
  put_new id m none = λ w. returned tt (record w { vault = insert id m w.vault })
  put_new id m (some old) = threw (tilda vault_conflict)

  unfoldable pub put : String → VolatileChangeMaterial → Exec (World E) (Unit {0})
  unfolding put_new
  put id m w = put_new id m (lookup id w.vault) w

  unfoldable pub take_known : Option VolatileChangeMaterial → Exec (World E) VolatileChangeMaterial
  take_known none = threw (tilda plan_material_unavailable)
  take_known (some m) = returned m

  unfoldable pub get : String → Exec (World E) VolatileChangeMaterial
  unfolding take_known
  get id w = take_known (lookup id w.vault) w

  unfoldable pub delete : String → Exec (World E) (Unit {0})
  delete id w = returned tt (record w { vault = erase id w.vault })
