-- ===== src/Engine/Verify.antt =====
-- `verify` (src/core/engine.ts).
use tilda_mcp.Prelude.{String, some, true, false}
use tilda_mcp.Effect.Codes.{verification_failed}
use tilda_mcp.Effect.State.{Exec, pure, attempt, guard, ◌>>=◌, ◌>>◌}
use tilda_mcp.Contracts.Adapters.{Host}
use tilda_mcp.Store.Read.{load_change_set}
use tilda_mcp.Store.Journal.{reads}
use tilda_mcp.Engine.World.{World, on_store, with_mutation_lock}
use tilda_mcp.Engine.Registry.{by_id}
use tilda_mcp.Engine.Calls.{
  EngineActionResult, expected_for_verification, checked_read, append, now, checked_now,
}
use tilda_mcp.Engine.Outcomes.{result, verified_state}

module _ {E : Type 0} (host : Host E) where
  unfoldable pub verify_locked : String → Exec (World E) EngineActionResult
  verify_locked id = do
    r ← on_store (reads (load_change_set id))
    expected ← attempt (expected_for_verification r)
    adapter ← attempt (by_id host.adapters r.adapter)
    actual ← checked_read adapter r.target
    v ← checked_now host expected actual.hash
    t ← now host
    let next = record r {
      state = verified_state v.exact_match r.state;
      updated_at = t;
      verification = some v;
    }
    append next
    guard v.exact_match verification_failed
    pure (result next false true)

  unfoldable pub verify : String → Exec (World E) EngineActionResult
  verify id = with_mutation_lock (verify_locked id)
