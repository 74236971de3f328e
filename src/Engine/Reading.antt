-- ===== src/Engine/Reading.antt =====
-- The methods that never write to a target (src/core/engine.ts).
use tilda_mcp.Prelude.{String, ◌≡◌, Option}
use tilda_mcp.Effect.State.{Exec, final}
use tilda_mcp.Effect.Keeps.{Keeps}
use tilda_mcp.Contracts.Requests.{ChangeRequest}
use tilda_mcp.Contracts.Adapters.{Host}
use tilda_mcp.Contracts.Records.{ChangeSetTaskAuthority}
use tilda_mcp.Store.{Store}
use tilda_mcp.Store.Journal.{
  create_snapshot, discard_unreferenced_snapshot, create_change_set, find_by_idempotency_key,
}
use tilda_mcp.Engine.World.{World, on_store}
use tilda_mcp.Engine.Plan.{plan}
use tilda_mcp.Engine.Verify.{verify}
use tilda_mcp.Engine.Walk.{verify-Keeps}
use tilda_mcp.Engine.WalkPlan.{PlanQuiet, plan-Keeps}
use tilda_mcp.Engine.Once.{Meter}
use tilda_mcp.Engine.Frozen.{Unwritten, quiet, store_step}

module _ {E : Type 0} {host : Host E} (m : Meter host) where
  on_store_step : {A : Type 0} (f : Exec Store A) → Keeps (Unwritten m) (on_store f)
  unfolding on_store
  on_store_step f = record { at = λ w. store_step m w (f w.store) }

  plan_quiet : PlanQuiet host (Unwritten m)
  plan_quiet = record {
    quiet = quiet m;
    snapshot = λ s. on_store_step (create_snapshot s);
    discard = λ id. on_store_step (discard_unreferenced_snapshot id);
    creation = λ r key. on_store_step (create_change_set host.platform r key);
    search_key = λ key. on_store_step (find_by_idempotency_key host.platform key);
  }

  -- By any count of writes that reads, the clock and random identifiers leave alone:
  -- planning never writes to a target, whether it returns or throws.
  pub plan-unwritten :
      (request : ChangeRequest) (key : Option String) (authority : Option ChangeSetTaskAuthority)
      (w : World E)
      → m.writes (final (plan host request key authority w)).outside ≡ m.writes w.outside
  plan-unwritten request key authority w = (plan-Keeps plan_quiet request authority key).at w

  -- By any count of writes that reads, the clock and random identifiers leave alone:
  -- verifying never writes to a target, whether it returns or throws.
  pub verify-unwritten :
      (id : String) (w : World E) → m.writes (final (verify host id w)).outside ≡ m.writes w.outside
  verify-unwritten id w = (verify-Keeps (quiet m) id).at w
