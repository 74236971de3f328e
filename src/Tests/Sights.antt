-- ===== src/Tests/Sights.antt =====
-- A session on an editor that keeps a log of what its adapter has shown.
use mathlib.Core.List.{Memᴰ}
use tilda_mcp.Prelude.{refl, none, some, List, [], ◌∷◌, true, false}
use tilda_mcp.Effect.Check.{ok}
use tilda_mcp.Effect.State.{Outcome, returned, threw, final}
use tilda_mcp.Effect.Triple.{Ends}
use tilda_mcp.Contracts.Targets.{ExactTarget}
use tilda_mcp.Contracts.Adapters.{AdapterState, PlannedMutation, ChangeAdapter, Host}
use tilda_mcp.Store.{empty}
use tilda_mcp.Store.Read.{load_change_set}
use tilda_mcp.Engine.World.{World}
use tilda_mcp.Engine.Calls.{EngineActionResult}
use tilda_mcp.Engine.Outcomes.{result}
use tilda_mcp.Engine.Plan.{planned_record}
use tilda_mcp.Engine.Apply
use tilda_mcp.Engine.Verify
use tilda_mcp.Engine.Rollback
use tilda_mcp.Engine.Sights.{Sight, read_back, write_result, Log}
use tilda_mcp.Engine.Session.{plan, after}
use tilda_mcp.Engine.Settled.Apply.{Applies, apply-Applies}
use tilda_mcp.Engine.Settled.Rollback.{RollsBack, rollback-RollsBack}
use tilda_mcp.Tests.Demo
use tilda_mcp.Tests.Demo.{Remote, request, change_set_id}
use tilda_mcp.Tests.Runs.{run_all}

record Logged : Type 0 where
  remote : Remote
  sights : List Sight

-- What a call of the small editor returns goes into the log.
abbrev logging :
    (AdapterState → Sight) → List Sight → Outcome Remote AdapterState → Outcome Logged AdapterState
logging f log (returned s e) = returned s (record { remote = e; sights = f s ∷ log })
logging f log (threw x e) = threw x (record { remote = e; sights = log })

abbrev adapter : ChangeAdapter Logged
adapter = record {
  id = "demo";
  capabilities = "code" ∷ [];
  supports = λ _. true;
  read = λ t e. logging (λ s. read_back t s.hash) e.sights (Demo.adapter.read t e.remote);
  plan = λ before r. ok (Demo.the_plan);
  apply = λ p e. logging (λ s. write_result p s.hash) e.sights (Demo.adapter.apply p e.remote);
  restore = λ t s e. logging (λ k. read_back t k.hash) e.sights (Demo.adapter.restore t s e.remote);
}

abbrev host : Host Logged
host = record {
  platform = Demo.host.platform;
  adapters = adapter ∷ [];
  now = λ e. let (t, r) = Demo.host.now e.remote in (t, record { remote = r; sights = e.sights });
  random_uuid = λ e.
      let (u, r) = Demo.host.random_uuid e.remote in (u, record { remote = r; sights = e.sights });
}

reading :
    (a : ChangeAdapter Logged)
    → Memᴰ a host.adapters
    → (t : ExactTarget) (e : Logged) → Ends (λ s v. Memᴰ (read_back t s.hash) v.sights) (a.read t e)
reading a (Memᴰ.head h) t e = rw h (Memᴰ.head refl)
reading a (Memᴰ.tail k) t e = elim k [ ]

writing :
    (a : ChangeAdapter Logged)
    → Memᴰ a host.adapters
    → (p : PlannedMutation) (e : Logged)
    → Ends (λ s v. Memᴰ (write_result p s.hash) v.sights) (a.apply p e)
writing a (Memᴰ.head h) p e = rw h (Memᴰ.head refl)
writing a (Memᴰ.tail k) p e = elim k [ ]

abbrev log : Log host
log = record {
  sights = λ e. e.sights;
  read_logged = reading;
  write_logged = writing;
  clock_keeps = λ x e h. h;
}

abbrev start : World Logged
start = record {
  store = empty;
  vault = [];
  outside = record { remote = Demo.start.outside; sights = [] };
}

abbrev planned_world : World Logged
planned_world = after host (plan request (some "plan-key") none ∷ []) start

abbrev value_of : Outcome (World Logged) EngineActionResult → EngineActionResult
value_of (returned x w) = x
value_of (threw e w) =
    result (planned_record Demo.host "" "" 0 Demo.adapter request Demo.the_plan none) false false

abbrev apply_run : Outcome (World Logged) EngineActionResult
apply_run = Apply.apply host change_set_id false (some "apply-key") planned_world

abbrev verify_run : Outcome (World Logged) EngineActionResult
verify_run = Verify.verify host change_set_id (final apply_run)

abbrev rollback_run : Outcome (World Logged) EngineActionResult
rollback_run = Rollback.rollback host change_set_id false (some "rollback-key") (final apply_run)

apply-Applies_example :
    Applies log
      (load_change_set change_set_id planned_world.store)
      (value_of apply_run)
      (final apply_run)
unfolding run_all
apply-Applies_example =
    apply-Applies log change_set_id (some "apply-key") planned_world (final apply_run)
      (value_of apply_run) refl

rollback-RollsBack_example :
    RollsBack log
      (load_change_set change_set_id (final apply_run).store)
      (value_of rollback_run)
      (final rollback_run)
unfolding run_all
rollback-RollsBack_example =
    rollback-RollsBack log change_set_id (some "rollback-key") (final apply_run)
      (final rollback_run) (value_of rollback_run) refl
