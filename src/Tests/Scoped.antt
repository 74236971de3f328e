-- ===== src/Tests/Scoped.antt =====
-- Runs of the scoped engine, and its theorems at them.
use tilda_mcp.Prelude.{◌≡◌, refl, none, some, [], ◌∷◌, true, false}
use tilda_mcp.Effect.Check.{ok}
use tilda_mcp.Effect.State.{Outcome, Exec, returned, threw, final}
use tilda_mcp.Contracts.Requests.{ChangeRequest, t123_code, full_replace}
use tilda_mcp.Contracts.Records
use tilda_mcp.Contracts.Records.{ChangeSetRecord, ChangeSetTaskAuthority}
use tilda_mcp.Engine.Plan
use tilda_mcp.Engine.Plan.{planned_record}
use tilda_mcp.Engine.Outcomes.{result}
use tilda_mcp.Publication.Data.{PublicationHost, DispatchReceipt, acknowledged}
use tilda_mcp.Contracts.Adapters.{ChangeAdapter, Host}
use tilda_mcp.Store.{empty}
use tilda_mcp.Manager.State.{Process, AuthorityHost}
use tilda_mcp.Engine.World.{World}
use tilda_mcp.Engine.Calls.{EngineActionResult}
use tilda_mcp.Scoped.Calls
use tilda_mcp.Scoped.Engine
use tilda_mcp.Scoped.Refused.{Refused, apply-Refused, rollback-Refused}
use tilda_mcp.Scoped.Released.{IsFree}
use tilda_mcp.Scoped.Freed
use tilda_mcp.Scoped.Freed.{after_action, lease_ends}
use tilda_mcp.Scoped.Owned as TheOwned
use tilda_mcp.Scoped.Owned.{Names, apply_it, result-Names}
use tilda_mcp.Tests.Demo
use tilda_mcp.Tests.Demo.{Remote, change_set_id}
use tilda_mcp.Tests.Runs.{run_all}
use tilda_mcp.Authority.Guard
use tilda_mcp.Tests.Authority.{guard, grant}
use tilda_mcp.Tests.Manager.{manager_all, first_guard}

abbrev put_back : {A : Type 0} → Process Remote → Outcome Remote A → Outcome (Process Remote) A
put_back w (returned a e) = returned a (record w { outside = e })
put_back w (threw f e) = threw f (record w { outside = e })

-- A call to the editor, which leaves the manager alone.
abbrev lift : {A : Type 0} → Exec Remote A → Exec (Process Remote) A
lift m w = put_back w (m w.outside)

-- The same record on the page that the task may change.
abbrev request : ChangeRequest
request =
    t123_code (record { project_id = "1"; page_id = "5"; record_id = "3" }) (full_replace "code")

abbrev adapter : ChangeAdapter (Process Remote)
adapter = record {
  id = "demo";
  capabilities = "code" ∷ [];
  supports = λ _. true;
  read = λ t. lift (Demo.adapter.read t);
  plan = λ before r. ok (record (Demo.the_plan) { request = r });
  apply = λ p. lift (Demo.adapter.apply p);
  restore = λ t s. lift (Demo.adapter.restore t s);
}

abbrev host : Host (Process Remote)
host = record {
  platform = Demo.host.platform;
  adapters = adapter ∷ [];
  now = λ e. let (t, r) = Demo.host.now e.outside in (t, record e { outside = r });
  random_uuid = λ e. let (u, r) = Demo.host.random_uuid e.outside in (u, record e { outside = r });
}

abbrev authority : AuthorityHost Remote
authority = record {
  platform = Demo.host.platform;
  iso = λ t. "";
  trim = λ s. s;
  now = λ e. (some 20, e);
  create_task_id = λ e. (grant.task_id, e);
}

abbrev start : World (Process Remote)
start = record {
  store = empty;
  vault = [];
  outside = record {
    manager = record {
      active = some (record {
        guard = first_guard;
        expires_at_ms = 1000;
        grant = grant;
        inventory = none;
        pending_reference_receipt = none;
      });
      revocation_token = 1;
      reference_mutation_lease = none;
      mutation_dispatch_lease = none;
      task_execution_lease = none;
      next_object = 2;
      eligible_receipts = [];
    };
    outside = Demo.start.outside;
  };
}

abbrev quiet : {A : Type 0} → A → Exec (Process Remote) A
quiet a w = returned a w

abbrev dispatched : DispatchReceipt
dispatched = record {
  operation_id = "operation";
  request_dispatched = true;
  acknowledgement = acknowledged;
}

abbrev publication : PublicationHost (Process Remote)
publication = record {
  platform = Demo.host.platform;
  now = host.now;
  enter = quiet tt;
  leave = quiet tt;
  read_publication =
      λ t. quiet (record { changed = "2"; published = "1"; page_url = ""; public_url = "" });
  publish_page = λ t. quiet dispatched;
  unpublish_page = λ t. quiet dispatched;
  delay = λ ms. quiet tt;
}

-- Everything that the scoped engine calls.
unfoldable scoped_all : Unit {0}
unfolding manager_all run_all Records.ChangeSetTaskAuthority-discrete Guard.assert_request
    Guard.assert_rollback Guard.assert_change_set_authority Calls.same_receipt Calls.try_finally
    Calls.asserts Calls.assert_read Calls.assert_change Calls.assert_rollback
    Calls.assert_change_set_authority Calls.receipt Calls.assert_same_task_receipt
    Calls.same_authority Calls.begin_execution Calls.release Calls.under_execution Engine.plan
    Engine.own_record Engine.still_own Engine.apply_own Engine.apply Engine.rollback_own
    Engine.rollback Freed.after_action TheOwned.run
scoped_all = tt

abbrev planned : Outcome (World (Process Remote)) EngineActionResult
planned = Engine.plan host authority first_guard request (some "plan-key") start

abbrev applied : Outcome (World (Process Remote)) EngineActionResult
applied =
    Engine.apply host authority first_guard change_set_id false (some "apply-key") (final planned)

-- The scoped engine applies a ChangeSet on the page that the task may change, and the lease of the
-- apply has ended.
runs_scoped_apply :
    ((final applied).outside.outside.write_count ≡ 1)
    × ((final applied).outside.manager.next_object ≡ 3)
    × ((final applied).outside.manager.task_execution_lease ≡ none)
unfolding scoped_all
runs_scoped_apply = (refl, refl, refl)

abbrev failed_result : EngineActionResult
failed_result =
    result (planned_record Demo.host "" "" 0 Demo.adapter request Demo.the_plan none) false false

abbrev result_of : Outcome (World (Process Remote)) EngineActionResult → EngineActionResult
result_of (returned x w) = x
result_of (threw e w) = failed_result

abbrev own_task : ChangeSetTaskAuthority
own_task = record { task_id = grant.task_id; grant_hash = guard.receipt.grant_hash }

-- The ChangeSet of a page that the task may only observe, planned by the engine itself.
abbrev foreign : World (Process Remote)
foreign = final (Plan.plan host Demo.request none (some own_task) start)

abbrev foreign_record : ChangeSetRecord
foreign_record = (result_of (Plan.plan host Demo.request none (some own_task) start)).change_set

apply-Refused_example :
    Refused foreign
      (Engine.apply host authority first_guard change_set_id false (some "apply-key") foreign)
unfolding scoped_all
apply-Refused_example =
    apply-Refused host authority first_guard change_set_id (some "apply-key") foreign foreign_record
      refl refl

rollback-Refused_example :
    Refused foreign
      (Engine.rollback host authority first_guard change_set_id false (some "rollback-key") foreign)
unfolding scoped_all
rollback-Refused_example =
    rollback-Refused host authority first_guard change_set_id (some "rollback-key") foreign
      foreign_record refl refl

result-Names_example : Names guard (result_of applied).change_set.task_authority
unfolding scoped_all
result-Names_example =
    result-Names host authority first_guard (apply_it change_set_id (some "apply-key"))
      (final planned) (final applied) (result_of applied) refl

lease_ends_example :
    IsFree 2
      (after_action host publication authority first_guard
        (Freed.apply_it change_set_id (some "apply-key"))
        (final planned)).outside
unfolding scoped_all
lease_ends_example =
    lease_ends host publication authority first_guard
      (Freed.apply_it change_set_id (some "apply-key")) (final planned) refl
