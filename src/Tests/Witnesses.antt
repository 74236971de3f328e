-- ===== src/Tests/Witnesses.antt =====
-- The theorems at concrete inputs.
use tilda_mcp.Prelude.{
  ◌+◌, ◌≤◌, ◌≡◌, ◌≢◌, refl, Option, none, some, List, [], ◌∷◌, ◌++◌, true, false,
}
use mathlib.Core.List.{Memᴰ}
use tilda_mcp.Dict.{lookup}
use tilda_mcp.Effect.Codes.{tilda, changeset_not_found}
use tilda_mcp.Effect.Check.{ok}
use tilda_mcp.Effect.State.{Outcome, returned, threw, final}
use tilda_mcp.Contracts.Records.{ChangeSetRecord}
use tilda_mcp.Store.{ActionClaim, apply, rollback, empty}
use tilda_mcp.Store.Read.{load_change_set}
use tilda_mcp.Store.Journal.{append_change_set}
use tilda_mcp.Store.Claims.{claims}
use tilda_mcp.Store.RoundTrip.{load-append, append-others, append-failed}
use tilda_mcp.Engine.World.{World, set_lock}
use tilda_mcp.Engine.Calls.{EngineActionResult}
use tilda_mcp.Engine.Outcomes.{result}
use tilda_mcp.Engine.Plan.{planned_record}
use tilda_mcp.Engine.Registry
use tilda_mcp.Engine.Registry.{by_id}
use tilda_mcp.Engine.Unique.{registered-found}
use tilda_mcp.Engine.Apply
use tilda_mcp.Engine.Verify
use tilda_mcp.Engine.Rollback
use tilda_mcp.Engine.Session.{plan, after}
use tilda_mcp.Engine.Once.{budget}
use tilda_mcp.Engine.Budget.{after-Paid}
use tilda_mcp.Engine.Permanent.{
  after-claims, after-journal, later_apply-frozen, later_rollback-frozen,
}
use tilda_mcp.Engine.Reading.{plan-unwritten, verify-unwritten}
use tilda_mcp.Store.Identity.{Follows, load-Follows}
use tilda_mcp.Engine.Plan
use tilda_mcp.Engine.Lock.{after-lock, after-held}
use tilda_mcp.Tests.Demo
use tilda_mcp.Tests.Demo.{host, meter, start, request, change_set_id, Remote, hash_a, hash_b}
use tilda_mcp.Tests.Runs.{run_all, to_apply, session}

abbrev planned_world : World Remote
planned_world = after host (plan request (some "plan-key") none ∷ []) start

abbrev applied_world : World Remote
applied_world = after host to_apply start

abbrev last_world : World Remote
last_world = after host session start

abbrev apply_claim : ActionClaim
apply_claim = record {
  action = apply;
  change_set_id = change_set_id;
  key_hash = "1111111111111111111111111111111111111111111111111111111111111111";
}

abbrev rollback_claim : ActionClaim
rollback_claim = record {
  action = rollback;
  change_set_id = change_set_id;
  key_hash = "2222222222222222222222222222222222222222222222222222222222222222";
}

after-Paid_example :
    (after host session start).outside.write_count + budget meter start.store
    ≤ start.outside.write_count + budget meter (after host session start).store
after-Paid_example = after-Paid meter session start

later_apply_example :
    (final (
      Apply.apply host change_set_id false
        (some "other-key")
        (after host to_apply applied_world))).outside.write_count
    ≡ (after host to_apply applied_world).outside.write_count
unfolding run_all
later_apply_example =
    later_apply-frozen meter to_apply applied_world change_set_id false (some "other-key")
      apply_claim refl

later_rollback_example :
    (final (
      Rollback.rollback host change_set_id false
        (some "other-key")
        (after host to_apply last_world))).outside.write_count
    ≡ (after host to_apply last_world).outside.write_count
unfolding run_all
later_rollback_example =
    later_rollback-frozen meter to_apply last_world change_set_id false (some "other-key")
      rollback_claim refl

-- The value of a run, where it returned one.
abbrev value_of : Outcome (World Remote) EngineActionResult → EngineActionResult
value_of (returned x w) = x
value_of (threw e w) =
    result (planned_record host "" "" 0 Demo.adapter request Demo.the_plan none) false false

abbrev applied_run : Outcome (World Remote) EngineActionResult
applied_run = Apply.apply host change_set_id false (some "apply-key") planned_world

abbrev journal_or : Option (List ChangeSetRecord) → List ChangeSetRecord
journal_or none = []
journal_or (some h) = h

abbrev journal : List ChangeSetRecord
journal = journal_or (lookup change_set_id applied_world.store.change_sets)

after-journal_example :
    (added : List ChangeSetRecord) × (lookup change_set_id
        (after host to_apply applied_world).store.change_sets
      ≡ some (journal ++ added))
unfolding run_all
after-journal_example = after-journal host to_apply applied_world change_set_id journal refl

after-claims_example :
    lookup change_set_id (claims apply (after host session applied_world).store) ≡ some apply_claim
unfolding run_all
after-claims_example = after-claims host session applied_world apply change_set_id apply_claim refl

after-lock_example : (after host session start).store.locked ≡ start.store.locked
after-lock_example = after-lock host session start

after-held_example : after host session (set_lock true start) ≡ set_lock true start
after-held_example = after-held host session (set_lock true start) refl

-- The record of the apply, as an event for the journal of the plan.
abbrev event : ChangeSetRecord
event = (value_of applied_run).change_set

load-append_example :
    load_change_set event.change_set_id (final (append_change_set event planned_world.store))
    ≡ ok event
unfolding run_all
load-append_example =
    load-append event planned_world.store event
      (final (append_change_set event planned_world.store)) refl

nine_is_other : "9" ≢ event.change_set_id
unfolding run_all
nine_is_other h = cc

append-others_example :
    lookup "9" (final (append_change_set event planned_world.store)).change_sets
    ≡ lookup "9" planned_world.store.change_sets
unfolding run_all
append-others_example =
    append-others event planned_world.store event
      (final (append_change_set event planned_world.store)) "9" refl nine_is_other

append-failed_example : final (append_change_set event empty) ≡ empty
unfolding run_all
append-failed_example =
    append-failed event empty (tilda changeset_not_found) (final (append_change_set event empty))
      refl

plan-unwritten_example :
    (final (Plan.plan host request (some "plan-key") none start)).outside.write_count
    ≡ start.outside.write_count
plan-unwritten_example = plan-unwritten meter request (some "plan-key") none start

verify-unwritten_example :
    (final (Verify.verify host change_set_id applied_world)).outside.write_count
    ≡ applied_world.outside.write_count
verify-unwritten_example = verify-unwritten meter change_set_id applied_world

-- The events of the plan and of the apply.
abbrev planned_event : ChangeSetRecord
planned_event = (value_of (Plan.plan host request (some "plan-key") none start)).change_set

load-Follows_example : Follows planned_event event
unfolding run_all
load-Follows_example =
    load-Follows change_set_id applied_world.store planned_event event (event ∷ []) refl refl

registered-found_example : by_id host.adapters "demo" ≡ ok Demo.adapter
unfolding run_all Registry.new_registry Registry.ids
registered-found_example =
    registered-found host.adapters host.adapters Demo.adapter refl (Memᴰ.head refl)
