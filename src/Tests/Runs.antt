-- ===== src/Tests/Runs.antt =====
-- A whole session on the small editor.
use tilda_mcp.Prelude.{ℕ, String, ◌≡◌, refl, Option, none, some, List, [], ◌∷◌, false, length}
use tilda_mcp.Prelude
use tilda_mcp.Store
use tilda_mcp.Contracts.Requests
use tilda_mcp.Contracts.Targets
use tilda_mcp.Contracts.Records
use tilda_mcp.Effect.State
use tilda_mcp.Dict
use tilda_mcp.Store.Checks
use tilda_mcp.Store.Transition
use tilda_mcp.Store.Read
use tilda_mcp.Store.Journal
use tilda_mcp.Store.Claims
use tilda_mcp.Store.Attempts
use tilda_mcp.Contracts.Hash
use tilda_mcp.Engine.World
use tilda_mcp.Engine.World.{World}
use tilda_mcp.Engine.Registry
use tilda_mcp.Engine.Vault
use tilda_mcp.Engine.Calls
use tilda_mcp.Engine.Outcomes
use tilda_mcp.Engine.Plan
use tilda_mcp.Engine.Apply
use tilda_mcp.Engine.Verify
use tilda_mcp.Engine.Rollback
use tilda_mcp.Engine.Session
use tilda_mcp.Engine.Session.{Call, plan, apply, verify, rollback, after}
use tilda_mcp.Tests.Demo.{host, start, request, change_set_id, hash_a, hash_b}

-- Everything that a session calls.
unfoldable pub run_all : Unit {0}
unfolding State.pure State.throw State.attempt State.gets State.try_catch State.◌>>=◌
    State.if◌then◌else◌ State.modify Dict.lookup Dict.insert Dict.erase Dict.keys
    Transition.may_follow Transition.immutable_change_set_fields Transition.same_change_set
    Transition.keeps_hash Transition.assert_change_set_transition Checks.assert_change_set
    Checks.assert_snapshot Checks.distinct Read.last Read.load_change_set Read.load_snapshot
    Read.load_all Read.find_plan_by_digest Read.idempotency_digest Journal.reads
    Journal.create_snapshot Journal.create_change_set Journal.append_change_set
    Journal.find_by_idempotency_key Claims.claims Claims.action_attempt_status Attempts.write_claim
    Attempts.claim_action_idempotency Hash.request_hash World.on_store World.on_outside
    World.locked_run World.with_mutation_lock Registry.for_request Registry.by_id Vault.put
    Vault.get Vault.delete Calls.assert_state_hash Calls.verification Calls.expected_of_failure
    Calls.expected_by_state Calls.expected_for_verification Calls.checked_read Calls.diagnostic_read
    Calls.append Calls.now Calls.random_uuid Calls.checked_now Calls.checked_if_read Calls.fail_with
    Calls.settle_with Outcomes.is_head_write Outcomes.fail_and_throw Outcomes.fail_and_forget
    Plan.same_task_authority Plan.plan_is_bound Plan.planned_record Plan.keep_material
    Plan.keep_journal Plan.plan_new Plan.plan_known Plan.plan_locked Plan.plan Apply.apply_replay
    Calls.found_at Apply.settle_found Apply.settle_apply Apply.dispatch_apply Apply.apply_attempt
    Apply.material_matches Apply.apply_planned Apply.apply_by_state Apply.apply_locked Apply.apply
    Verify.verify_locked Verify.verify Rollback.is_head_restore Rollback.is_stale
    Rollback.settle_rollback Rollback.dispatch_restore Rollback.settle_restored
    Rollback.settle_restore Rollback.rollback_remote Rollback.rollback_attempt
    Rollback.snapshot_matches Rollback.rollback_open Rollback.rollback_by_state
    Rollback.rollback_locked Rollback.rollback Session.after_call Session.after Prelude.utf16_length
    Prelude.is_trimmed Prelude.is_hex_hash Prelude.is_canonical_hash Prelude.String-discrete
    Prelude.is_uuid Prelude.is_safe_token Prelude.is_canonical_id Requests.target
    Requests.ChangeOperation-discrete Requests.operation Targets.ExactTarget-discrete
    Records.ImmutableChangeSetFields-discrete Store.Action-discrete Prelude.ℕ_discrete
run_all = tt

abbrev pub to_apply : List Call
to_apply = plan request (some "plan-key") none ∷ apply change_set_id false (some "apply-key") ∷ []

abbrev pub session : List Call
session =
    plan request (some "plan-key") none
    ∷ apply change_set_id false (some "apply-key")
    ∷ verify change_set_id
    ∷ rollback change_set_id false (some "rollback-key")
    ∷ []

-- One write for the apply and one for the rollback, which restores what was there.
session_writes : (after host session start).outside.write_count ≡ 2
unfolding run_all
session_writes = refl

session_restores : (after host session start).outside.content ≡ hash_a
unfolding run_all
session_restores = refl

apply_changes : (after host to_apply start).outside.content ≡ hash_b
unfolding run_all
apply_changes = refl
