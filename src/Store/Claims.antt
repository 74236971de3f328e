-- ===== src/Store/Claims.antt =====
-- The durable claims of actions, and the journals of publications (src/core/store.ts).
use tilda_mcp.Prelude.{String, ◌==◌, Option, none, some, Bool, true, false, ◌&&◌, if◌then◌else◌}
use mathlib.Core.Logic.{ite}
use tilda_mcp.Dict.{Dict, lookup, insert}
use tilda_mcp.Effect.Codes.{tilda, recovery_required, idempotency_conflict}
use tilda_mcp.Effect.Check.{Result, ok, err, require, ◌>>=◌, ◌>>◌}
use tilda_mcp.Contracts.Hash.{Platform}
use tilda_mcp.Store.{
  Store, Action, apply, rollback, Action-discrete, ActionClaim, IdempotencyMapping, action_mapping,
}
use tilda_mcp.Store.Checks.{assert_uuid}
use tilda_mcp.Store.Read.{load_change_set, idempotency_digest}

pub data ActionAttempt : Type 0 where
  unclaimed replay : ActionAttempt

pub data Claim : Type 0 where
  claimed_now replayed : Claim

-- The folder of the claims of one action.
unfoldable pub claims : Action → Store → Dict ActionClaim
claims apply s = s.apply_claims
claims rollback s = s.rollback_claims

abbrev same_action : Action → Action → Bool
same_action a b = ite (Action-discrete a b) true false

-- The claim file, where there is one, is this key's.
unfoldable pub claim_status : Action → String → String → Option ActionClaim → Result ActionAttempt
claim_status action id digest none = ok unclaimed
claim_status action id digest (some c) =
    if same_action c.action action && (c.change_set_id == id && c.key_hash == digest)
    then ok replay
    else err (tilda recovery_required)

-- The mapping of the key, where there is one, is to this action.
unfoldable pub assert_mapping : Action → String → Option IdempotencyMapping → Result (Unit {0})
assert_mapping action id none = ok tt
assert_mapping action id (some (action_mapping a i)) =
    require (same_action a action && i == id) idempotency_conflict
assert_mapping action id (some m) = err (tilda idempotency_conflict)

-- Once a claim is there, the mapping is not looked at.
unfoldable pub attempt_status :
    Action → String → String → Store → ActionAttempt → Result ActionAttempt
unfolding assert_mapping
attempt_status action id digest s unclaimed = do
  assert_mapping action id (lookup digest s.idempotency)
  ok unclaimed
attempt_status action id digest s replay = ok replay

unfoldable pub action_attempt_status :
    Platform → String → Action → String → Store → Result ActionAttempt
unfolding claims claim_status attempt_status
action_attempt_status platform key action id s = do
  assert_uuid id
  load_change_set id s
  digest ← idempotency_digest platform key
  status ← claim_status action id digest (lookup id (claims action s))
  attempt_status action id digest s status

-- The mapping file of a key is written where there is none.
unfoldable pub bind_key : String → IdempotencyMapping → Option IdempotencyMapping → Store → Store
bind_key digest m none s = record s { idempotency = insert digest m s.idempotency }
bind_key digest m (some old) s = s

unfoldable pub add_claim : Action → String → ActionClaim → Store → Store
add_claim apply id c s = record s { apply_claims = insert id c s.apply_claims }
add_claim rollback id c s = record s { rollback_claims = insert id c s.rollback_claims }
