-- ===== src/Store/Checks.antt =====
-- The checks of what is read from and written to the store (src/core/store.ts). What a check
-- asks of the shape of a JSON value (its keys, an array, a member of an enumeration, a canonical
-- timestamp) holds of the typed records by construction.
use tilda_mcp.Prelude.{
  String, ◌==◌, Option, none, some, List, [], ◌∷◌, Bool, true, false, not, ◌&&◌, ◌||◌, leb, ltb,
  length, any, codes, is_uuid, is_task_uuid, is_hex_hash, is_canonical_hash, is_canonical_id,
  is_safe_token, is_trimmed, utf16_length,
}
use tilda_mcp.Effect.Codes.{Code, state_corrupt, invalid_state_id, state_privacy_violation, other}
use tilda_mcp.Effect.Check.{Result, ok, require, reject_if, for_each, if_present, ◌>>◌}
use tilda_mcp.Contracts.Targets.{
  ExactTarget, project_target, page_target, record_target, element_target, of_page,
}
use tilda_mcp.Contracts.Records

abbrev pub Checked : Type 0
Checked = Result (Unit {0})

unfoldable pub assert_uuid : String → Checked
assert_uuid s = require (is_uuid s) invalid_state_id

unfoldable pub assert_hash : String → Checked
assert_hash s = require (is_canonical_hash s) state_corrupt

unfoldable pub assert_hex_hash : String → Checked
assert_hex_hash s = require (is_hex_hash s) state_corrupt

unfoldable pub assert_token : String → Checked
assert_token s = require (is_safe_token s) state_corrupt

-- The codes of the program are tokens.
unfoldable pub assert_code : Code → Checked
unfolding assert_token
assert_code (other s) = assert_token s
assert_code _ = ok tt

-- A summary has no control characters.
unfoldable pub is_summary : String → Bool
is_summary s =
    leb 1 (utf16_length (codes s))
    && leb (utf16_length (codes s)) 512
    && is_trimmed (codes s)
    && not (any (λ c. leb c 0x1f || (leb 0x7f c && leb c 0x7f)) (codes s))

unfoldable pub assert_summary : String → Checked
unfolding is_summary
assert_summary s = require (is_summary s) state_privacy_violation

abbrev assert_id : String → Checked
assert_id s = require (is_canonical_id s) state_corrupt

unfoldable pub assert_target : ExactTarget → Checked
assert_target (project_target p) = assert_id p
assert_target (page_target p g) = do assert_id p; assert_id g
assert_target (record_target p g r) = do assert_id p; assert_id g; assert_id r
assert_target (element_target p g r e) = do assert_id p; assert_id g; assert_id r; assert_id e

-- `===` on Booleans.
abbrev iff : Bool → Bool → Bool
iff true b = b
iff false b = not b

abbrev assert_paths : List String → Checked
assert_paths ps = do reject_if (ltb 64 (length ps)) state_corrupt; for_each assert_summary ps

unfoldable pub assert_verification : Records.VerificationRecord → Checked
unfolding assert_hash assert_summary
assert_verification v = do
  assert_hash v.expected_hash
  assert_hash v.actual_hash
  require (iff v.exact_match (v.expected_hash == v.actual_hash)) state_corrupt
  if_present assert_paths v.changed_paths

unfoldable pub assert_task_authority : Records.ChangeSetTaskAuthority → Checked
assert_task_authority a =
    require (is_task_uuid a.task_id && is_canonical_hash a.grant_hash) state_corrupt

-- `new Set(xs).size === xs.length`.
unfoldable pub distinct : List String → Bool
distinct [] = true
distinct (x ∷ xs) = not (any (λ y. x == y) xs) && distinct xs

abbrev pub is_some {ℓ} : {A : Type ℓ} → Option A → Bool
is_some none = false
is_some (some x) = true

-- The verification states this hash as expected and as found.
unfoldable pub proves : Option Records.VerificationRecord → String → Bool
proves none h = false
proves (some v) h = v.expected_hash == h && v.actual_hash == h && v.exact_match

-- What the state of a ChangeSet asks of its other fields.
unfoldable pub assert_evidence : Records.ChangeSetRecord → Records.ChangeSetState → Checked
unfolding proves
assert_evidence r Records.planned = ok tt
assert_evidence r Records.applied = do
  require (is_some r.applied_hash) state_corrupt
  require (proves r.verification r.expected_after_hash) state_corrupt
assert_evidence r Records.verified = do
  require (is_some r.applied_hash) state_corrupt
  require (proves r.verification r.expected_after_hash) state_corrupt
assert_evidence r Records.ChangeSetState.failed = require (is_some r.failure_code) state_corrupt
assert_evidence r Records.rolled_back =
    require (proves r.verification r.expected_before_hash) state_corrupt

-- The checks of one ChangeSet on its identity and its text fields.
unfoldable pub assert_fields : Records.ChangeSetRecord → Checked
unfolding assert_uuid assert_token assert_target assert_hash assert_summary assert_task_authority
    assert_hex_hash assert_code assert_verification distinct
assert_fields r = do
  require (r.format == "tilda-mcp-changeset-v1") state_corrupt
  assert_uuid r.change_set_id
  assert_uuid r.snapshot_id
  reject_if (ltb r.updated_at r.created_at) state_corrupt
  assert_token r.adapter
  assert_token r.capability
  assert_target r.target
  assert_hash r.request_hash
  assert_hash r.expected_before_hash
  assert_hash r.expected_after_hash
  if_present assert_summary r.expected_before_revision
  reject_if (ltb (length r.changed_paths) 1 || ltb 64 (length r.changed_paths)) state_corrupt
  for_each assert_summary r.changed_paths
  require (distinct r.changed_paths) state_corrupt
  assert_summary r.summary
  if_present assert_task_authority r.task_authority
  if_present assert_hex_hash r.plan_idempotency_hash
  if_present assert_hash r.applied_hash
  if_present assert_code r.failure_code
  if_present assert_code r.reconciliation_code
  if_present assert_verification r.verification

unfoldable pub assert_change_set : Records.ChangeSetRecord → Checked
unfolding assert_fields assert_evidence
assert_change_set r = do assert_fields r; assert_evidence r r.state

unfoldable pub assert_snapshot : Records.SnapshotEnvelope → Checked
unfolding assert_uuid assert_token assert_target assert_hash assert_summary
assert_snapshot s = do
  require (s.format == "tilda-mcp-snapshot-v1") state_corrupt
  assert_uuid s.snapshot_id
  assert_token s.adapter
  assert_target s.target
  assert_hash s.state_hash
  if_present assert_summary s.revision
  assert_summary s.summary

-- A terminal state that is no success names its failure.
unfoldable pub assert_outcome : Records.PublicationJournalState → Option Code → Checked
assert_outcome Records.PublicationJournalState.failed c = require (is_some c) state_corrupt
assert_outcome Records.ambiguous c = require (is_some c) state_corrupt
assert_outcome _ c = ok tt

unfoldable pub assert_publication : Records.PublicationJournalRecord → Checked
unfolding assert_hex_hash assert_target assert_code assert_outcome
assert_publication r = do
  require (r.format == "tilda-mcp-publication-v1") state_corrupt
  assert_hex_hash r.key_hash
  assert_hex_hash r.intent_hash
  assert_hex_hash r.before_changed_hash
  assert_target (of_page r.target)
  reject_if (ltb r.updated_at r.created_at) state_corrupt
  if_present assert_code r.failure_code
  if_present assert_code r.reconciliation_code
  assert_outcome r.state r.failure_code
