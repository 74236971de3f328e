-- ===== src/Store/Read.antt =====
-- Reading the store (src/core/store.ts): every event is checked each time that it is read.
use tilda_mcp.Prelude.{
  String, ◌<>◌, if◌then◌else◌, ◌==◌, Option, none, some, List, [], ◌∷◌, Bool, true, false, ◌||◌,
  not, ltb, length, codes, is_trimmed, utf16_length,
}
use tilda_mcp.Dict.{lookup, keys}
use tilda_mcp.Effect.Codes.{
  Code, tilda, state_corrupt, changeset_not_found, invalid_idempotency_key, foreign,
}
use tilda_mcp.Effect.Check.{Result, ok, err, require, reject_if, for_each, ◌>>=◌, ◌>>◌}
use tilda_mcp.Contracts.Records.{
  ChangeSetRecord, SnapshotEnvelope, PublicationJournalRecord, PublicationJournalState, claimed,
}
use tilda_mcp.Contracts.Hash.{Platform}
use tilda_mcp.Store.{Store, IdempotencyMapping, plan_mapping}
use tilda_mcp.Store.Checks.{
  Checked, assert_uuid, assert_change_set, assert_snapshot, assert_publication, assert_hex_hash,
}
use tilda_mcp.Store.Transition.{assert_change_set_transition, same_publication}

-- The file is not there, and reading it fails outside the program.
abbrev pub found : {A : Type 0} → Option A → Result A
found none = err foreign
found (some a) = ok a

-- `history[history.length - 1]!`, where an empty journal is corrupt.
unfoldable pub last : {A : Type 0} → List A → Result A
last [] = err (tilda state_corrupt)
last (x ∷ []) = ok x
last (x ∷ y ∷ xs) = last (y ∷ xs)

unfoldable pub assert_event : String → ChangeSetRecord → Checked
assert_event id r = do assert_change_set r; require (r.change_set_id == id) state_corrupt

unfoldable pub assert_transitions : List ChangeSetRecord → Checked
assert_transitions [] = ok tt
assert_transitions (x ∷ []) = ok tt
assert_transitions (x ∷ y ∷ xs) = do assert_change_set_transition x y; assert_transitions (y ∷ xs)

-- The folder of the ChangeSet, where there is one.
unfoldable pub events : {A : Type 0} → Option (List A) → Code → Result (List A)
events none c = err (tilda c)
events (some []) c = err (tilda state_corrupt)
events (some xs) c = ok xs

-- `#loadChangeSetHistory`.
unfoldable pub load_change_set_history : String → Store → Result (List ChangeSetRecord)
unfolding assert_event assert_transitions events
load_change_set_history id s = do
  assert_uuid id
  history ← events (lookup id s.change_sets) changeset_not_found
  for_each (assert_event id) history
  assert_transitions history
  ok history

unfoldable pub load_change_set : String → Store → Result ChangeSetRecord
unfolding load_change_set_history last
load_change_set id s = do history ← load_change_set_history id s; last history

unfoldable pub load_snapshot : String → Store → Result SnapshotEnvelope
load_snapshot id s = do
  assert_uuid id
  snapshot ← found (lookup id s.snapshots)
  assert_snapshot snapshot
  ok snapshot

-- The folder names of the journals. The source sorts them, which decides only which of several
-- corrupt journals is reported.
unfoldable pub load_all : List String → Store → Result (List ChangeSetRecord)
load_all [] s = ok []
load_all (id ∷ ids) s = do r ← load_change_set id s; rs ← load_all ids s; ok (r ∷ rs)

abbrev pub has_digest : String → ChangeSetRecord → Bool
has_digest digest r = elim r.plan_idempotency_hash [ none ↦ false | some h ↦ h == digest ]

-- At most one ChangeSet carries a digest.
the_only : List ChangeSetRecord → Result (Option ChangeSetRecord)
the_only [] = ok none
the_only (r ∷ []) = ok (some r)
the_only (r ∷ q ∷ rs) = err (tilda state_corrupt)

select : (ChangeSetRecord → Bool) → List ChangeSetRecord → List ChangeSetRecord
select p [] = []
select p (r ∷ rs) = if p r then r ∷ select p rs else select p rs

find_mapped : String → Store → Option IdempotencyMapping → Result (Option ChangeSetRecord)
unfolding the_only select
find_mapped digest s (some (plan_mapping id)) = do
  r ← load_change_set id s
  require (has_digest digest r) state_corrupt
  ok (some r)
find_mapped digest s (some m) = ok none
find_mapped digest s none = do
  rs ← load_all (keys s.change_sets) s
  the_only (select (has_digest digest) rs)

-- `#findPlanByDigest`.
unfoldable pub find_plan_by_digest : String → Store → Result (Option ChangeSetRecord)
unfolding find_mapped
find_plan_by_digest digest s = do
  assert_hex_hash digest
  find_mapped digest s (lookup digest s.idempotency)

unfoldable pub idempotency_digest : Platform → String → Result String
idempotency_digest platform value = do
  reject_if
      (ltb (utf16_length (codes value)) 8
        || ltb 256 (utf16_length (codes value))
        || not (is_trimmed (codes value)))
      invalid_idempotency_key
  ok (platform.sha256_hex ("tilda-mcp-idempotency-v1\0" <> value))
  where
    open platform use {sha256_hex}

unfoldable pub assert_publication_event : String → PublicationJournalRecord → Checked
assert_publication_event digest r = do
  assert_publication r
  require (r.key_hash == digest) state_corrupt

abbrev pub is_claimed : PublicationJournalState → Bool
is_claimed claimed = true
is_claimed _ = false

-- A journal of two events goes from CLAIMED to a terminal state of the same intent.
unfoldable pub assert_publication_history : List PublicationJournalRecord → Checked
assert_publication_history (first ∷ second ∷ []) = do
  require (is_claimed first.state) state_corrupt
  reject_if (is_claimed second.state) state_corrupt
  require (same_publication first second) state_corrupt
assert_publication_history _ = ok tt

-- `#loadPublicationHistory`.
unfoldable pub load_publication_history : String → Store → Result (List PublicationJournalRecord)
unfolding assert_publication_event assert_publication_history events
load_publication_history digest s = do
  assert_hex_hash digest
  history ← events (lookup digest s.publications) state_corrupt
  reject_if (ltb 2 (length history)) state_corrupt
  for_each (assert_publication_event digest) history
  assert_publication_history history
  ok history
