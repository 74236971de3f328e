-- ===== src/Store/Loaded.antt =====
-- What the journal of a ChangeSet gives once it is read (src/core/store.ts).
use tilda_mcp.Prelude.{String, ◌==◌, ◌≡◌, true, List, [], ◌∷◌, arith}
use tilda_mcp.Dict.{lookup}
use tilda_mcp.Effect.Check.{Result, ok, for_each, >>=-eq-ok, >>-eq-ok, require-eq-ok}
use tilda_mcp.Contracts.Records.{ChangeSetRecord}
use tilda_mcp.Store.{Store}
use tilda_mcp.Effect.Codes.{changeset_not_found}
use tilda_mcp.Store.Checks.{assert_uuid, assert_change_set}
use tilda_mcp.Store.Read.{
  last, events, assert_event, assert_transitions, load_change_set_history, load_change_set,
}

pub ==-sound : (a b : String) → (a == b) ≡ true → a ≡ b
unfolding ◌==◌
==-sound a b h = ground arith

pub ==-refl : (a : String) → (a == a) ≡ true
unfolding ◌==◌
==-refl a = ground arith

last-for_each :
    (f : ChangeSetRecord → Result (Unit {0})) (xs : List ChangeSetRecord) (r : ChangeSetRecord)
    → for_each f xs ≡ ok tt
    → last xs ≡ ok r
    → f r ≡ ok tt
unfolding last
last-for_each f [] r h k = cc
last-for_each f (x ∷ []) r h k = cc (k, (>>-eq-ok (f x) _ h).0)
last-for_each f (x ∷ y ∷ xs) r h k = last-for_each f (y ∷ xs) r (>>-eq-ok (f x) _ h).1 k

module _ (id : String) (s : Store) where
  pub history-checks :
      (history : List ChangeSetRecord)
      → load_change_set_history id s ≡ ok history
      → (assert_uuid id ≡ ok tt)
        × (for_each (assert_event id) history ≡ ok tt)
        × (assert_transitions history ≡ ok tt)
  unfolding load_change_set_history
  history-checks history h =
      let (valid, there) = >>-eq-ok (assert_uuid id) _ h in
      let (found, _, checked) =
        >>=-eq-ok (events (lookup id s.change_sets) changeset_not_found) _ there in
      let (events_pass, rest) = >>-eq-ok (for_each (assert_event id) found) _ checked in
      let (follow, same) = >>-eq-ok (assert_transitions found) _ rest in
      (valid, cc (events_pass, same), cc (follow, same))

  loaded_event : (r : ChangeSetRecord) → load_change_set id s ≡ ok r → assert_event id r ≡ ok tt
  unfolding load_change_set
  loaded_event r h =
      let (history, there, latest) = >>=-eq-ok _ _ h in
      last-for_each (assert_event id) history r (history-checks history there).1 latest

  -- The record that a journal gives is of this ChangeSet, and it has passed the checks.
  pub load-checks :
      (r : ChangeSetRecord)
      → load_change_set id s ≡ ok r
      → (r.change_set_id ≡ id) × (assert_change_set r ≡ ok tt)
  unfolding assert_event
  load-checks r h =
      let (sound, same) = >>-eq-ok (assert_change_set r) _ (loaded_event r h) in
      (==-sound _ _ (require-eq-ok _ _ same), sound)
