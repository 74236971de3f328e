-- ===== src/Store/RoundTrip.antt =====
-- What is appended to a journal is what is read from it (src/core/store.ts).
use tilda_mcp.Prelude.{String, ◌≡◌, ◌≢◌, refl, ◌∙◌, Option, some, List, [], ◌∷◌, ◌++◌, arith}
use mathlib.Core.Path.{subst}
use tilda_mcp.Dict.{lookup, insert, lookup-insert}
use tilda_mcp.Effect.Codes.{Failure, changeset_not_found}
use tilda_mcp.Effect.Check.{Result, ok, for_each, >>-eq-ok}
use tilda_mcp.Effect.State.{Outcome, returned, threw, pure}
use tilda_mcp.Effect.Cases.{attempt-cases, modify-cases}
use tilda_mcp.Contracts.Records.{ChangeSetRecord}
use tilda_mcp.Store.{Store}
use tilda_mcp.Store.Checks.{assert_change_set}
use tilda_mcp.Store.Transition.{assert_change_set_transition}
use tilda_mcp.Store.Read.{
  last, events, assert_event, assert_transitions, load_change_set_history, load_change_set,
}
use tilda_mcp.Store.Loaded.{==-refl, history-checks}
use tilda_mcp.Store.Journal.{append_change_set}
use tilda_mcp.Store.Claimed.{reads-cases}

last-append : (h : List ChangeSetRecord) (r : ChangeSetRecord) → last (h ++ r ∷ []) ≡ ok r
unfolding last
last-append [] r = refl
last-append (x ∷ []) r = refl
last-append (x ∷ y ∷ h) r = last-append (y ∷ h) r

for_each-append :
    (f : ChangeSetRecord → Result (Unit {0})) (h : List ChangeSetRecord) (r : ChangeSetRecord)
    → for_each f h ≡ ok tt
    → f r ≡ ok tt
    → for_each f (h ++ r ∷ []) ≡ ok tt
for_each-append f [] r k l = rw l refl
for_each-append f (x ∷ h) r k l =
    let (first, rest) = >>-eq-ok (f x) _ k in rw first (for_each-append f h r rest l)

assert_transitions-append :
    (h : List ChangeSetRecord) (x r : ChangeSetRecord)
    → assert_transitions h ≡ ok tt
    → last h ≡ ok x
    → assert_change_set_transition x r ≡ ok tt
    → assert_transitions (h ++ r ∷ []) ≡ ok tt
unfolding assert_transitions last
assert_transitions-append [] x r k l m = refl
assert_transitions-append (y ∷ []) x r k l m =
    let follows : assert_change_set_transition y r ≡ ok tt = cc (l, m) in rw follows refl
assert_transitions-append (y ∷ z ∷ h) x r k l m =
    let (first, rest) = >>-eq-ok (assert_change_set_transition y z) _ k in
    rw first (assert_transitions-append (z ∷ h) x r rest l m)

events-append :
    (o : Option (List ChangeSetRecord)) (h : List ChangeSetRecord) (r : ChangeSetRecord)
    → o ≡ some (h ++ r ∷ [])
    → events o changeset_not_found ≡ ok (h ++ r ∷ [])
unfolding events
events-append o [] r e = rw e refl
events-append o (x ∷ h) r e = rw e refl

lookup-inserted :
    {V : Type 0} (k : String) (v : V) (d : List (String × V)) → lookup k (insert k v d) ≡ some v
lookup-inserted k v d = lookup-insert k k v d ∙ rw (==-refl k) refl

module _ (r : ChangeSetRecord) (s : Store) where
  abbrev Appended : Outcome Store ChangeSetRecord → Type 0
  Appended (returned x t) =
      (load_change_set r.change_set_id t ≡ ok r)
      × ((j : String) → j ≢ r.change_set_id → lookup j t.change_sets ≡ lookup j s.change_sets)
  Appended (threw e t) = t ≡ s

  abbrev with_event : List ChangeSetRecord → Store
  with_event h = record s { change_sets = insert r.change_set_id (h ++ r ∷ []) s.change_sets }

  event_sound : assert_change_set r ≡ ok tt → assert_event r.change_set_id r ≡ ok tt
  unfolding assert_event
  event_sound sound = rw sound (rw (==-refl r.change_set_id) refl)

  history-with_event :
      (h : List ChangeSetRecord) (x : ChangeSetRecord)
      → load_change_set_history r.change_set_id s ≡ ok h
      → last h ≡ ok x
      → assert_change_set r ≡ ok tt
      → assert_change_set_transition x r ≡ ok tt
      → load_change_set_history r.change_set_id (with_event h) ≡ ok (h ++ r ∷ [])
  unfolding load_change_set_history
  history-with_event h x loaded latest sound follows =
      let (valid, pass, trans) = history-checks r.change_set_id s h loaded in
      rw valid (
        rw (events-append _ h r (lookup-inserted r.change_set_id (h ++ r ∷ []) s.change_sets)) (
          rw (for_each-append (assert_event r.change_set_id) h r pass (event_sound sound))
            (rw (assert_transitions-append h x r trans latest follows) refl)))

  load-with_event :
      (h : List ChangeSetRecord)
      → load_change_set_history r.change_set_id (with_event h) ≡ ok (h ++ r ∷ [])
      → load_change_set r.change_set_id (with_event h) ≡ ok r
  unfolding load_change_set
  load-with_event h loaded = rw loaded (last-append h r)

  others-with_event :
      (h : List ChangeSetRecord) (j : String)
      → j ≢ r.change_set_id
      → lookup j (with_event h).change_sets ≡ lookup j s.change_sets
  others-with_event h j other =
      lookup-insert j r.change_set_id (h ++ r ∷ []) s.change_sets ∙ ground arith

  append-load : Appended (append_change_set r s)
  unfolding append_change_set pure
  append-load =
      attempt-cases Appended s _ _
        (λ _ sound.
          reads-cases Appended s _ _
            (λ h loaded.
              attempt-cases Appended s _ _
                (λ x latest.
                  attempt-cases Appended s _ _
                    (λ _ follows.
                      attempt-cases Appended s _ _
                        (λ _ _. modify-cases Appended s _ _ (
                          load-with_event h (history-with_event h x loaded latest sound follows),
                          others-with_event h,
                        ))
                        (λ e. refl))
                    (λ e. refl))
                (λ e. refl))
            (λ e. refl))
        (λ e. refl)

  -- An event that is appended to the journal of its ChangeSet is the one that is read next.
  pub load-append :
      (x : ChangeSetRecord) (t : Store)
      → append_change_set r s ≡ returned x t
      → load_change_set r.change_set_id t ≡ ok r
  load-append x t h = (subst Appended h append-load).0

  -- Where appending an event throws, the store is as it was.
  pub append-failed : (e : Failure) (t : Store) → append_change_set r s ≡ threw e t → t ≡ s
  append-failed e t h = subst Appended h append-load

  -- Appending an event leaves the journals of all other ChangeSets as they were.
  pub append-others :
      (x : ChangeSetRecord) (t : Store) (j : String)
      → append_change_set r s ≡ returned x t
      → j ≢ r.change_set_id
      → lookup j t.change_sets ≡ lookup j s.change_sets
  append-others x t j h = (subst Appended h append-load).1 j
