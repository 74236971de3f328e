-- ===== src/Store/Identity.antt =====
-- What stays the same along the journal of a ChangeSet (src/core/store.ts).
use tilda_mcp.Prelude.{String, ◌≡◌, refl, ◌∙◌, ◌≤◌, ltb, List, [], ◌∷◌, true, false, arith}
use tilda_mcp.Effect.Check.{ok, require, reject_if, >>-eq-ok, require-eq-ok, reject_if-eq-ok}
use tilda_mcp.Effect.Codes.{
  journal_immutable_field_changed, invalid_state_transition, stale_changeset,
}
use tilda_mcp.Contracts.Records.{ChangeSetRecord, Timestamp}
use tilda_mcp.Store.{Store}
use tilda_mcp.Store.Transition.{
  may_follow, immutable_change_set_fields, same_change_set, assert_change_set_transition,
}
use tilda_mcp.Store.Read.{last, assert_transitions, load_change_set_history}
use tilda_mcp.Store.Loaded.{history-checks}

-- The later record is of the same ChangeSet, and no older.
pub record Follows (a b : ChangeSetRecord) : Type 0 where
  pub identity : immutable_change_set_fields b ≡ immutable_change_set_fields a
  pub order : a.updated_at ≤ b.updated_at

Follows-refl : (a : ChangeSetRecord) → Follows a a
Follows-refl a = record { identity = refl; order = omega arith }

Follows-trans : {a b c : ChangeSetRecord} → Follows a b → Follows b c → Follows a c
Follows-trans f g = record {
  identity = g.identity ∙ f.identity;
  order = omega (arith, f.order, g.order);
}

same_fields :
    (a b : ChangeSetRecord)
    → same_change_set a b ≡ true
    → immutable_change_set_fields b ≡ immutable_change_set_fields a
unfolding same_change_set
same_fields a b h = ground arith

not_before : (s t : Timestamp) → ltb t s ≡ false → s ≤ t
not_before s t h = ground arith

transition-Follows :
    (a b : ChangeSetRecord) → assert_change_set_transition a b ≡ ok tt → Follows a b
unfolding assert_change_set_transition
transition-Follows a b h =
    let (same, c) = >>-eq-ok (require (same_change_set a b) journal_immutable_field_changed) _ h in
    let (_, d) = >>-eq-ok (require (may_follow a.state b.state) invalid_state_transition) _ c in
    let (later, _) = >>-eq-ok (reject_if (ltb b.updated_at a.updated_at) stale_changeset) _ d in
    record {
      identity = same_fields a b (require-eq-ok _ _ same);
      order = not_before a.updated_at b.updated_at (reject_if-eq-ok _ _ later);
    }

transitions-Follows :
    (x r : ChangeSetRecord) (xs : List ChangeSetRecord)
    → assert_transitions (x ∷ xs) ≡ ok tt
    → last (x ∷ xs) ≡ ok r
    → Follows x r
unfolding assert_transitions last
transitions-Follows x r [] h k = let same : x ≡ r = cc k in rw same (Follows-refl r)
transitions-Follows x r (y ∷ ys) h k =
    let (step, rest) = >>-eq-ok (assert_change_set_transition x y) _ h in
    Follows-trans (transition-Follows x y step) (transitions-Follows y r ys rest k)

-- In every journal that loads, the last event describes the same change as the first: its target,
-- its request, its adapter, its hashes before and after, its authority and its other immutable
-- fields are unchanged, and its time is no earlier.
pub load-Follows :
    (id : String) (s : Store) (x r : ChangeSetRecord) (xs : List ChangeSetRecord)
    → load_change_set_history id s ≡ ok (x ∷ xs)
    → last (x ∷ xs) ≡ ok r
    → Follows x r
load-Follows id s x r xs h = transitions-Follows x r xs (history-checks id s (x ∷ xs) h).2
