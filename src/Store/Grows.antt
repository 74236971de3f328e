-- ===== src/Store/Grows.antt =====
-- The journal of a ChangeSet only grows (src/core/store.ts).
use tilda_mcp.Prelude.{
  String, ◌==◌, ◌≡◌, refl, sym, ap, ◌∙◌, Option, none, some, false, List, [], ◌∷◌, ◌++◌, arith,
  Bool-cases, inl, inr,
}
use mathlib.Core.List.{append_assoc, append-nil}
use tilda_mcp.Dict.{Dict, lookup, insert, lookup-insert}
use tilda_mcp.Effect.Check.{ok, reject_if, >>=-eq-ok, >>-eq-ok, reject_if-eq-ok, for_each}
use tilda_mcp.Effect.Codes.{Code, Failure, changeset_not_found, changeset_exists}
use tilda_mcp.Effect.State.{Outcome, threw, final, modify, pure}
use tilda_mcp.Effect.Keeps.{IsPreorder, Keeps, Keeps-attempt, Keeps-bind, Keeps-pure, Keeps-gets}
use tilda_mcp.Effect.Cases.{attempt-cases, gets-cases, modify-cases}
use tilda_mcp.Contracts.Hash.{Platform}
use tilda_mcp.Contracts.Records.{ChangeSetRecord, SnapshotEnvelope}
use tilda_mcp.Store.{Store, Action, apply, rollback, IdempotencyMapping}
use tilda_mcp.Store.Checks.{assert_uuid, is_some}
use tilda_mcp.Store.Read.{events, assert_event, assert_transitions, load_change_set_history}
use tilda_mcp.Store.Journal.{
  create_snapshot, discard_unreferenced_snapshot, create_change_set, append_change_set,
  find_by_idempotency_key,
}
use tilda_mcp.Store.Claims.{ActionAttempt, unclaimed, replay, bind_key, add_claim}
use tilda_mcp.Store.Attempts.{write_claim, claim_action_idempotency}
use tilda_mcp.Store.Loaded.{==-sound}
use tilda_mcp.Store.Claimed.{reads-Keeps, reads-cases}

-- The journal stands, with events added after it.
abbrev pub Extends : List ChangeSetRecord → Option (List ChangeSetRecord) → Type 0
Extends h o = (added : List ChangeSetRecord) × (o ≡ some (h ++ added))

abbrev pub Grows : Store → Store → Type 0
Grows s t =
    (id : String) (h : List ChangeSetRecord)
    → lookup id s.change_sets ≡ some h
    → Extends h (lookup id t.change_sets)

same_journals : (s t : Store) → t.change_sets ≡ s.change_sets → Grows s t
same_journals s t e id h k = ([], ap (lookup id) e ∙ k ∙ ap some (sym (append-nil h)))

pub Grows-preorder : IsPreorder Grows
Grows-preorder = record {
  reflexive = λ s. same_journals s s refl;
  transitive = λ s t u f g id h k.
      let (xs, l) = f id h k in
      let (ys, m) = g id (h ++ xs) l in (xs ++ ys, m ∙ ap some (append_assoc h xs ys));
}

abbrev pre : IsPreorder Grows
pre = Grows-preorder

Grows-modify :
    (f : Store → Store) → ((s : Store) → (f s).change_sets ≡ s.change_sets) → Keeps Grows (modify f)
unfolding modify
Grows-modify f e = record { at = λ s. same_journals s (f s) (e s) }

pub create_snapshot-Grows : (s : SnapshotEnvelope) → Keeps Grows (create_snapshot s)
unfolding create_snapshot
create_snapshot-Grows s = Keeps-bind pre (Keeps-attempt pre _) λ _.
    Keeps-bind pre (reads-Keeps pre _)
      λ _. Keeps-bind pre (Grows-modify _ (λ s. refl)) λ _. Keeps-pure pre s

pub discard-Grows : (id : String) → Keeps Grows (discard_unreferenced_snapshot id)
unfolding discard_unreferenced_snapshot
discard-Grows id = Keeps-bind pre (Keeps-attempt pre _) λ _.
    Keeps-bind pre (reads-Keeps pre _)
      λ _. Keeps-bind pre (Keeps-attempt pre _) λ _. Grows-modify _ (λ s. refl)

pub find_by_idempotency_key-Grows :
    (platform : Platform) (key : String) → Keeps Grows (find_by_idempotency_key platform key)
unfolding find_by_idempotency_key
find_by_idempotency_key-Grows platform key =
    Keeps-bind pre (Keeps-attempt pre _) λ _. reads-Keeps pre _

bind_key-journals :
    (digest : String) (m : IdempotencyMapping) (old : Option IdempotencyMapping) (s : Store)
    → (bind_key digest m old s).change_sets ≡ s.change_sets
unfolding bind_key
bind_key-journals digest m none s = refl
bind_key-journals digest m (some o) s = refl

write_claim-Grows :
    (action : Action) (id digest : String) (status : ActionAttempt)
    → Keeps Grows (write_claim action id digest status)
unfolding write_claim add_claim
write_claim-Grows action id digest replay = Keeps-pure pre _
write_claim-Grows apply id digest unclaimed = Keeps-bind pre (Keeps-gets pre _) λ old.
    Keeps-bind pre (Keeps-attempt pre _) λ _.
      Keeps-bind pre (Grows-modify _ (bind_key-journals digest _ old)) λ _.
        Keeps-bind pre (reads-Keeps pre _)
          λ _. Keeps-bind pre (Grows-modify _ (λ s. refl)) λ _. Keeps-pure pre _
write_claim-Grows rollback id digest unclaimed = Keeps-bind pre (Keeps-gets pre _) λ old.
    Keeps-bind pre (Keeps-attempt pre _) λ _.
      Keeps-bind pre (Grows-modify _ (bind_key-journals digest _ old)) λ _.
        Keeps-bind pre (reads-Keeps pre _)
          λ _. Keeps-bind pre (Grows-modify _ (λ s. refl)) λ _. Keeps-pure pre _

pub claim-Grows :
    (platform : Platform) (key : String) (action : Action) (id : String)
    → Keeps Grows (claim_action_idempotency platform key action id)
unfolding claim_action_idempotency
claim-Grows platform key action id = Keeps-bind pre (Keeps-attempt pre _) λ _.
    Keeps-bind pre (reads-Keeps pre _) λ _. Keeps-bind pre (Keeps-attempt pre _) λ digest.
      Keeps-bind pre (reads-Keeps pre _) λ status. write_claim-Grows action id digest status

events-there :
    (o : Option (List ChangeSetRecord)) (c : Code) (h : List ChangeSetRecord)
    → events o c ≡ ok h
    → o ≡ some h
unfolding events
events-there none c h e = cc
events-there (some []) c h e = cc
events-there (some (x ∷ xs)) c h e = cc

history-there :
    (id : String) (s : Store) (h : List ChangeSetRecord)
    → load_change_set_history id s ≡ ok h
    → lookup id s.change_sets ≡ some h
unfolding load_change_set_history
history-there id s h e =
    let (_, there) = >>-eq-ok (assert_uuid id) _ e in
    let (found, read, checked) =
      >>=-eq-ok (events (lookup id s.change_sets) changeset_not_found) _ there in
    let (_, rest) = >>-eq-ok (for_each (assert_event id) found) _ checked in
    let (_, same) = >>-eq-ok (assert_transitions found) _ rest in
    let known = events-there _ changeset_not_found found read in cc (known, same)

one_more :
    (o : Option (List ChangeSetRecord)) (h old : List ChangeSetRecord) (r : ChangeSetRecord)
    → o ≡ some h
    → o ≡ some old
    → some (h ++ r ∷ []) ≡ some (old ++ r ∷ [])
one_more o h old r e f = cc

not_there :
    {h : List ChangeSetRecord} (o : Option (List ChangeSetRecord)) (old : List ChangeSetRecord)
    → is_some o ≡ false
    → o ≡ some old
    → Extends old (some h)
not_there none old e f = ground arith
not_there (some h) old e f = ground arith

-- A journal is replaced by a longer one, or is new.
insert-Grows :
    (d : Dict (List ChangeSetRecord)) (id : String) (new : List ChangeSetRecord)
    → ((h : List ChangeSetRecord) → lookup id d ≡ some h → Extends h (some new))
    → (j : String) (h : List ChangeSetRecord) → lookup j d ≡ some h
    → Extends h (lookup j (insert id new d))
insert-Grows d id new longer j h k = elim (Bool-cases (id == j)) [
  | inl same ↦
      let (added, l) = longer h (ap (λ i. lookup i d) (==-sound id j same) ∙ k) in
      (added, lookup-insert j id new d ∙ rw same l)
  | inr other ↦ ([], lookup-insert j id new d ∙ rw other (k ∙ ap some (sym (append-nil h))))
]

module _ (s : Store) where
  abbrev Q : Outcome Store ChangeSetRecord → Type 0
  Q o = Grows s (final o)

  same : (e : Failure) → Q (threw e s)
  same e = pre.reflexive s

  pub append_change_set-Grows : (r : ChangeSetRecord) → Q (append_change_set r s)
  unfolding append_change_set pure
  append_change_set-Grows r =
      attempt-cases Q s _ _
        (λ _ _.
          reads-cases Q s _ _
            (λ h loaded.
              attempt-cases Q s _ _
                (λ x _.
                  attempt-cases Q s _ _
                    (λ _ _.
                      attempt-cases Q s _ _
                        (λ _ _. modify-cases Q s _ _ (
                          insert-Grows s.change_sets r.change_set_id (h ++ r ∷ []) (λ old there. (
                            r ∷ [],
                            one_more _ h old r (history-there r.change_set_id s h loaded) there,
                          ))))
                        same)
                    same)
                same)
            same)
        same

  new-Grows :
      (id : String) (new : List ChangeSetRecord)
      → reject_if (is_some (lookup id s.change_sets)) changeset_exists ≡ ok tt
      → (j : String) (h : List ChangeSetRecord) → lookup j s.change_sets ≡ some h
      → Extends h (lookup j (insert id new s.change_sets))
  new-Grows id new free =
      insert-Grows s.change_sets id new
        (λ old there. not_there _ old (reject_if-eq-ok _ _ free) there)

  pub create_change_set-Grows :
      (platform : Platform) (r : ChangeSetRecord) (key : Option String)
      → Q (create_change_set platform r key s)
  unfolding create_change_set pure
  create_change_set-Grows platform r none =
      attempt-cases Q s _ _
        (λ _ _.
          attempt-cases Q s _ _
            (λ _ _.
              attempt-cases Q s _ _
                (λ _ _. gets-cases Q s _ _ (
                  attempt-cases Q s _ _ (λ _ free. modify-cases Q s _ _ (new-Grows _ _ free)) same))
                same)
            same)
        same
  create_change_set-Grows platform r (some key) =
      attempt-cases Q s _ _
        (λ _ _.
          attempt-cases Q s _ _
            (λ _ _.
              attempt-cases Q s _ _
                (λ digest _.
                  reads-cases Q s _ _
                    (λ bound _.
                      attempt-cases Q s _ _
                        (λ _ _.
                          attempt-cases Q s _ _
                            (λ _ _. gets-cases Q s _ _ (
                              attempt-cases Q s _ _
                                (λ _ free. gets-cases Q s _ _ (
                                  attempt-cases Q s _ _
                                    (λ _ _. modify-cases Q s _ _ (new-Grows _ _ free)) same))
                                same))
                            same)
                        same)
                    same)
                same)
            same)
        same
