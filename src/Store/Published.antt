-- ===== src/Store/Published.antt =====
-- What claiming and ending a publication does to the journals of publications
-- (src/core/store.ts).
use tilda_mcp.Prelude.{
  String, ◌==◌, ◌≡◌, refl, sym, ap, ◌∙◌, Option, none, some, Bool, true, false, List, [], ◌∷◌, ◌++◌,
  arith, length, ltb, Bool-cases, inl, inr,
}
use tilda_mcp.Dict.{lookup, insert, lookup-insert, length-insert_known}
use tilda_mcp.Effect.Codes.{Code, Failure, state_corrupt}
use tilda_mcp.Effect.Check.{
  ok, for_each, reject_if, require, >>=-eq-ok, >>-eq-ok, require-eq-ok, reject_if-eq-ok,
}
use tilda_mcp.Effect.State.{Outcome, threw, final, pure}
use tilda_mcp.Effect.Cases.{attempt-cases, modify-cases}
use tilda_mcp.Contracts.Hash.{Platform}
use tilda_mcp.Contracts.Records.{PublicationJournalRecord}
use tilda_mcp.Store.{Store}
use tilda_mcp.Store.Checks.{assert_hex_hash, is_some}
use tilda_mcp.Store.Read.{
  last, events, is_claimed, assert_publication_event, assert_publication_history,
  load_publication_history,
}
use tilda_mcp.Store.Attempts.{append_publication_action}
use tilda_mcp.Store.Loaded.{==-sound}
use tilda_mcp.Store.Claimed.{reads-cases}

abbrev pub has_journal : String → Store → Bool
has_journal digest s = is_some (lookup digest s.publications)

-- A journal that has come to its end.
abbrev pub Settled : String → PublicationJournalRecord → PublicationJournalRecord → Store → Type 0
Settled digest first second s = lookup digest s.publications ≡ some (first ∷ second ∷ [])

-- The same journals are there, and the settled ones have not changed.
pub record SameJournals (s t : Store) : Type 0 where
  pub same_length : length t.publications ≡ length s.publications
  pub same_names : (d : String) → has_journal d t ≡ has_journal d s
  pub same_settled :
      (d : String) (x y : PublicationJournalRecord) → Settled d x y s → Settled d x y t

pub same_publications : (s t : Store) → t.publications ≡ s.publications → SameJournals s t
same_publications s t h = record {
  same_length = ap length h;
  same_names = λ d. ap (λ p. is_some (lookup d p)) h;
  same_settled = λ d x y k. ap (lookup d) h ∙ k;
}

pub SameJournals-refl : (s : Store) → SameJournals s s
SameJournals-refl s = same_publications s s refl

pub SameJournals-trans : (s t u : Store) → SameJournals s t → SameJournals t u → SameJournals s u
SameJournals-trans s t u h k = record {
  same_length = k.same_length ∙ h.same_length;
  same_names = λ d. k.same_names d ∙ h.same_names d;
  same_settled = λ d x y e. k.same_settled d x y (h.same_settled d x y e);
}

events-there :
    (o : Option (List PublicationJournalRecord)) (c : Code) (h : List PublicationJournalRecord)
    → events o c ≡ ok h
    → o ≡ some h
unfolding events
events-there none c h e = cc
events-there (some []) c h e = cc
events-there (some (x ∷ xs)) c h e = cc

publication-there :
    (digest : String) (s : Store) (h : List PublicationJournalRecord)
    → load_publication_history digest s ≡ ok h
    → (lookup digest s.publications ≡ some h) × (assert_publication_history h ≡ ok tt)
unfolding load_publication_history
publication-there digest s h e =
    let (_, there) = >>-eq-ok (assert_hex_hash digest) _ e in
    let (found, read, bounded) =
      >>=-eq-ok (events (lookup digest s.publications) state_corrupt) _ there in
    let (_, checked) = >>-eq-ok (reject_if (ltb 2 (length found)) state_corrupt) _ bounded in
    let (_, rest) = >>-eq-ok (for_each (assert_publication_event digest) found) _ checked in
    let (sound, same) = >>-eq-ok (assert_publication_history found) _ rest in
    let known = events-there _ state_corrupt found read in (cc (known, same), cc (sound, same))

-- The last event of a journal of two is not a claim.
settled-last :
    (x y r : PublicationJournalRecord)
    → assert_publication_history (x ∷ y ∷ []) ≡ ok tt
    → last (x ∷ y ∷ []) ≡ ok r
    → is_claimed r.state ≡ false
unfolding assert_publication_history last
settled-last x y r h k =
    let (_, rest) = >>-eq-ok (require (is_claimed x.state) state_corrupt) _ h in
    let (terminal, _) = >>-eq-ok (reject_if (is_claimed y.state) state_corrupt) _ rest in
    let same = reject_if-eq-ok (is_claimed y.state) _ terminal in cc (same, k)

-- What an insertion does: at a name that is there, and not settled, nothing else changes.
insert-SameJournals :
    (s : Store) (digest : String) (h new : List PublicationJournalRecord)
    → lookup digest s.publications ≡ some h
    → ((x y : PublicationJournalRecord) → h ≡ x ∷ y ∷ [] → ⊥)
    → SameJournals s (record s { publications = insert digest new s.publications })
insert-SameJournals s digest h new known open_ended = record {
  same_length = length-insert_known digest new h s.publications known;
  same_names = names;
  same_settled = settled;
}
  where
    names :
        (d : String)
        → is_some (lookup d (insert digest new s.publications)) ≡ is_some (lookup d s.publications)
    names d = elim (Bool-cases (digest == d)) [
      | inl same ↦
          ap is_some (lookup-insert d digest new s.publications)
          ∙ rw (same, sym (==-sound digest d same), known) refl
      | inr other ↦ ap is_some (lookup-insert d digest new s.publications) ∙ rw other refl
    ]

    settled :
        (d : String) (x y : PublicationJournalRecord)
        → lookup d s.publications ≡ some (x ∷ y ∷ [])
        → lookup d (insert digest new s.publications) ≡ some (x ∷ y ∷ [])
    settled d x y e = elim (Bool-cases (digest == d)) [
      | inl same ↦
          let found = ap (λ i. lookup i s.publications) (==-sound digest d same) ∙ e in
          elim (open_ended x y (cc (known, found))) [ ]
      | inr other ↦ lookup-insert d digest new s.publications ∙ rw other e
    ]

-- A terminal event keeps the journals that are there, and every settled one.
pub append_publication-SameJournals :
    (platform : Platform) (key : String) (r : PublicationJournalRecord) (s : Store)
    → SameJournals s (final (append_publication_action platform key r s))
unfolding append_publication_action pure
append_publication-SameJournals platform key r s =
    attempt-cases Q s _ _
      (λ digest _.
        attempt-cases Q s _ _
          (λ _ _.
            attempt-cases Q s _ _
              (λ _ _.
                reads-cases Q s _ _
                  (λ h loaded.
                    attempt-cases Q s _ _
                      (λ current latest.
                        attempt-cases Q s _ _
                          (λ _ _.
                            attempt-cases Q s _ _
                              (λ _ open_one.
                                attempt-cases Q s _ _
                                  (λ _ _.
                                    attempt-cases Q s _ _
                                      (λ _ _. modify-cases Q s _ _ (
                                        longer digest h current loaded latest
                                          (require-eq-ok _ _ open_one)))
                                      same)
                                  same)
                              same)
                          same)
                      same)
                  same)
              same)
          same)
      same
  where
    Q : Outcome Store PublicationJournalRecord → Type 0
    Q o = SameJournals s (final o)

    same : (e : Failure) → Q (threw e s)
    same e = SameJournals-refl s

    longer :
        (digest : String) (h : List PublicationJournalRecord) (current : PublicationJournalRecord)
        → load_publication_history digest s ≡ ok h
        → last h ≡ ok current
        → is_claimed current.state ≡ true
        → SameJournals s (record s { publications = insert digest (h ++ r ∷ []) s.publications })
    longer digest h current loaded latest open_one =
        let (known, sound) = publication-there digest s h loaded in
        insert-SameJournals s digest h (h ++ r ∷ []) known (λ x y two.
          let no = settled-last x y current (cc (two, sound)) (cc (two, latest)) in
          ground (arith, no, open_one))
