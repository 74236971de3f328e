-- ===== src/Store/PublicationClaims.antt =====
-- What claiming a publication adds to the journals (src/core/store.ts).
use tilda_mcp.Prelude.{
  suc, String, ◌==◌, ◌≡◌, refl, ap, ◌∙◌, Option, none, some, true, false, List, [], ◌∷◌, arith,
  length, Bool-cases, inl, inr,
}
use tilda_mcp.Dict.{lookup, insert, lookup-insert, length-insert_new}
use tilda_mcp.Effect.Check.{Result, ok, err}
use tilda_mcp.Effect.State.{Outcome, returned, threw, pure}
use tilda_mcp.Effect.Cases.{attempt-cases, gets-cases, modify-cases}
use tilda_mcp.Contracts.Hash.{Platform}
use tilda_mcp.Contracts.Records.{PublicationJournalRecord, Timestamp}
use tilda_mcp.Store.{Store, IdempotencyMapping, publication_mapping}
use tilda_mcp.Store.Checks.{is_some}
use tilda_mcp.Store.Read.{last, load_publication_history, idempotency_digest}
use tilda_mcp.Store.Claims.{Claim, claimed_now, replayed, bind_key}
use tilda_mcp.Store.Attempts.{
  PublicationIntent, load_publication, load_publication_by_digest, open_publication,
  claim_publication_action,
}
use tilda_mcp.Store.Loaded.{==-sound}
use tilda_mcp.Store.Claimed.{reads-cases}
use tilda_mcp.Store.Published.{
  has_journal, Settled, SameJournals, SameJournals-refl, same_publications,
}

-- A claim that is made adds one journal, under the digest of its key, which had none; every other
-- outcome of a claim adds none.
pub record OneMore (platform : Platform) (key : String) (s t : Store) : Type 0 where
  pub digest : String
  pub digest_of_key : idempotency_digest platform key ≡ ok digest
  pub none_before : has_journal digest s ≡ false
  pub longer : length t.publications ≡ suc (length s.publications)
  pub names_kept : (d : String) → has_journal d s ≡ true → has_journal d t ≡ true
  pub settled_kept :
      (d : String) (x y : PublicationJournalRecord) → Settled d x y s → Settled d x y t

abbrev pub Claimed :
    Platform → String → Store → Outcome Store (Claim × PublicationJournalRecord) → Type 0
Claimed platform key s (returned (claimed_now, r) t) = OneMore platform key s t
Claimed platform key s (returned (replayed, r) t) = SameJournals s t
Claimed platform key s (threw e t) = SameJournals s t

not_loaded :
    (digest : String) (o : Option (List PublicationJournalRecord)) (s : Store)
    → load_publication digest o s ≡ ok none
    → o ≡ none
unfolding load_publication
not_loaded digest none s h = refl
not_loaded digest (some x) s h = go (load_publication_history digest s) h
  where
    inner :
        (l : Result PublicationJournalRecord)
        → elim l [ err e ↦ err e | ok r ↦ ok (some r) ] ≡ ok none
        → some x ≡ none
    inner (ok r) h = cc
    inner (err e) h = cc

    go :
        (l : Result (List PublicationJournalRecord))
        → elim l [
          | err e ↦ err e
          | ok history ↦ elim (last history) [ err e ↦ err e | ok r ↦ ok (some r) ]
        ]
          ≡ ok none
        → some x ≡ none
    go (ok history) h = inner (last history) h
    go (err e) h = cc

bind_key-publications :
    (digest : String) (m : IdempotencyMapping) (old : Option IdempotencyMapping) (s : Store)
    → (bind_key digest m old s).publications ≡ s.publications
unfolding bind_key
bind_key-publications digest m none s = refl
bind_key-publications digest m (some k) s = refl

-- A new journal, put into the journals of a store that were those of another.
insert-OneMore :
    (platform : Platform) (key digest : String) (new : List PublicationJournalRecord) (s t : Store)
    → idempotency_digest platform key ≡ ok digest
    → lookup digest s.publications ≡ none
    → t.publications ≡ s.publications
    → OneMore platform key s (record t { publications = insert digest new t.publications })
insert-OneMore platform key digest new s t hashed free same = record {
  digest = digest;
  digest_of_key = hashed;
  none_before = ap is_some free;
  longer =
      length-insert_new digest new t.publications (ap (lookup digest) same ∙ free)
      ∙ ap (λ d. suc (length d)) same;
  names_kept = names;
  settled_kept = settled;
}
  where
    names :
        (d : String)
        → is_some (lookup d s.publications) ≡ true
        → is_some (lookup d (insert digest new t.publications)) ≡ true
    names d h = elim (Bool-cases (digest == d)) [
      | inl here ↦ ap is_some (lookup-insert d digest new t.publications) ∙ rw here refl
      | inr other ↦ ap is_some (lookup-insert d digest new t.publications) ∙ rw (other, same) h
    ]

    settled :
        (d : String) (x y : PublicationJournalRecord)
        → lookup d s.publications ≡ some (x ∷ y ∷ [])
        → lookup d (insert digest new t.publications) ≡ some (x ∷ y ∷ [])
    settled d x y h = elim (Bool-cases (digest == d)) [
      | inl here ↦
          let found = ap (λ i. lookup i s.publications) (==-sound digest d here) ∙ h in
          ground (arith, free, found)
      | inr other ↦ lookup-insert d digest new t.publications ∙ rw (other, same) h
    ]

opened :
    (platform : Platform) (key digest : String) (now : Timestamp) (i : PublicationIntent)
    (o : Option PublicationJournalRecord) (s : Store)
    → idempotency_digest platform key ≡ ok digest
    → load_publication_by_digest digest s ≡ ok o
    → Claimed platform key s (open_publication digest now i o s)
unfolding open_publication load_publication_by_digest pure
opened platform key digest now i (some r) s hashed loaded =
    attempt-cases (Claimed platform key s) s _ _ (λ _ _. SameJournals-refl s)
      (λ e. SameJournals-refl s)
opened platform key digest now i none s hashed loaded =
    let bound =
      λ (old : Option IdempotencyMapping). bind_key digest (publication_mapping digest) old s in
    let same = λ (old : Option IdempotencyMapping).
      bind_key-publications digest (publication_mapping digest) old s in
    gets-cases Q s _ _ (
      attempt-cases Q s _ _
        (λ _ _. modify-cases Q s _ _ (
          attempt-cases Q (bound _) _ _
            (λ _ _. modify-cases Q (bound _) _ _ (
              insert-OneMore platform key digest _ s (bound _) hashed (not_loaded digest _ s loaded)
                (same _)))
            (λ e. same_publications s (bound _) (same _))))
        (λ e. SameJournals-refl s))
  where
    Q : Outcome Store (Claim × PublicationJournalRecord) → Type 0
    Q = Claimed platform key s

pub claim_publication-Claimed :
    (platform : Platform) (key : String) (now : Timestamp) (i : PublicationIntent) (s : Store)
    → Claimed platform key s (claim_publication_action platform key now i s)
unfolding claim_publication_action
claim_publication-Claimed platform key now i s =
    attempt-cases (Claimed platform key s) s _ _
      (λ digest hashed.
        reads-cases (Claimed platform key s) s _ _
          (λ o loaded. opened platform key digest now i o s hashed loaded)
          (λ e. SameJournals-refl s))
      (λ e. SameJournals-refl s)
