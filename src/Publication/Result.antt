-- ===== src/Publication/Result.antt =====
-- What `execute` reports of the page (src/core/publication.ts).
use tilda_mcp.Prelude.{
  ℕ, String, ◌==◌, ◌≡◌, refl, Option, none, some, List, true, false, arith, and_parts, ap, sym, ◌∙◌,
}
use mathlib.Core.Logic.{ite}
use tilda_mcp.Effect.Check.{require-eq-ok}
use tilda_mcp.Effect.State.{Outcome, returned, threw, Exec, final, pure}
use tilda_mcp.Effect.Cases.{attempt-cases, gets-cases, modify-cases}
use tilda_mcp.Effect.Ensures.{
  OnReturn, Ensures, Ensures-throw, Ensures-bind, Ensures-bind-both, Ensures-weaken, on_returned,
}
use tilda_mcp.Contracts.Targets.{PageTarget, PageTarget-discrete}
use tilda_mcp.Contracts.Records.{
  PublicationJournalRecord, PublicationAction, PublicationAction-discrete, Timestamp,
}
use tilda_mcp.Contracts.Hash.{Platform}
use tilda_mcp.Store.{Store}
use tilda_mcp.Store.Claims.{Claim, claimed_now, replayed}
use tilda_mcp.Store.Attempts.{
  PublicationIntent, same_intent, open_publication, claimed_record, claim_publication_action,
}
use tilda_mcp.Store.Claimed.{reads-cases}
use tilda_mcp.Engine.World.{World, with_store, on_store, on_outside}
use tilda_mcp.Engine.Locking.{with_mutation_lock-Ensures}
use tilda_mcp.Publication.Data.{
  PublicationData, PublicationHost, PublicationActionResult, is_desired, finished, and_leave,
  with_session,
}
use tilda_mcp.Publication.Execute.{publish_claimed, execute_locked, execute, intent_of}
use tilda_mcp.Publication.Settles.{Reached, first-Reached, replay-Reached}

-- The journal that a claim gives is of the intent that was asked for.
abbrev Owned : PublicationIntent → Claim × PublicationJournalRecord → Type 0
Owned i (c, r) = (r.action ≡ i.action) × (r.target ≡ i.target)

decided : {P : Type 0} (d : Dec P) → ite d true false ≡ true → P
decided (yes p) h = p
decided (no n) h = ground arith

intent_is :
    (r : PublicationJournalRecord) (i : PublicationIntent) (c : Claim)
    → same_intent r i ≡ true
    → Owned i (c, r)
intent_is r i c h =
    let (rest, same_target) = and_parts _ _ h in
    let (_, same_action) = and_parts (r.intent_hash == i.intent_hash) _ rest in
    (
      decided (PublicationAction-discrete r.action i.action) same_action,
      decided (PageTarget-discrete r.target i.target) same_target,
    )

opened-Owned :
    (digest : String) (now : Timestamp) (i : PublicationIntent)
    (o : Option PublicationJournalRecord) (s : Store)
    → OnReturn (Owned i) (open_publication digest now i o s)
unfolding open_publication claimed_record pure
opened-Owned digest now i (some r) s =
    attempt-cases (OnReturn (Owned i)) s _ _
      (λ _ same. intent_is r i replayed (require-eq-ok _ _ same)) (λ e. tt)
opened-Owned digest now i none s = gets-cases Q s _ _ (
    attempt-cases Q s _ _
      (λ _ _.
        modify-cases Q s _ _
          (attempt-cases Q _ _ _ (λ _ _. modify-cases Q _ _ _ (refl, refl)) (λ e. tt)))
      (λ e. tt))
  where
    Q : Outcome Store (Claim × PublicationJournalRecord) → Type 0
    Q = OnReturn (Owned i)

claim-Owned :
    (platform : Platform) (key : String) (now : Timestamp) (i : PublicationIntent) (s : Store)
    → OnReturn (Owned i) (claim_publication_action platform key now i s)
unfolding claim_publication_action
claim-Owned platform key now i s =
    attempt-cases (OnReturn (Owned i)) s _ _
      (λ digest _.
        reads-cases (OnReturn (Owned i)) s _ _ (λ o _. opened-Owned digest now i o s) (λ e. tt))
      (λ e. tt)

stored :
    {E A : Type 0} (P : A → Type 0) (w : World E) (o : Outcome Store A)
    → OnReturn P o
    → OnReturn P (with_store w o)
stored P w (returned a s) h = h
stored P w (threw e s) h = tt

Reached-of :
    {a b : PublicationAction} {s t : PageTarget} (x : PublicationActionResult)
    → a ≡ b
    → s ≡ t
    → Reached a s x
    → Reached b t x
Reached-of x h k r = record {
  same_action = r.same_action ∙ h;
  same_target = r.same_target ∙ k;
  reached = ap (λ a. is_desired a x.after) (sym h) ∙ r.reached;
  not_dry = r.not_dry;
}

left-OnReturn :
    {W A : Type 0} (P : A → Type 0) (o : Outcome W A) (l : Outcome W (Unit {0}))
    → OnReturn P o
    → OnReturn P (finished o l)
left-OnReturn P (returned a w) (returned u v) h = h
left-OnReturn P (threw e w) (returned u v) h = tt
left-OnReturn P (returned a w) (threw f v) h = tt
left-OnReturn P (threw e w) (threw f v) h = tt

module _ {E : Type 0} (host : PublicationHost E) where
  with_session-Ensures :
      {A : Type 0} {P : A → Type 0} {m : Exec (World E) A}
      → Ensures P m
      → Ensures P (with_session host m)
  unfolding with_session and_leave
  with_session-Ensures {A} {P} {m} h =
      Ensures-bind _ λ _. record {
        at = λ w. left-OnReturn P (m w) (on_outside host.leave (final (m w))) (h.at w);
      }

  on_store-Owned :
      (key : String) (now : Timestamp) (i : PublicationIntent)
      → Ensures (Owned i) (on_store {E = E} (claim_publication_action host.platform key now i))
  unfolding on_store
  on_store-Owned key now i = record {
    at = λ w.
        stored (Owned i) w (claim_publication_action host.platform key now i w.store)
          (claim-Owned host.platform key now i w.store);
  }

  claimed-Reached :
      (ds : List ℕ) (action : PublicationAction) (target : PageTarget) (key : String)
      (before : PublicationData) (c : Claim × PublicationJournalRecord)
      → Owned (intent_of host action target before) c
      → Ensures (Reached action target) (publish_claimed host ds action target key before c)
  unfolding publish_claimed intent_of
  claimed-Reached ds action target key before (claimed_now, r) h =
      first-Reached host action target key r before ds
  claimed-Reached ds action target key before (replayed, r) h =
      Ensures-weaken (λ x. Reached-of x h.0 h.1) (replay-Reached host key r before r.state)

  write-Reached :
      (ds : List ℕ) (action : PublicationAction) (target : PageTarget) (key : Option String)
      → Ensures (Reached action target) (execute host ds action target false key)
  unfolding execute execute_locked
  write-Reached ds action target none = Ensures-throw _
  write-Reached ds action target (some key) = with_mutation_lock-Ensures (
      with_session-Ensures (
        Ensures-bind _ λ before. Ensures-bind _ λ t.
          Ensures-bind-both (on_store-Owned key t _)
            λ c owned. claimed-Reached ds action target key before c owned))

  -- Whatever the store, the outside and the answers are: where `execute` is not a dry run and
  -- returns, its result is of the action and the page that were asked for, and the page state that
  -- it gives as the one after is the one that the action wants, also where the key was known.
  pub execute-Reached :
      (ds : List ℕ) (action : PublicationAction) (target : PageTarget) (key : Option String)
      (w v : World E) (r : PublicationActionResult)
      → execute host ds action target false key w ≡ returned r v
      → (r.action ≡ action)
        × (r.target ≡ target)
        × (is_desired action r.after ≡ true)
        × (r.dry_run ≡ false)
  execute-Reached ds action target key w v r h =
      let x = on_returned (Reached action target) h ((write-Reached ds action target key).at w) in
      (x.same_action, x.same_target, x.reached, x.not_dry)
