-- ===== src/Publication/Settles.antt =====
-- A settled publication is as its action wants it (src/core/publication.ts).
use tilda_mcp.Prelude.{
  ℕ, String, ◌≡◌, refl, Option, none, some, List, [], ◌∷◌, Bool, true, false, ◌||◌, not, arith,
  and_parts,
}
use tilda_mcp.Effect.Codes.{publication_replay_drift}
use tilda_mcp.Effect.Check.{reject_if-eq-ok, reject_if}
use tilda_mcp.Effect.Ensures.{
  Ensures, Ensures-pure, Ensures-throw, Ensures-bind, Ensures-bind-both, Ensures-bind-attempt,
  Ensures-if, Ensures-catch,
}
use tilda_mcp.Contracts.Targets.{PageTarget}
use tilda_mcp.Contracts.Records.{
  PublicationJournalRecord, PublicationJournalState, claimed, succeeded, noop, ambiguous,
  PublicationAction,
}
use tilda_mcp.Contracts.Hash.{Platform}
use tilda_mcp.Publication.Data.{
  PublicationData, PublicationHost, PublicationActionResult, is_desired,
}
use tilda_mcp.Publication.Reread.{
  Verdict, Reread, classify, reread, reread_after, read_after_dispatch,
}
use tilda_mcp.Publication.Replay.{
  replay_terminal, replay_claimed, reconcile_replay, unchanged_result,
}
use tilda_mcp.Publication.Execute.{Dispatch, settle_publication, publish_first, is_desired_verdict}

-- The page is as the action wants it, and the result is of this action on this page.
pub record Reached (action : PublicationAction) (target : PageTarget) (r : PublicationActionResult)
    : Type 0 where
  pub same_action : r.action ≡ action
  pub same_target : r.target ≡ target
  pub reached : is_desired action r.after ≡ true
  pub not_dry : r.dry_run ≡ false

-- A desired verdict is about a page that was read and is as wanted.
abbrev Sound : PublicationAction → Reread → Type 0
Sound action s =
    (d : PublicationData)
    → s.value ≡ some d
    → is_desired_verdict s.state ≡ true
    → is_desired action d ≡ true

classify-Sound :
    (platform : Platform) (action : PublicationAction) (b : Bool) (h : String)
    (o : Option PublicationData)
    → Sound action (classify platform action b h o)
unfolding classify
classify-Sound platform action b h none d e k = ground arith
classify-Sound platform action b h (some x) d e k = ground arith

module _ {E : Type 0} (host : PublicationHost E) where
  module _ (target : PageTarget) (action : PublicationAction) (b : Bool) (h : String) where
    reread-Sound : Ensures (Sound action) (reread host target action b h)
    unfolding reread
    reread-Sound =
        Ensures-catch
          (Ensures-bind _ λ d. Ensures-pure _ (classify-Sound host.platform action b h (some d)))
          (λ e. Ensures-pure _ (classify-Sound host.platform action b h none))

    reread_after-Sound :
        (ds : List ℕ) (seen : Reread)
        → Sound action seen
        → Ensures (Sound action) (reread_after host target action b h ds seen)
    unfolding reread_after
    reread_after-Sound [] seen s = Ensures-pure seen s
    reread_after-Sound (d ∷ ds) seen s =
        Ensures-if _ (λ _. Ensures-pure seen s)
          (λ _.
            Ensures-bind _
              λ _. Ensures-bind-both reread-Sound λ next k. reread_after-Sound ds next k)

    read_after_dispatch-Sound :
        (ds : List ℕ) → Ensures (Sound action) (read_after_dispatch host target action b h ds)
    unfolding read_after_dispatch
    read_after_dispatch-Sound ds =
        Ensures-bind-both reread-Sound λ first k. reread_after-Sound ds first k

  module _ (action : PublicationAction) (target : PageTarget) (key : String)
      (r : PublicationJournalRecord) (before : PublicationData) where
    settle-Reached :
        (d : Dispatch) (state : Verdict) (o : Option PublicationData)
        → Sound action (record { state = state; value = o })
        → Ensures
            (Reached action target)
            (settle_publication host action target key r before d state o)
    unfolding settle_publication
    settle-Reached d state none s = Ensures-bind _ λ _. Ensures-throw _
    settle-Reached d state (some after) s =
        Ensures-if _
          (λ yes. Ensures-bind _ λ _. Ensures-pure _ (record {
            same_action = refl;
            same_target = refl;
            reached = s after refl yes;
            not_dry = refl;
          }))
          (λ _.
            Ensures-if _ (λ _. Ensures-bind _ λ _. Ensures-throw _)
              (λ _. Ensures-bind _ λ _. Ensures-throw _))

    pub first-Reached :
        (ds : List ℕ)
        → Ensures (Reached action target) (publish_first host ds action target key r before)
    unfolding publish_first
    first-Reached ds =
        Ensures-if _
          (λ yes. Ensures-bind _ λ _.
            Ensures-pure _
              (record { same_action = refl; same_target = refl; reached = yes; not_dry = refl }))
          (λ _. Ensures-bind _ λ d.
            Ensures-bind-both (read_after_dispatch-Sound target action _ _ ds)
              λ seen s. settle-Reached d seen.state seen.value s)

  module _ (key : String) (r : PublicationJournalRecord) (current : PublicationData) where
    terminal-Reached : Ensures (Reached r.action r.target) (replay_terminal host r current)
    unfolding replay_terminal unchanged_result
    terminal-Reached = Ensures-bind-attempt (reject_if _ publication_replay_drift) λ _ passed.
        Ensures-pure _ (record {
          same_action = refl;
          same_target = refl;
          reached = drift_free _ _ (reject_if-eq-ok _ _ passed);
          not_dry = refl;
        })
      where
        drift_free : (a b : Bool) → (not a || not b) ≡ false → a ≡ true
        drift_free a b h = ground arith

    pub replay-Reached :
        (s : PublicationJournalState)
        → Ensures (Reached r.action r.target) (reconcile_replay host key r s current)
    unfolding reconcile_replay replay_claimed unchanged_result
    replay-Reached succeeded = terminal-Reached
    replay-Reached noop = terminal-Reached
    replay-Reached PublicationJournalState.failed = Ensures-throw _
    replay-Reached ambiguous = Ensures-throw _
    replay-Reached claimed =
        Ensures-if _
          (λ yes. Ensures-bind _ λ _. Ensures-pure _ (record {
            same_action = refl;
            same_target = refl;
            reached = (and_parts _ _ yes).0;
            not_dry = refl;
          }))
          (λ _.
            Ensures-if _ (λ _. Ensures-bind _ λ _. Ensures-throw _)
              (λ _. Ensures-bind _ λ _. Ensures-throw _))
