-- ===== src/Publication/Walk.antt =====
-- The controller is walked once for every relation that it keeps outside its one dispatch
-- (src/core/publication.ts).
use tilda_mcp.Prelude.{ℕ, String, ◌≡◌, refl, Option, none, some, Bool, true, false, List, [], ◌∷◌}
use tilda_mcp.Effect.Codes.{Code}
use tilda_mcp.Effect.State.{Exec, Outcome, returned, threw, final, pure, ◌>>=◌}
use tilda_mcp.Effect.Keeps.{
  IsPreorder, Keeps, Keeps-pure, Keeps-throw, Keeps-attempt, Keeps-bind, Keeps-catch, Keeps-if,
}
use tilda_mcp.Contracts.Targets.{PageTarget}
use tilda_mcp.Contracts.Records.{
  PublicationJournalRecord, PublicationJournalState, claimed, succeeded, noop, ambiguous,
  PublicationAction,
}
use tilda_mcp.Store.Attempts.{append_publication_action, claim_publication_action}
use tilda_mcp.Engine.Locking.{with_mutation_lock-Keeps}
use tilda_mcp.Engine.World.{World, on_store, on_outside, set_lock}
use tilda_mcp.Publication.Data.{
  PublicationData, PublicationHost, PublicationActionResult, publication_now, finished, and_leave,
  with_session, read_page,
}
use tilda_mcp.Publication.Reread.{Verdict, Reread, reread, reread_after, read_after_dispatch}
use tilda_mcp.Publication.Replay.{
  append_terminal, replay_terminal, replay_claimed, reconcile_replay,
}
use tilda_mcp.Publication.Execute.{
  Dispatch, settle_publication, publish_claimed, intent_of, execute_locked, execute,
}

pub record Quiet {E : Type 0} (host : PublicationHost E) (R : World E → World E → Type 0)
    : Type 0 where
  pub preorder : IsPreorder R
  pub entering : Keeps R (on_outside host.enter)
  pub leaving : Keeps R (on_outside host.leave)
  pub reading : (t : PageTarget) → Keeps R (on_outside (host.read_publication t))
  pub clock : Keeps R (publication_now host)
  pub lock : (b : Bool) (w : World E) → R w (set_lock b w)
  pub journal :
      (key : String) (r : PublicationJournalRecord)
      → Keeps R (on_store (append_publication_action host.platform key r))

module _ {E : Type 0} {host : PublicationHost E} {R : World E → World E → Type 0}
    (q : Quiet host R) where
  leave_step :
      {A : Type 0} (w v : World E) (o : Outcome (World E) A) (l : Outcome (World E) (Unit {0}))
      → R w v
      → R v (final l)
      → R w (final (finished o l))
  leave_step w v (returned a x) (returned u y) h k = q.preorder.transitive w v y h k
  leave_step w v (threw e x) (returned u y) h k = q.preorder.transitive w v y h k
  leave_step w v (returned a x) (threw f y) h k = q.preorder.transitive w v y h k
  leave_step w v (threw e x) (threw f y) h k = q.preorder.transitive w v y h k

  with_session-Keeps :
      {A : Type 0} {m : Exec (World E) A} → Keeps R m → Keeps R (with_session host m)
  unfolding with_session and_leave
  with_session-Keeps {m} h = Keeps-bind q.preorder q.entering λ _. record {
    at = λ w.
        leave_step w (final (m w)) (m w) (on_outside host.leave (final (m w))) (h.at w)
          (q.leaving.at (final (m w)));
  }

  read_page-Keeps : (t : PageTarget) → Keeps R (read_page host t)
  unfolding read_page
  read_page-Keeps t = q.reading t

  module _ (target : PageTarget) (action : PublicationAction) (b : Bool) (h : String) where
    pub reread-Keeps : Keeps R (reread host target action b h)
    unfolding reread
    reread-Keeps =
        Keeps-catch q.preorder
          (Keeps-bind q.preorder (read_page-Keeps target) λ d. Keeps-pure q.preorder _)
          (λ e. Keeps-pure q.preorder _)

    -- Where the waits keep the relation too.
    module _ (waiting : (ms : ℕ) → Keeps R (on_outside (host.delay ms))) where
      reread_after-Keeps :
          (ds : List ℕ) (seen : Reread) → Keeps R (reread_after host target action b h ds seen)
      unfolding reread_after
      reread_after-Keeps [] seen = Keeps-pure q.preorder seen
      reread_after-Keeps (d ∷ ds) seen = Keeps-if _ (Keeps-pure q.preorder seen) (
          Keeps-bind q.preorder (waiting d)
            λ _. Keeps-bind q.preorder reread-Keeps λ next. reread_after-Keeps ds next)

      pub read_after_dispatch-Keeps :
          (ds : List ℕ) → Keeps R (read_after_dispatch host target action b h ds)
      unfolding read_after_dispatch
      read_after_dispatch-Keeps ds =
          Keeps-bind q.preorder reread-Keeps λ first. reread_after-Keeps ds first

  module _ (key : String) (r : PublicationJournalRecord) where
    append_terminal-Keeps :
        (state : PublicationJournalState) (failure reconciliation : Option Code)
        → Keeps R (append_terminal host key r state failure reconciliation)
    unfolding append_terminal
    append_terminal-Keeps state failure reconciliation =
        Keeps-bind q.preorder q.clock λ t. q.journal key _

    replay_terminal-Keeps : (d : PublicationData) → Keeps R (replay_terminal host r d)
    unfolding replay_terminal
    replay_terminal-Keeps d =
        Keeps-bind q.preorder (Keeps-attempt q.preorder _) λ _. Keeps-pure q.preorder _

    pub reconcile_replay-Keeps :
        (s : PublicationJournalState) (d : PublicationData)
        → Keeps R (reconcile_replay host key r s d)
    unfolding reconcile_replay replay_claimed
    reconcile_replay-Keeps succeeded d = replay_terminal-Keeps d
    reconcile_replay-Keeps noop d = replay_terminal-Keeps d
    reconcile_replay-Keeps PublicationJournalState.failed d = Keeps-throw q.preorder _
    reconcile_replay-Keeps ambiguous d = Keeps-throw q.preorder _
    reconcile_replay-Keeps claimed d =
        Keeps-if _
          (Keeps-bind q.preorder (append_terminal-Keeps _ _ _) λ _. Keeps-pure q.preorder _)
          (Keeps-if _
            (Keeps-bind q.preorder (append_terminal-Keeps _ _ _) λ _. Keeps-throw q.preorder _)
            (Keeps-bind q.preorder (append_terminal-Keeps _ _ _) λ _. Keeps-throw q.preorder _))

    module _ (action : PublicationAction) (target : PageTarget) (before : PublicationData) where
      pub settle_publication-Keeps :
          (d : Dispatch) (state : Verdict) (o : Option PublicationData)
          → Keeps R (settle_publication host action target key r before d state o)
      unfolding settle_publication
      settle_publication-Keeps d state none =
          Keeps-bind q.preorder (append_terminal-Keeps _ _ _) λ _. Keeps-throw q.preorder _
      settle_publication-Keeps d state (some after) =
          Keeps-if _
            (Keeps-bind q.preorder (append_terminal-Keeps _ _ _) λ _. Keeps-pure q.preorder _)
            (Keeps-if _
              (Keeps-bind q.preorder (append_terminal-Keeps _ _ _) λ _. Keeps-throw q.preorder _)
              (Keeps-bind q.preorder (append_terminal-Keeps _ _ _) λ _. Keeps-throw q.preorder _))

    pub noop-Keeps :
        (x : PublicationActionResult)
        → Keeps R (append_terminal host key r noop none none >>= λ _. pure x)
    noop-Keeps x = Keeps-bind q.preorder (append_terminal-Keeps _ _ _) λ _. Keeps-pure q.preorder x

  -- What a claim and what follows it keep, the method keeps.
  pub execute-Keeps :
      (ds : List ℕ) (action : PublicationAction) (target : PageTarget) (dry_run : Bool)
      (key : Option String)
      → ((k : String)
          → key ≡ some k
          → (t : ℕ) (before : PublicationData)
          → Keeps R (
              on_store
                (claim_publication_action host.platform k t (intent_of host action target before))
              >>= publish_claimed host ds action target k before))
      → Keeps R (execute host ds action target dry_run key)
  unfolding execute execute_locked
  execute-Keeps ds action target true key h =
      with_session-Keeps
        (Keeps-bind q.preorder (read_page-Keeps target) λ before. Keeps-pure q.preorder _)
  execute-Keeps ds action target false none h = Keeps-throw q.preorder _
  execute-Keeps ds action target false (some key) h = with_mutation_lock-Keeps q.preorder q.lock (
      with_session-Keeps (
        Keeps-bind q.preorder (read_page-Keeps target)
          λ before. Keeps-bind q.preorder q.clock λ t. h key refl t before))
