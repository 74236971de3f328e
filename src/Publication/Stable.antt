-- ===== src/Publication/Stable.antt =====
-- The steps of the controller that send nothing: all but its one dispatch
-- (src/core/publication.ts).
use tilda_mcp.Prelude.{ℕ, String, ◌≡◌, refl, ◌∙◌, List}
use tilda_mcp.Effect.State.{Exec, Outcome, returned, threw, final, ◌>>=◌}
use tilda_mcp.Effect.Keeps.{IsPreorder, Keeps, Keeps-weaken}
use tilda_mcp.Contracts.Targets.{PageTarget}
use tilda_mcp.Contracts.Records.{PublicationJournalRecord, PublicationAction}
use tilda_mcp.Store.{Store}
use tilda_mcp.Store.Published.{
  SameJournals, SameJournals-refl, SameJournals-trans, append_publication-SameJournals,
}
use tilda_mcp.Store.PublicationClaims.{OneMore, Claimed, claim_publication-Claimed}
use tilda_mcp.Store.Claims.{Claim, claimed_now, replayed}
use tilda_mcp.Store.Attempts.{
  PublicationIntent, append_publication_action, claim_publication_action,
}
use tilda_mcp.Engine.World.{World, set_lock, with_store, with_outside, on_store, on_outside}
use tilda_mcp.Publication.Data.{PublicationData, PublicationHost, publication_now}
use tilda_mcp.Publication.Execute.{publish_first, publish_claimed}
use tilda_mcp.Publication.Walk.{Quiet, reconcile_replay-Keeps}

-- A count of what happens outside, which sessions, reads and the clock leave alone.
pub record Meter {E : Type 0} (host : PublicationHost E) : Type 0 where
  pub count : E → ℕ
  pub enter_free : (e : E) → count (final (host.enter e)) ≡ count e
  pub leave_free : (e : E) → count (final (host.leave e)) ≡ count e
  pub read_free : (t : PageTarget) (e : E) → count (final (host.read_publication t e)) ≡ count e
  pub clock_free : (e : E) → count (host.now e).1 ≡ count e

module _ {E : Type 0} {host : PublicationHost E} (m : Meter host) where
  pub record Stable (w v : World E) : Type 0 where
    pub journals : SameJournals w.store v.store
    pub silent : m.count v.outside ≡ m.count w.outside

  Stable-preorder : IsPreorder Stable
  Stable-preorder = record {
    reflexive = λ w. record { journals = SameJournals-refl w.store; silent = refl };
    transitive = λ u v w h k. record {
      journals = SameJournals-trans u.store v.store w.store h.journals k.journals;
      silent = k.silent ∙ h.silent;
    };
  }

  outside_step :
      {A : Type 0} (w : World E) (o : Outcome E A)
      → m.count (final o) ≡ m.count w.outside
      → Stable w (final (with_outside w o))
  outside_step w (returned a e) h = record { journals = SameJournals-refl w.store; silent = h }
  outside_step w (threw f e) h = record { journals = SameJournals-refl w.store; silent = h }

  pub silent_call :
      {A : Type 0} (f : Exec E A)
      → ((e : E) → m.count (final (f e)) ≡ m.count e)
      → Keeps Stable (on_outside f)
  unfolding on_outside
  silent_call f h = record { at = λ w. outside_step w (f w.outside) (h w.outside) }

  store_step :
      {A : Type 0} (w : World E) (o : Outcome Store A)
      → SameJournals w.store (final o)
      → Stable w (final (with_store w o))
  store_step w (returned a s) h = record { journals = h; silent = refl }
  store_step w (threw e s) h = record { journals = h; silent = refl }

  append-Stable :
      (key : String) (r : PublicationJournalRecord)
      → Keeps Stable (on_store (append_publication_action host.platform key r))
  unfolding on_store
  append-Stable key r = record {
    at = λ w.
        store_step w (append_publication_action host.platform key r w.store)
          (append_publication-SameJournals host.platform key r w.store);
  }

  now-Stable : Keeps Stable (publication_now host)
  unfolding publication_now
  now-Stable = record {
    at = λ w. record { journals = SameJournals-refl w.store; silent = m.clock_free w.outside };
  }

  -- Every preorder that such a step keeps can be walked.
  module _ {R : World E → World E → Type 0} (pre : IsPreorder R)
      (le : (w v : World E) → Stable w v → R w v) where
    pub quiet_of : Quiet host R
    quiet_of = record {
      preorder = pre;
      entering = Keeps-weaken le (silent_call host.enter m.enter_free);
      leaving = Keeps-weaken le (silent_call host.leave m.leave_free);
      reading = λ t. Keeps-weaken le (silent_call (host.read_publication t) (m.read_free t));
      clock = Keeps-weaken le now-Stable;
      lock = λ b w. le w (set_lock b w) (record {
        journals = record {
          same_length = refl;
          same_names = λ d. refl;
          same_settled = λ d x y h. h;
        };
        silent = refl;
      });
      journal = λ key r. Keeps-weaken le (append-Stable key r);
    }

    pub waiting_of :
        ((ms : ℕ) (e : E) → m.count (final (host.delay ms e)) ≡ m.count e)
        → (ms : ℕ) → Keeps R (on_outside (host.delay ms))
    waiting_of free ms = Keeps-weaken le (silent_call (host.delay ms) (free ms))

    module _ (ds : List ℕ) (action : PublicationAction) (target : PageTarget) (key : String)
        (before : PublicationData) where
      claim_step :
          (w : World E) (o : Outcome Store (Claim × PublicationJournalRecord))
          → Claimed host.platform key w.store o
          → ((r : PublicationJournalRecord) (t : Store)
              → OneMore host.platform key w.store t
              → R w (
                  final
                    (publish_first host ds action target key r before (record w { store = t }))))
          → R w (
              final (elim (with_store w o) [
                | returned a v ↦ publish_claimed host ds action target key before a v
                | threw e v ↦ threw e v
              ]))
      unfolding publish_claimed
      claim_step w (returned (claimed_now, r) t) h k = k r t h
      claim_step w (returned (replayed, r) t) h k =
          pre.transitive w _ _ (le w _ (record { journals = h; silent = refl }))
            ((reconcile_replay-Keeps quiet_of key r r.state before).at (record w { store = t }))
      claim_step w (threw e t) h k = le w _ (record { journals = h; silent = refl })

      -- After a claim only a first attempt is left to look at.
      pub claim-Keeps :
          (t : ℕ) (i : PublicationIntent)
          → ((w : World E) (r : PublicationJournalRecord) (s : Store)
              → OneMore host.platform key w.store s
              → R w (
                  final
                    (publish_first host ds action target key r before (record w { store = s }))))
          → Keeps R (
              on_store (claim_publication_action host.platform key t i)
              >>= publish_claimed host ds action target key before)
      unfolding on_store ◌>>=◌
      claim-Keeps t i h = record {
        at = λ w.
            claim_step w _ (claim_publication-Claimed host.platform key t i w.store)
              (λ r s. h w r s);
      }
