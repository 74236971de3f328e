-- ===== src/Publication/Final.antt =====
-- What no call of the controller takes back (src/core/publication.ts).
use tilda_mcp.Prelude.{ℕ, String, ◌≡◌, refl, ap, ◌∙◌, sym, some, List, [], ◌∷◌, Bool, true, arith}
use tilda_mcp.Dict.{lookup}
use tilda_mcp.Effect.Check.{ok}
use tilda_mcp.Effect.State.{Exec, Outcome, returned, threw, final}
use tilda_mcp.Store.{Store}
use tilda_mcp.Store.PublicationClaims.{OneMore}
use tilda_mcp.Effect.Keeps.{IsPreorder, Keeps, Keeps-pure, Keeps-bind, Keeps-catch, Keeps-if}
use tilda_mcp.Contracts.Targets.{PageTarget}
use tilda_mcp.Contracts.Records.{PublicationJournalRecord, PublicationAction, publish, unpublish}
use tilda_mcp.Store.Read.{idempotency_digest}
use tilda_mcp.Store.Published.{has_journal, Settled}
use tilda_mcp.Engine.World.{World, with_outside, on_outside}
use tilda_mcp.Publication.Data.{PublicationData, PublicationHost}
use tilda_mcp.Publication.Execute.{send, dispatch, publish_first, execute}
use tilda_mcp.Publication.Walk.{
  Quiet, noop-Keeps, settle_publication-Keeps, read_after_dispatch-Keeps, execute-Keeps,
}
use tilda_mcp.Publication.Session.{Request, executed, executed-Keeps}
use tilda_mcp.Publication.Stable.{Stable, quiet_of, claim-Keeps, waiting_of}
use tilda_mcp.Publication.Once.{DispatchMeter}

module _ {E : Type 0} {host : PublicationHost E} (m : DispatchMeter host) where
  -- The journals that are there stay, and those that are settled stay as they are.
  abbrev Stays : World E → World E → Type 0
  Stays w v =
      ((d : String) → has_journal d w.store ≡ true → has_journal d v.store ≡ true)
      × ((d : String) (x y : PublicationJournalRecord)
          → Settled d x y w.store
          → Settled d x y v.store)

  pre : IsPreorder Stays
  pre = record {
    reflexive = λ w. (λ d h. h, λ d x y h. h);
    transitive = λ u v w h k. (λ d l. k.0 d (h.0 d l), λ d x y l. k.1 d x y (h.1 d x y l));
  }

  Stable-Stays : (w v : World E) → Stable m.meter w v → Stays w v
  Stable-Stays w v h = (λ d l. h.journals.same_names d ∙ l, h.journals.same_settled)

  abbrev q : Quiet host Stays
  q = quiet_of m.meter pre Stable-Stays

  outside_step : {A : Type 0} (w : World E) (o : Outcome E A) → Stays w (final (with_outside w o))
  outside_step w (returned a e) = pre.reflexive w
  outside_step w (threw f e) = pre.reflexive w

  send-Stays : (action : PublicationAction) (t : PageTarget) → Keeps Stays (send host action t)
  unfolding send on_outside
  send-Stays publish t = record { at = λ w. outside_step w (host.publish_page t w.outside) }
  send-Stays unpublish t = record { at = λ w. outside_step w (host.unpublish_page t w.outside) }

  dispatch-Stays :
      (action : PublicationAction) (t : PageTarget) → Keeps Stays (dispatch host action t)
  unfolding dispatch
  dispatch-Stays action t =
      Keeps-catch pre (Keeps-bind pre (send-Stays action t) λ receipt. Keeps-pure pre _)
        (λ e. Keeps-pure pre _)

  first-Stays :
      (ds : List ℕ) (action : PublicationAction) (t : PageTarget) (key : String)
      (r : PublicationJournalRecord) (before : PublicationData)
      → Keeps Stays (publish_first host ds action t key r before)
  unfolding publish_first
  first-Stays ds action t key r before = Keeps-if _ (noop-Keeps q key r _) (
      Keeps-bind pre (dispatch-Stays action t) λ d.
        Keeps-bind pre
          (read_after_dispatch-Keeps q t action _ _
            (waiting_of m.meter pre Stable-Stays m.delay_free) ds)
          λ seen. settle_publication-Keeps q key r action t before d seen.state seen.value)

  kept_by_claim :
      {A : Type 0} {f : Exec (World E) A} (w : World E) (s : Store) (k : String)
      → Keeps Stays f
      → OneMore host.platform k w.store s
      → Stays w (final (f (record w { store = s })))
  kept_by_claim w s k p h =
      let (names, settled) = p.at (record w { store = s }) in
      (λ d there. names d (h.names_kept d there), λ d x y e. settled d x y (h.settled_kept d x y e))

  execute-Stays :
      (delays : List ℕ) (c : Request)
      → Keeps Stays (execute host delays c.action c.target c.dry_run c.key)
  execute-Stays delays c = execute-Keeps q delays c.action c.target c.dry_run c.key λ k _ t before.
      claim-Keeps m.meter pre Stable-Stays delays c.action c.target k before t _
        λ w r s h. kept_by_claim w s k (first-Stays delays c.action c.target k r before) h

  -- For one key with a journal, nothing goes out.
  abbrev Frozen : String → World E → World E → Type 0
  Frozen digest w v =
      has_journal digest w.store ≡ true
      → (m.meter.count v.outside ≡ m.meter.count w.outside) × (has_journal digest v.store ≡ true)

  Frozen-preorder : (digest : String) → IsPreorder (Frozen digest)
  Frozen-preorder digest = record {
    reflexive = λ w h. (refl, h);
    transitive = λ u v w h k there.
        let (same, still) = h there in let (again, yet) = k still in (again ∙ same, yet);
  }

  Stable-Frozen : (digest : String) (w v : World E) → Stable m.meter w v → Frozen digest w v
  Stable-Frozen digest w v h there = (h.silent, h.journals.same_names digest ∙ there)

  execute-Frozen :
      (key digest : String) (ds : List ℕ) (action : PublicationAction) (t : PageTarget)
      (dry_run : Bool)
      → idempotency_digest host.platform key ≡ ok digest
      → Keeps (Frozen digest) (execute host ds action t dry_run (some key))
  execute-Frozen key digest ds action t dry_run hashed =
      execute-Keeps (quiet_of m.meter (Frozen-preorder digest) (Stable-Frozen digest)) ds action t
        dry_run (some key)
        λ k same now before.
          claim-Keeps m.meter (Frozen-preorder digest) (Stable-Frozen digest) ds action t k before
            now _
            λ w r s h there.
              let key_is : key ≡ k = cc same in
              let digest_is : digest ≡ h.digest = cc (key_is, hashed, h.digest_of_key) in
              let absent = h.none_before in
              let present = ap (λ d. has_journal d w.store) (sym digest_is) ∙ there in
              ground (arith, absent, present)

  module _ (delays : List ℕ) (cs : List Request) (w : World E) where
    -- A publication journal that has its terminal event stands unchanged after any session of the
    -- controller, and no journal disappears.
    pub executed-Settled :
        ((d : String)
          → has_journal d w.store ≡ true
          → has_journal d (executed host delays cs w).store ≡ true)
        × ((d : String) (x y : PublicationJournalRecord)
            → lookup d w.store.publications ≡ some (x ∷ y ∷ [])
            → lookup d (executed host delays cs w).store.publications ≡ some (x ∷ y ∷ []))
    executed-Settled = executed-Keeps host delays pre (execute-Stays delays) cs w

    -- By any count of requests that sessions, reads, waits and the clock leave alone: once there is
    -- a journal under the digest of a key, no `execute` with that key sends a request at any time
    -- later, whatever its action, its page, its delays and the answers, and whatever calls come
    -- between.
    pub later_execute-frozen :
        (key digest : String) (ds : List ℕ) (action : PublicationAction) (t : PageTarget)
        (dry_run : Bool)
        → idempotency_digest host.platform key ≡ ok digest
        → has_journal digest w.store ≡ true
        → m.meter.count
            (final
              (execute host ds action t dry_run (some key) (executed host delays cs w))).outside
          ≡ m.meter.count (executed host delays cs w).outside
    later_execute-frozen key digest ds action t dry_run hashed there =
        ((execute-Frozen key digest ds action t dry_run hashed).at (executed host delays cs w)
          (executed-Settled.0 digest there)).0
