-- ===== src/Publication/Waiting.antt =====
-- The waits between the rereads are bounded (src/core/publication.ts).
use tilda_mcp.Prelude.{ℕ, ◌+◌, ◌*◌, ◌≤◌, String, ◌≡◌, List, [], ◌∷◌, Bool, arith, length}
use tilda_mcp.Effect.Check.{ok}
use tilda_mcp.Effect.State.{final}
use tilda_mcp.Effect.Keeps.{Keeps, Keeps-pure, Keeps-if, Keeps-weaken}
use tilda_mcp.Contracts.Targets.{PageTarget}
use tilda_mcp.Contracts.Records.{PublicationAction, publish, unpublish}
use tilda_mcp.Engine.World.{World}
use tilda_mcp.Publication.Data.{
  PublicationHost, total, assert_reconciliation_delays, max_reconciliation_budget_ms,
}
use tilda_mcp.Publication.Reread.{Reread, reread_after, read_after_dispatch}
use tilda_mcp.Publication.Execute.{send}
use tilda_mcp.Publication.Walk.{reread-Keeps}
use tilda_mcp.Publication.Session.{Request, executed}
use tilda_mcp.Publication.Stable.{Meter}
use tilda_mcp.Publication.Paid.{Paid, Paid-preorder, Paid-quiet, executed-Paid}
use tilda_mcp.Publication.Once.{call_bounded, in_turn, first_bounded}

-- The milliseconds that were waited for.
pub record WaitMeter {E : Type 0} (host : PublicationHost E) : Type 0 where
  pub meter : Meter host
  pub delay_bounded : (ms : ℕ) (e : E) → meter.count (final (host.delay ms e)) ≤ meter.count e + ms
  pub publish_free :
      (t : PageTarget) (e : E) → meter.count (final (host.publish_page t e)) ≡ meter.count e
  pub unpublish_free :
      (t : PageTarget) (e : E) → meter.count (final (host.unpublish_page t e)) ≡ meter.count e

validated :
    (ds es : List ℕ)
    → assert_reconciliation_delays ds ≡ ok es
    → total ds ≤ max_reconciliation_budget_ms
unfolding assert_reconciliation_delays
validated ds es h = ground arith

module _ {E : Type 0} {host : PublicationHost E} (m : WaitMeter host) where
  abbrev P : ℕ → World E → World E → Type 0
  P = Paid m.meter max_reconciliation_budget_ms

  send_free : (action : PublicationAction) (t : PageTarget) → Keeps (P 0) (send host action t)
  unfolding send
  send_free publish t =
      call_bounded m.meter max_reconciliation_budget_ms 0 (host.publish_page t)
        λ e. omega (arith, m.publish_free t e)
  send_free unpublish t =
      call_bounded m.meter max_reconciliation_budget_ms 0 (host.unpublish_page t)
        λ e. omega (arith, m.unpublish_free t e)

  module _ (target : PageTarget) (action : PublicationAction) (b : Bool) (h : String) where
    rereads :
        (ds : List ℕ) (seen : Reread)
        → Keeps (P (total ds)) (reread_after host target action b h ds seen)
    unfolding reread_after
    rereads [] seen = Keeps-pure (Paid-preorder m.meter max_reconciliation_budget_ms) seen
    rereads (d ∷ ds) seen =
        Keeps-if _
          (Keeps-weaken (λ u v k. omega arith)
            (Keeps-pure (Paid-preorder m.meter max_reconciliation_budget_ms) seen))
          (in_turn m.meter max_reconciliation_budget_ms d (total ds) (d + total ds) (omega arith)
            (call_bounded m.meter max_reconciliation_budget_ms d (host.delay d) (m.delay_bounded d))
            λ _.
              in_turn m.meter max_reconciliation_budget_ms 0 (total ds) (total ds) (omega arith)
                (reread-Keeps (Paid-quiet m.meter max_reconciliation_budget_ms) target action b h)
                (rereads ds))

    all_rereads :
        (ds : List ℕ) → Keeps (P (total ds)) (read_after_dispatch host target action b h ds)
    unfolding read_after_dispatch
    all_rereads ds =
        in_turn m.meter max_reconciliation_budget_ms 0 (total ds) (total ds) (omega arith)
          (reread-Keeps (Paid-quiet m.meter max_reconciliation_budget_ms) target action b h)
          (rereads ds)

  -- Where the constructor accepts the delays: whatever calls of `execute` a session makes, and
  -- whatever is read, it waits at most 8000 milliseconds for each journal that it adds, by any
  -- count of the time waited that sessions, reads, dispatches and the clock leave alone.
  pub executed-waits :
      (ds es : List ℕ) (cs : List Request) (w : World E)
      → assert_reconciliation_delays ds ≡ ok es
      → m.meter.count (executed host ds cs w).outside + 8000 * length w.store.publications
        ≤ m.meter.count w.outside + 8000 * length (executed host ds cs w).store.publications
  executed-waits ds es cs w accepted =
      let bounded = validated ds es accepted in
      omega (
        arith,
        executed-Paid m.meter max_reconciliation_budget_ms ds
            (λ action t key r before.
              Keeps-weaken (λ u v k. omega arith)
                (first_bounded m.meter max_reconciliation_budget_ms 0 (total ds) ds send_free
                  (λ a p b h. all_rereads p a b h ds) action t key r before))
            cs w,
      )
