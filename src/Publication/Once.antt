-- ===== src/Publication/Once.antt =====
-- At most one request for each key (src/core/publication.ts).
use tilda_mcp.Prelude.{ℕ, suc, ◌+◌, ◌≤◌, String, ◌≡◌, List, Bool, arith, length}
use tilda_mcp.Effect.State.{Exec, Outcome, returned, threw, final, ◌>>=◌}
use tilda_mcp.Effect.Keeps.{
  Keeps, Keeps-pure, Keeps-bind-both, Keeps-catch-both, Keeps-if, Keeps-weaken,
}
use tilda_mcp.Contracts.Targets.{PageTarget}
use tilda_mcp.Contracts.Records.{PublicationJournalRecord, PublicationAction, publish, unpublish}
use tilda_mcp.Engine.World.{World, with_outside, on_outside}
use tilda_mcp.Publication.Data.{PublicationData, PublicationHost}
use tilda_mcp.Publication.Reread.{read_after_dispatch}
use tilda_mcp.Publication.Execute.{send, dispatch, publish_first}
use tilda_mcp.Publication.Walk.{noop-Keeps, settle_publication-Keeps, read_after_dispatch-Keeps}
use tilda_mcp.Publication.Session.{Request, executed}
use tilda_mcp.Publication.Stable.{Meter, waiting_of}
use tilda_mcp.Publication.Paid.{Paid, Paid-preorder, Paid-quiet, Stable-Paid, executed-Paid}

-- A count of the requests to publish or unpublish that went out.
pub record DispatchMeter {E : Type 0} (host : PublicationHost E) : Type 0 where
  pub meter : Meter host
  pub delay_free : (ms : ℕ) (e : E) → meter.count (final (host.delay ms e)) ≡ meter.count e
  pub publish_once :
      (t : PageTarget) (e : E) → meter.count (final (host.publish_page t e)) ≤ suc (meter.count e)
  pub unpublish_once :
      (t : PageTarget) (e : E) → meter.count (final (host.unpublish_page t e)) ≤ suc (meter.count e)

module _ {E : Type 0} {host : PublicationHost E} (m : Meter host) (price : ℕ) where
  -- A call that counts at most `k`.
  outside_step :
      {A : Type 0} (k : ℕ) (w : World E) (o : Outcome E A)
      → m.count (final o) ≤ m.count w.outside + k
      → Paid m price k w (final (with_outside w o))
  outside_step k w (returned a e) h = omega arith
  outside_step k w (threw f e) h = omega arith

  pub call_bounded :
      {A : Type 0} (k : ℕ) (f : Exec E A)
      → ((e : E) → m.count (final (f e)) ≤ m.count e + k)
      → Keeps (Paid m price k) (on_outside f)
  unfolding on_outside
  call_bounded k f h = record { at = λ w. outside_step k w (f w.outside) (h w.outside) }

  then_free :
      (k : ℕ) (u v w : World E) → Paid m price k u v → Paid m price 0 v w → Paid m price k u w
  then_free k u v w h l = omega arith

  pub in_turn :
      {A B : Type 0} {f : Exec (World E) A} {g : A → Exec (World E) B} (j k n : ℕ)
      → j + k ≤ n
      → Keeps (Paid m price j) f
      → ((a : A) → Keeps (Paid m price k) (g a))
      → Keeps (Paid m price n) (f >>= g)
  in_turn j k n bounded h l =
      Keeps-bind-both {R = Paid m price j} {S = Paid m price k} {Q = Paid m price n}
        (λ u v p. omega arith) (λ u v w p r. omega arith) h l

  dispatch_bounded :
      (k : ℕ) (action : PublicationAction) (t : PageTarget)
      → Keeps (Paid m price k) (send host action t)
      → Keeps (Paid m price k) (dispatch host action t)
  unfolding dispatch
  dispatch_bounded k action t h =
      Keeps-catch-both (λ u v l. l) (then_free k)
        (Keeps-bind-both (λ u v l. l) (then_free k) h
          λ receipt. Keeps-pure (Paid-preorder m price) _)
        (λ e. Keeps-pure (Paid-preorder m price) _)

  -- A first attempt is one dispatch and the rereads after it.
  pub first_bounded :
      (j k : ℕ) (ds : List ℕ)
      → ((action : PublicationAction) (t : PageTarget)
          → Keeps (Paid m price j) (send host action t))
      → ((action : PublicationAction) (t : PageTarget) (b : Bool) (h : String)
          → Keeps (Paid m price k) (read_after_dispatch host t action b h ds))
      → (action : PublicationAction) (t : PageTarget) (key : String) (r : PublicationJournalRecord)
        (before : PublicationData)
      → Keeps (Paid m price (j + k)) (publish_first host ds action t key r before)
  unfolding publish_first
  first_bounded j k ds sending rereading action t key r before =
      Keeps-if _ (Keeps-weaken (λ u v h. omega arith) (noop-Keeps (Paid-quiet m price) key r _)) (
        in_turn j k (j + k) (omega arith) (dispatch_bounded j action t (sending action t)) λ d.
          Keeps-bind-both (λ u v h. h) (then_free k) (rereading action t _ _)
            λ seen.
              settle_publication-Keeps (Paid-quiet m price) key r action t before d seen.state
                seen.value)

module _ {E : Type 0} {host : PublicationHost E} (m : DispatchMeter host) where
  send_once :
      (action : PublicationAction) (t : PageTarget) → Keeps (Paid m.meter 1 1) (send host action t)
  unfolding send
  send_once publish t =
      call_bounded m.meter 1 1 (host.publish_page t) λ e. omega (arith, m.publish_once t e)
  send_once unpublish t =
      call_bounded m.meter 1 1 (host.unpublish_page t) λ e. omega (arith, m.unpublish_once t e)

  -- By any count of requests to publish or unpublish that sessions, reads, waits and the clock
  -- leave alone: whatever calls of `execute` a session makes, in any order, with any arguments
  -- and any answers, the requests that go out are at most as many as the journals it adds.
  pub executed-paid :
      (ds : List ℕ) (cs : List Request) (w : World E)
      → m.meter.count (executed host ds cs w).outside + length w.store.publications
        ≤ m.meter.count w.outside + length (executed host ds cs w).store.publications
  executed-paid ds cs w = omega (
    arith,
    executed-Paid m.meter 1 ds
        (first_bounded m.meter 1 1 0 ds send_once λ action t b h.
          read_after_dispatch-Keeps (Paid-quiet m.meter 1) t action b h
            (waiting_of m.meter (Paid-preorder m.meter 1) (Stable-Paid m.meter 1) m.delay_free) ds)
        cs w,
  )
