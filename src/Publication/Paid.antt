-- ===== src/Publication/Paid.antt =====
-- What happens outside is paid for by new journals (src/core/publication.ts).
use tilda_mcp.Prelude.{ℕ, ◌+◌, ◌*◌, ◌≤◌, String, ap, List, arith, length}
use tilda_mcp.Effect.State.{Exec, final}
use tilda_mcp.Effect.Keeps.{IsPreorder, Keeps}
use tilda_mcp.Contracts.Targets.{PageTarget}
use tilda_mcp.Contracts.Records.{PublicationJournalRecord, PublicationAction}
use tilda_mcp.Store.{Store}
use tilda_mcp.Store.PublicationClaims.{OneMore}
use tilda_mcp.Engine.World.{World}
use tilda_mcp.Publication.Data.{PublicationData, PublicationHost}
use tilda_mcp.Publication.Execute.{publish_first, execute}
use tilda_mcp.Publication.Walk.{Quiet, execute-Keeps}
use tilda_mcp.Publication.Session.{Request, executed, executed-Keeps}
use tilda_mcp.Publication.Stable.{Meter, Stable, quiet_of, claim-Keeps}

module _ {E : Type 0} {host : PublicationHost E} (m : Meter host) (price : ℕ) where
  -- A journal pays the price; what was counted is paid for, up to `k`.
  abbrev pub Paid : ℕ → World E → World E → Type 0
  Paid k w v =
      m.count v.outside + price * length w.store.publications
      ≤ m.count w.outside + price * length v.store.publications + k

  pub Paid-preorder : IsPreorder (Paid 0)
  Paid-preorder = record { reflexive = λ w. omega arith; transitive = λ u v w h k. omega arith }

  pub Stable-Paid : (w v : World E) → Stable m w v → Paid 0 w v
  Stable-Paid w v h = omega (arith, h.silent, ap (λ n. price * n) h.journals.same_length)

  pub Paid-quiet : Quiet host (Paid 0)
  Paid-quiet = quiet_of m Paid-preorder Stable-Paid

  first_price :
      {A : Type 0} {f : Exec (World E) A} (w : World E) (s : Store) (k : String)
      → Keeps (Paid price) f
      → OneMore host.platform k w.store s
      → Paid 0 w (final (f (record w { store = s })))
  first_price w s k p h = omega (arith, ap (λ n. price * n) h.longer, p.at (record w { store = s }))

  -- What a first attempt may spend, a session spends for each journal that it adds.
  pub executed-Paid :
      (ds : List ℕ)
      → ((action : PublicationAction) (t : PageTarget) (key : String) (r : PublicationJournalRecord)
            (before : PublicationData)
          → Keeps (Paid price) (publish_first host ds action t key r before))
      → (cs : List Request) (w : World E) → Paid 0 w (executed host ds cs w)
  executed-Paid ds first = executed-Keeps host ds Paid-preorder call
    where
      call : (c : Request) → Keeps (Paid 0) (execute host ds c.action c.target c.dry_run c.key)
      call c = execute-Keeps Paid-quiet ds c.action c.target c.dry_run c.key λ k _ t before.
          claim-Keeps m Paid-preorder Stable-Paid ds c.action c.target k before t _
            λ w r s h. first_price w s k (first c.action c.target k r before) h
