-- ===== src/Publication/Session.antt =====
-- A session of the controller: calls of `execute`, in any order and with any arguments.
use tilda_mcp.Prelude.{ℕ, String, Option, Bool, List, [], ◌∷◌}
use tilda_mcp.Effect.State.{final}
use tilda_mcp.Effect.Keeps.{IsPreorder, Keeps}
use tilda_mcp.Contracts.Targets.{PageTarget}
use tilda_mcp.Contracts.Records.{PublicationAction}
use tilda_mcp.Engine.World.{World}
use tilda_mcp.Publication.Data.{PublicationHost}
use tilda_mcp.Publication.Execute.{execute}

pub record Request : Type 0 where
  pub action : PublicationAction
  pub target : PageTarget
  pub dry_run : Bool
  pub key : Option String

module _ {E : Type 0} (host : PublicationHost E) (delays : List ℕ) where
  unfoldable pub executed : List Request → World E → World E
  executed [] w = w
  executed (c ∷ cs) w =
      executed cs (final (execute host delays c.action c.target c.dry_run c.key w))

  -- What `execute` keeps, a session keeps.
  pub executed-Keeps :
      {R : World E → World E → Type 0}
      → IsPreorder R
      → ((c : Request) → Keeps R (execute host delays c.action c.target c.dry_run c.key))
      → (cs : List Request) (w : World E) → R w (executed cs w)
  unfolding executed
  executed-Keeps pre k [] w = pre.reflexive w
  executed-Keeps pre k (c ∷ cs) w = pre.transitive w _ _ ((k c).at w) (executed-Keeps pre k cs _)
