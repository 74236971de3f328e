-- ===== src/Engine/Session.antt =====
-- A session: calls of the engine's methods, in any order and with any arguments.
use tilda_mcp.Prelude.{String, Option, Bool, List, [], ◌∷◌}
use tilda_mcp.Effect.State.{final}
use tilda_mcp.Effect.Keeps.{IsPreorder, Keeps}
use tilda_mcp.Contracts.Requests.{ChangeRequest}
use tilda_mcp.Contracts.Adapters.{Host}
use tilda_mcp.Contracts.Records.{ChangeSetTaskAuthority}
use tilda_mcp.Engine.World.{World}
use tilda_mcp.Engine.Plan
use tilda_mcp.Engine.Apply
use tilda_mcp.Engine.Verify
use tilda_mcp.Engine.Rollback

pub data Call : Type 0 where
  plan : ChangeRequest → Option String → Option ChangeSetTaskAuthority → Call
  apply : String → Bool → Option String → Call
  verify : String → Call
  rollback : String → Bool → Option String → Call

module _ {E : Type 0} (host : Host E) where
  -- The state after a call, whether it returned or threw.
  unfoldable pub after_call : Call → World E → World E
  after_call (plan request key authority) w = final (Plan.plan host request key authority w)
  after_call (apply id dry_run key) w = final (Apply.apply host id dry_run key w)
  after_call (verify id) w = final (Verify.verify host id w)
  after_call (rollback id dry_run key) w = final (Rollback.rollback host id dry_run key w)

  unfoldable pub after : List Call → World E → World E
  after [] w = w
  after (c ∷ cs) w = after cs (after_call c w)

  -- What every method keeps, a session keeps.
  pub after-Keeps :
      {R : World E → World E → Type 0}
      → IsPreorder R
      → ((request : ChangeRequest) (key : Option String) (authority : Option ChangeSetTaskAuthority)
          → Keeps R (Plan.plan host request key authority))
      → ((id : String) (dry_run : Bool) (key : Option String)
          → Keeps R (Apply.apply host id dry_run key))
      → ((id : String) → Keeps R (Verify.verify host id))
      → ((id : String) (dry_run : Bool) (key : Option String)
          → Keeps R (Rollback.rollback host id dry_run key))
      → (cs : List Call) (w : World E) → R w (after cs w)
  unfolding after after_call
  after-Keeps pre p a v r [] w = pre.reflexive w
  after-Keeps pre p a v r (plan q key authority ∷ cs) w =
      pre.transitive w _ _ ((p q key authority).at w) (after-Keeps pre p a v r cs _)
  after-Keeps pre p a v r (apply id dry key ∷ cs) w =
      pre.transitive w _ _ ((a id dry key).at w) (after-Keeps pre p a v r cs _)
  after-Keeps pre p a v r (verify id ∷ cs) w =
      pre.transitive w _ _ ((v id).at w) (after-Keeps pre p a v r cs _)
  after-Keeps pre p a v r (rollback id dry key ∷ cs) w =
      pre.transitive w _ _ ((r id dry key).at w) (after-Keeps pre p a v r cs _)
