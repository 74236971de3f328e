-- ===== src/Scoped/Publication.antt =====
-- `TaskScopedPublicationController` (src/core/task-authority.ts).
use tilda_mcp.Prelude.{ℕ, String, Option, Bool, true, false, List}
use tilda_mcp.Effect.State.{Exec, ◌>>◌}
use tilda_mcp.Contracts.Targets.{PageTarget, of_page}
use tilda_mcp.Contracts.Records.{PublicationAction}
use tilda_mcp.Manager.State.{ManagedGuard, Process, AuthorityHost}
use tilda_mcp.Engine.World.{World}
use tilda_mcp.Publication.Data.{PublicationHost, PublicationActionResult}
use tilda_mcp.Publication.Execute as TheExecute
use tilda_mcp.Scoped.Calls.{assert_read, assert_publication, under_execution}

module _ {E : Type 0} (host : PublicationHost (Process E)) (authority : AuthorityHost E)
    (g : ManagedGuard) where
  -- The delays are those of the controller that is scoped.
  unfoldable pub execute :
      List ℕ
      → PublicationAction
      → PageTarget
      → Bool
      → Option String
      → Exec (World (Process E)) PublicationActionResult
  execute delays action target true key = do
    assert_read authority g (of_page target)
    TheExecute.execute host delays action target true key
  execute delays action target false key = do
    assert_publication authority g action target
    under_execution authority g (TheExecute.execute host delays action target false key)
        (λ _. assert_publication authority g action target)
