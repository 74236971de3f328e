-- ===== src/Scoped/Engine.antt =====
-- `TaskScopedChangeSetEngine` (src/core/task-authority.ts).
use tilda_mcp.Prelude.{String, List, Option, some, Bool, true, false}
use tilda_mcp.Effect.State.{Exec, pure, ◌>>=◌, ◌>>◌}
use tilda_mcp.Contracts.Requests.{ChangeRequest, target}
use tilda_mcp.Contracts.Adapters.{AdapterState, Host}
use tilda_mcp.Contracts.Records.{ChangeSetRecord}
use tilda_mcp.Store.Read.{load_change_set}
use tilda_mcp.Store.Journal.{reads}
use tilda_mcp.Authority.Guard as TheGuard
use tilda_mcp.Manager.State.{ManagedGuard, Process, AuthorityHost}
use tilda_mcp.Engine.World.{World, on_store}
use tilda_mcp.Engine.Registry.{list_capabilities}
use tilda_mcp.Engine.Calls.{EngineActionResult}
use tilda_mcp.Engine.Plan as ThePlan
use tilda_mcp.Engine.Apply as TheApply
use tilda_mcp.Engine.Verify as TheVerify
use tilda_mcp.Engine.Rollback as TheRollback
use tilda_mcp.Scoped.Calls.{
  asserts, assert_read, assert_change, assert_rollback, assert_change_set_authority, receipt,
  under_execution,
}

module _ {E : Type 0} (host : Host (Process E)) (authority : AuthorityHost E)
    (g : ManagedGuard) where
  unfoldable pub capabilities : List (String × List String)
  capabilities = list_capabilities host.adapters

  unfoldable pub query : ChangeRequest → Exec (World (Process E)) AdapterState
  query request = do assert_read authority g (target request); ThePlan.query host request

  unfoldable pub plan : ChangeRequest → Option String → Exec (World (Process E)) EngineActionResult
  plan request key = do
    asserts authority g (λ h m. TheGuard.assert_request h m request)
    r ← receipt authority g
    result ←
        ThePlan.plan host request key
          (some (record { task_id = r.task_id; grant_hash = r.grant_hash }))
    assert_change_set_authority authority g result.change_set.task_authority
    pure result

  -- The ChangeSet of an action, which the task of the guard has planned.
  unfoldable pub own_record : String → Exec (World (Process E)) ChangeSetRecord
  own_record id = do
    r ← on_store (reads (load_change_set id))
    assert_change_set_authority authority g r.task_authority
    pure r

  -- What an action that was carried out still has to show.
  unfoldable pub still_own : EngineActionResult → Exec (World (Process E)) (Unit {0})
  still_own result = assert_change_set_authority authority g result.change_set.task_authority

  unfoldable pub apply_own :
      String → Bool → Option String → ChangeSetRecord → Exec (World (Process E)) EngineActionResult
  apply_own id true key r = do assert_read authority g r.target; TheApply.apply host id true key
  apply_own id false key r = do
    assert_change authority g r.operation r.target
    under_execution authority g (TheApply.apply host id false key) still_own

  unfoldable pub apply : String → Bool → Option String → Exec (World (Process E)) EngineActionResult
  apply id dry_run key = do r ← own_record id; apply_own id dry_run key r

  unfoldable pub verify : String → Exec (World (Process E)) EngineActionResult
  verify id = do r ← own_record id; assert_read authority g r.target; TheVerify.verify host id

  unfoldable pub rollback_own :
      String → Bool → Option String → ChangeSetRecord → Exec (World (Process E)) EngineActionResult
  rollback_own id true key r = do
    assert_read authority g r.target
    TheRollback.rollback host id true key
  rollback_own id false key r = do
    assert_rollback authority g r.operation r.target
    under_execution authority g (TheRollback.rollback host id false key) still_own

  unfoldable pub rollback :
      String → Bool → Option String → Exec (World (Process E)) EngineActionResult
  rollback id dry_run key = do r ← own_record id; rollback_own id dry_run key r
