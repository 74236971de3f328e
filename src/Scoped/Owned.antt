-- ===== src/Scoped/Owned.antt =====
-- What an action of the scoped engine returns (src/core/task-authority.ts).
use tilda_mcp.Prelude.{String, ◌≡◌, Option, none, some, false, arith}
use tilda_mcp.Effect.Check.{ok, err, >>-eq-ok, require-eq-ok}
use tilda_mcp.Effect.State.{Outcome, returned, threw, Exec, pure, attempt, ◌>>=◌}
use tilda_mcp.Effect.Ensures.{
  OnReturn, Ensures, Ensures-pure, Ensures-bind, Ensures-bind-both, Ensures-weaken, on_returned,
}
use tilda_mcp.Contracts.Requests.{ChangeRequest}
use tilda_mcp.Contracts.Adapters.{Host}
use tilda_mcp.Contracts.Records.{ChangeSetTaskAuthority}
use tilda_mcp.Authority.Guard.{Guard, Moment, assert_active, assert_change_set_authority}
use tilda_mcp.Manager.State.{ManagedGuard, Process, AuthorityHost}
use tilda_mcp.Engine.World.{World}
use tilda_mcp.Engine.Calls.{EngineActionResult}
use tilda_mcp.Scoped.Calls
use tilda_mcp.Scoped.Calls.{try_finally, same_authority, under_execution}
use tilda_mcp.Scoped.Engine.{plan, still_own, apply_own, apply, rollback_own, rollback}
use tilda_mcp.Scoped.Untouched.{asserts-Ensures}

-- The ChangeSet names the task and the grant of the guard.
pub data Names (g : Guard) : Option ChangeSetTaskAuthority → Type 0 where
  names :
      (a : ChangeSetTaskAuthority)
      → a.task_id ≡ g.receipt.task_id
      → a.grant_hash ≡ g.receipt.grant_hash
      → Names g (some a)

passed-Names :
    (g : Guard) (m : Moment) (a : Option ChangeSetTaskAuthority)
    → assert_change_set_authority g m a ≡ ok tt
    → Names g a
unfolding assert_change_set_authority
passed-Names g m none h = let (_, b) = >>-eq-ok (assert_active g m) _ h in cc
passed-Names g m (some a) h =
    let (_, b) = >>-eq-ok (assert_active g m) _ h in
    let both = require-eq-ok _ _ b in names a (ground arith) (ground arith)

abbrev Own : Guard → EngineActionResult → Type 0
Own g result = Names g result.change_set.task_authority

module _ {W A : Type 0} (P : A → Type 0) where
  finally_step :
      (k : Exec W (Unit {0})) (o : Outcome W A)
      → OnReturn P o
      → OnReturn P (elim o [
        | returned a v ↦ (k >>= λ _. pure a) v
        | threw e v ↦ (k >>= λ _. attempt {A = A} (err e)) v
      ])
  unfolding attempt
  finally_step k (returned a v) p = (Ensures-bind {P = P} k (λ _. Ensures-pure a p)).at v
  finally_step k (threw e v) p = (Ensures-bind {P = P} k (λ _. record { at = λ w. tt })).at v

  finally-Ensures :
      {m : Exec W A} (k : Exec W (Unit {0})) → Ensures P m → Ensures P (try_finally m k)
  unfolding try_finally
  finally-Ensures {m} k h = record { at = λ w. finally_step k (m w) (h.at w) }

module _ {E : Type 0} (authority : AuthorityHost E) (g : ManagedGuard) where
  own-Ensures :
      (a : Option ChangeSetTaskAuthority)
      → Ensures (λ _. Names g.guard a) (Calls.assert_change_set_authority authority g a)
  unfolding Calls.assert_change_set_authority
  own-Ensures a =
      Ensures-weaken (λ u p. passed-Names g.guard p.0 a p.1) (asserts-Ensures authority g _)

  under_execution-Own :
      (work : Exec (World (Process E)) EngineActionResult)
      (check : EngineActionResult → Exec (World (Process E)) (Unit {0}))
      → ((result : EngineActionResult) → Ensures (λ _. Own g.guard result) (check result))
      → Ensures (Own g.guard) (under_execution authority g work check)
  unfolding under_execution same_authority
  under_execution-Own work check h = Ensures-bind _ λ expected. Ensures-bind _ λ lease.
      finally-Ensures (Own g.guard) _ (
        Ensures-bind _ λ _. Ensures-bind work λ result.
          Ensures-bind-both (h result) λ u own. Ensures-bind _ λ _. Ensures-pure result own)

-- A call of the scoped engine that may write to its journal or to a target.
pub data Change : Type 0 where
  plan_it : ChangeRequest → Option String → Change
  apply_it rollback_it : String → Option String → Change

module _ {E : Type 0} (host : Host (Process E)) (authority : AuthorityHost E)
    (g : ManagedGuard) where
  unfoldable pub run : Change → Exec (World (Process E)) EngineActionResult
  run (plan_it request key) = plan host authority g request key
  run (apply_it id key) = apply host authority g id false key
  run (rollback_it id key) = rollback host authority g id false key

  still_own-Ensures :
      (result : EngineActionResult)
      → Ensures (λ _. Own g.guard result) (still_own host authority g result)
  unfolding still_own
  still_own-Ensures result = own-Ensures authority g _

  run-Own : (x : Change) → Ensures (Own g.guard) (run x)
  unfolding run plan apply apply_own rollback rollback_own
  run-Own (plan_it request key) = Ensures-bind _ λ _. Ensures-bind _ λ r.
      Ensures-bind _
        λ result. Ensures-bind-both (own-Ensures authority g _) λ u own. Ensures-pure result own
  run-Own (apply_it id key) =
      Ensures-bind _ λ r. Ensures-bind _ λ _. under_execution-Own authority g _ _ still_own-Ensures
  run-Own (rollback_it id key) =
      Ensures-bind _ λ r. Ensures-bind _ λ _. under_execution-Own authority g _ _ still_own-Ensures

  -- A plan, and an apply or a rollback with `dryRun` false, that returns gives a ChangeSet that
  -- names the task and the grant of the guard, whatever the adapters did.
  pub result-Names :
      (x : Change) (w v : World (Process E)) (result : EngineActionResult)
      → run x w ≡ returned result v
      → Names g.guard result.change_set.task_authority
  result-Names x w v result h = on_returned (Own g.guard) h ((run-Own x).at w)
