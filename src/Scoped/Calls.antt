-- ===== src/Scoped/Calls.antt =====
-- What the two controllers of a task share: calls of the guard, and work under an execution lease
-- (src/core/task-authority.ts). The manager of the guard is outside the engine's world, as the
-- editor is, so whatever a call to the editor awaits may change it.
use tilda_mcp.Prelude.{ℕ, ◌==◌, Option, Bool, true, false, ◌&&◌, eqb}
use tilda_mcp.Effect.Codes.{task_authority_changed}
use tilda_mcp.Effect.Check.{Result, err}
use tilda_mcp.Effect.State.{returned, threw, Exec, pure, guard, attempt, ◌>>=◌, ◌>>◌}
use tilda_mcp.Contracts.Targets.{ExactTarget, PageTarget}
use tilda_mcp.Contracts.Requests.{ChangeOperation}
use tilda_mcp.Contracts.Records.{PublicationAction, ChangeSetTaskAuthority}
use tilda_mcp.Authority.Grant.{TaskAuthorityMode, observe, copy_test, production}
use tilda_mcp.Authority.Guard.{Guard, Moment, TaskAuthorityReceipt}
use tilda_mcp.Authority.Guard as TheGuard
use tilda_mcp.Manager.State.{ManagedGuard, Process, AuthorityHost}
use tilda_mcp.Manager.Guarded.{checked, receipt_of, begin_task_execution, release_execution}
use tilda_mcp.Engine.World.{World, on_outside}

abbrev same_mode : TaskAuthorityMode → TaskAuthorityMode → Bool
same_mode observe observe = true
same_mode production production = true
same_mode copy_test copy_test = true
same_mode _ _ = false

-- `isDeepStrictEqual` of two receipts.
unfoldable pub same_receipt : TaskAuthorityReceipt → TaskAuthorityReceipt → Bool
same_receipt a b =
    a.format == b.format
    && a.task_id == b.task_id
    && same_mode a.mode b.mode
    && a.grant_hash == b.grant_hash
    && a.instruction_hash == b.instruction_hash
    && a.account_fingerprint == b.account_fingerprint
    && a.inventory_hash == b.inventory_hash
    && eqb a.expires_at b.expires_at

-- `try { m } finally { k }`.
unfoldable pub try_finally : {W A : Type 0} → Exec W A → Exec W (Unit {0}) → Exec W A
unfolding ◌>>=◌ pure attempt
try_finally m k w = elim (m w) [
  | returned a w' ↦ (k >>= λ _. pure a) w'
  | threw e w' ↦ (k >>= λ _. attempt (err e)) w'
]

module _ {E : Type 0} (authority : AuthorityHost E) (g : ManagedGuard) where
  -- A check of the guard.
  unfoldable pub asserts :
      (Guard → Moment → Result (Unit {0})) → Exec (World (Process E)) (Unit {0})
  asserts check = on_outside (checked authority check g)

  unfoldable pub assert_read : ExactTarget → Exec (World (Process E)) (Unit {0})
  assert_read t = asserts (λ h m. TheGuard.assert_read h m t)

  unfoldable pub assert_change : ChangeOperation → ExactTarget → Exec (World (Process E)) (Unit {0})
  assert_change op t = asserts (λ h m. TheGuard.assert_change h m op t)

  unfoldable pub assert_rollback :
      ChangeOperation → ExactTarget → Exec (World (Process E)) (Unit {0})
  assert_rollback op t = asserts (λ h m. TheGuard.assert_rollback h m op t)

  unfoldable pub assert_publication :
      PublicationAction → PageTarget → Exec (World (Process E)) (Unit {0})
  assert_publication a t = asserts (λ h m. TheGuard.assert_publication h m a t)

  unfoldable pub assert_change_set_authority :
      Option ChangeSetTaskAuthority → Exec (World (Process E)) (Unit {0})
  assert_change_set_authority a = asserts (λ h m. TheGuard.assert_change_set_authority h m a)

  unfoldable pub receipt : Exec (World (Process E)) TaskAuthorityReceipt
  receipt = on_outside (receipt_of authority g)

  -- `assertSameTaskReceipt`.
  unfoldable pub assert_same_task_receipt :
      TaskAuthorityReceipt → Exec (World (Process E)) (Unit {0})
  assert_same_task_receipt expected = do
    current ← receipt
    guard (same_receipt current expected) task_authority_changed

  -- The body of the `try`: the work between two looks at the receipt, with a check of its result.
  unfoldable pub same_authority :
      {A : Type 0}
      → TaskAuthorityReceipt
      → Exec (World (Process E)) A
      → (A → Exec (World (Process E)) (Unit {0}))
      → Exec (World (Process E)) A
  same_authority expected work check = do
    assert_same_task_receipt expected
    result ← work
    check result
    assert_same_task_receipt expected
    pure result

  unfoldable pub begin_execution : Exec (World (Process E)) ℕ
  begin_execution = on_outside (begin_task_execution authority g)

  unfoldable pub release : ℕ → Exec (World (Process E)) (Unit {0})
  release lease = on_outside (release_execution authority lease)

  -- The work under an execution lease, which ends with the work.
  unfoldable pub under_execution :
      {A : Type 0}
      → Exec (World (Process E)) A
      → (A → Exec (World (Process E)) (Unit {0}))
      → Exec (World (Process E)) A
  under_execution work check = do
    expected ← receipt
    lease ← begin_execution
    try_finally (same_authority expected work check) (release lease)
