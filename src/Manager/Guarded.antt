-- ===== src/Manager/Guarded.antt =====
-- The methods of a guard that the manager has made, with the callbacks that it was given: the
-- manager's clock, and the test that its token is still the manager's (src/core/task-authority.ts,
-- src/core/task-authority-manager.ts).
use tilda_mcp.Prelude.{ℕ, none, some, Bool, true, false, not, ◌||◌, eqb}
use tilda_mcp.Effect.Codes.{
  task_authority_revoked, task_authority_mutation_in_progress, task_authority_execution_in_progress,
}
use tilda_mcp.Effect.Check.{Result, err}
use tilda_mcp.Effect.State.{Exec, pure, throw_if, attempt, try_catch, if◌then◌else◌, ◌>>=◌, ◌>>◌}
use tilda_mcp.Contracts.Targets.{ExactTarget}
use tilda_mcp.Contracts.Requests.{ChangeOperation}
use tilda_mcp.Authority.Guard.{Guard, Moment, TaskAuthorityReceipt, assert_active}
use tilda_mcp.Authority.Guard as TheGuard
use tilda_mcp.Manager.State.{
  Manager, ManagedGuard, Process, AuthorityHost, is_object, is_held, looks, update, fresh_object,
  now_ms,
}

module _ {E : Type 0} (host : AuthorityHost E) where
  -- What the callbacks say. A revoked guard does not read the clock: its methods end before they ask
  -- for the time, and the 0 stands for no time.
  unfoldable pub moment : ManagedGuard → Exec (Process E) Moment
  moment g = do
    revoked ← looks (λ m. not (eqb m.revocation_token g.token))
    if revoked
        then pure (record { is_revoked = true; now = 0 })
        else (do t ← now_ms host; pure (record { is_revoked = false; now = t }))

  -- `receipt`, and the checks of a guard, each at the moment of its call.
  unfoldable pub checked :
      {A : Type 0} → (Guard → Moment → Result A) → ManagedGuard → Exec (Process E) A
  checked check g = do m ← moment g; attempt (check g.guard m)

  unfoldable pub receipt_of : ManagedGuard → Exec (Process E) TaskAuthorityReceipt
  receipt_of = checked TheGuard.receipt

  unfoldable pub guard_active : ManagedGuard → Exec (Process E) (Unit {0})
  guard_active = checked assert_active

  unfoldable pub guard_change :
      ChangeOperation → ExactTarget → ManagedGuard → Exec (Process E) (Unit {0})
  guard_change op t = checked (λ g m. TheGuard.assert_change g m op t)

  -- `release` of a dispatch lease. A lease is held at most once, so the flag `released` is the test
  -- that another lease is held, or none.
  unfoldable pub release_dispatch : ℕ → Exec (Process E) (Unit {0})
  release_dispatch lease = do
    mine ← looks (λ m. is_object m.mutation_dispatch_lease lease)
    if mine then update (λ m. record m { mutation_dispatch_lease = none }) else pure tt

  unfoldable pub release_execution : ℕ → Exec (Process E) (Unit {0})
  release_execution lease = do
    mine ← looks (λ m. is_object m.task_execution_lease lease)
    if mine then update (λ m. record m { task_execution_lease = none }) else pure tt

  abbrev pub is_stale_token : ManagedGuard → Manager → Bool
  is_stale_token g m = not (is_held m.active) || not (eqb m.revocation_token g.token)

  unfoldable pub assert_no_mutation_dispatch : Exec (Process E) (Unit {0})
  assert_no_mutation_dispatch = do
    busy ← looks (λ m. is_held m.mutation_dispatch_lease)
    throw_if busy task_authority_mutation_in_progress

  -- `#beginMutationDispatch`.
  unfoldable pub take_dispatch : ManagedGuard → Exec (Process E) ℕ
  take_dispatch g = do
    stale ← looks (is_stale_token g)
    throw_if stale task_authority_revoked
    assert_no_mutation_dispatch
    lease ← fresh_object
    update (λ m. record m { mutation_dispatch_lease = some lease })
    pure lease

  -- `#beginTaskExecution`.
  unfoldable pub take_execution : ManagedGuard → Exec (Process E) ℕ
  take_execution g = do
    stale ← looks (is_stale_token g)
    throw_if stale task_authority_revoked
    busy ← looks (λ m. is_held m.task_execution_lease)
    throw_if busy task_authority_execution_in_progress
    lease ← fresh_object
    update (λ m. record m { task_execution_lease = some lease })
    pure lease

  -- `beginMutationDispatch` and `beginTaskExecution` of the guard: a lease that was taken in a
  -- transition is given back.
  unfoldable pub begin_mutation_dispatch : ManagedGuard → Exec (Process E) ℕ
  begin_mutation_dispatch g = do
    guard_active g
    lease ← take_dispatch g
    try_catch (do guard_active g; pure lease) (λ e. do release_dispatch lease; attempt (err e))

  unfoldable pub begin_task_execution : ManagedGuard → Exec (Process E) ℕ
  begin_task_execution g = do
    guard_active g
    lease ← take_execution g
    try_catch (do guard_active g; pure lease) (λ e. do release_execution lease; attempt (err e))
