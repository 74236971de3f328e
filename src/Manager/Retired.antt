-- ===== src/Manager/Retired.antt =====
-- A guard whose authority has ended is refused for good (src/core/task-authority-manager.ts,
-- src/core/task-authority.ts).
use mathlib.Core.Path.{subst}
use tilda_mcp.Prelude.{
  ℕ, ◌<◌, ◌≡◌, ◌≢◌, refl, sym, ap, Option, none, some, Bool, true, false, not, eqb, List, arith,
}
use tilda_mcp.Effect.Codes.{tilda, task_authority_revoked}
use tilda_mcp.Effect.Check.{Result, err}
use tilda_mcp.Effect.State.{Outcome, returned, threw, Exec, pure, attempt, if◌then◌else◌, ◌>>=◌}
use tilda_mcp.Effect.Cases.{throws-then}
use tilda_mcp.Effect.Triple.{on_end}
use tilda_mcp.Contracts.Targets.{ExactTarget, PageTarget}
use tilda_mcp.Contracts.Requests.{ChangeRequest, ChangeOperation}
use tilda_mcp.Contracts.Records.{PublicationAction, ChangeSetTaskAuthority}
use tilda_mcp.Authority.Guard.{Guard, Moment, TaskAuthorityReceipt}
use tilda_mcp.Authority.Guard as TheGuard
use tilda_mcp.Manager.State.{
  MintTaskAuthorityInput, VerifiedReferenceInventoryTransition, ActiveAuthority, ManagedGuard,
  Process, AuthorityHost, looks, now_ms,
}
use tilda_mcp.Manager.Guarded.{
  moment, checked, begin_mutation_dispatch, begin_task_execution, guard_active, receipt_of,
}
use tilda_mcp.Manager.Leases.{current, clear}
use tilda_mcp.Manager.Lifetime.{replace}
use tilda_mcp.Manager.Lineage.{accept_transition}
use tilda_mcp.Manager.Session.{Call, after}
use tilda_mcp.Manager.Revoked.{after-R}
use tilda_mcp.Manager.Ended.{
  Old, Revoked, IfGone, clear-Revoked, replace-Revoked, accept-Revoked, current-IfGone,
}

-- The ends of an authority: what is returned from a call that takes it away.
pub data Retires {E : Type 0} (host : AuthorityHost E) (w v : Process E) : Type 0 where
  cleared : {b : Bool} → clear host w ≡ returned b v → Retires host w v
  replaced :
      {r : TaskAuthorityReceipt} (input : MintTaskAuthorityInput)
      → replace host input w ≡ returned r v
      → Retires host w v
  rebound :
      {r : TaskAuthorityReceipt} (x : VerifiedReferenceInventoryTransition)
      → accept_transition host x w ≡ returned r v
      → Retires host w v
  expired :
      (a : ActiveAuthority)
      → w.manager.active ≡ some a
      → current host w ≡ returned none v
      → Retires host w v

-- The methods of a guard.
pub data GuardCall : Type 0 where
  receipt begin_dispatch begin_execution : GuardCall
  read copy_test_write : ExactTarget → GuardCall
  change rollback : ChangeOperation → ExactTarget → GuardCall
  request : ChangeRequest → GuardCall
  publication : PublicationAction → PageTarget → GuardCall
  change_set_authority : Option ChangeSetTaskAuthority → GuardCall

abbrev pub Answer : GuardCall → Type 0
Answer receipt = TaskAuthorityReceipt
Answer begin_dispatch = ℕ
Answer begin_execution = ℕ
Answer _ = Unit {0}

module _ {E : Type 0} (host : AuthorityHost E) where
  unfoldable pub ask : (c : GuardCall) → ManagedGuard → Exec (Process E) (Answer c)
  ask receipt g = receipt_of host g
  ask begin_dispatch g = begin_mutation_dispatch host g
  ask begin_execution g = begin_task_execution host g
  ask (read t) g = checked host (λ h m. TheGuard.assert_read h m t) g
  ask (copy_test_write t) g = checked host (λ h m. TheGuard.assert_copy_test_write h m t) g
  ask (change op t) g = checked host (λ h m. TheGuard.assert_change h m op t) g
  ask (rollback op t) g = checked host (λ h m. TheGuard.assert_rollback h m op t) g
  ask (request q) g = checked host (λ h m. TheGuard.assert_request h m q) g
  ask (publication a t) g = checked host (λ h m. TheGuard.assert_publication h m a t) g
  ask (change_set_authority a) g =
      checked host (λ h m. TheGuard.assert_change_set_authority h m a) g

  retired : (t : ℕ) (w v : Process E) → Retires host w v → Old t w → Revoked t v
  retired t w v (cleared h) old =
      on_end (λ _. Revoked t) (clear host w) h ((clear-Revoked t host).at w old)
  retired t w v (replaced input h) old =
      on_end (λ _. Revoked t) (replace host input w) h ((replace-Revoked t host input).at w old)
  retired t w v (rebound x h) old =
      on_end (λ _. Revoked t) (accept_transition host x w) h ((accept-Revoked t host x).at w old)
  retired t w v (expired a e h) old =
      (on_end (IfGone t host) (current host w) h (current-IfGone t host a w old e)).1 refl

  abbrev revoked_moment : Moment
  revoked_moment = record { is_revoked = true; now = 0 }

  moment-revoked :
      (g : ManagedGuard) (w : Process E)
      → w.manager.revocation_token ≢ g.token
      → moment host g w ≡ returned revoked_moment w
  unfolding moment looks pure ◌>>=◌ if◌then◌else◌
  moment-revoked g w n =
      let apart : eqb w.manager.revocation_token g.token ≡ false = ground arith in
      ap (λ b. (if not b then pure revoked_moment else later) w) apart
    where
      later : Exec (Process E) Moment
      later = do t ← now_ms host; pure (record { is_revoked = false; now = t })

  refused_step :
      {A : Type 0} (r : Moment → Result A) (w : Process E) (o : Outcome (Process E) Moment)
      → o ≡ returned revoked_moment w
      → r revoked_moment ≡ err (tilda task_authority_revoked)
      → elim o [ returned m v ↦ attempt (r m) v | threw f v ↦ threw f v ]
        ≡ threw (tilda task_authority_revoked) w
  unfolding attempt
  refused_step r w (returned m v) h e =
      let same : m ≡ revoked_moment = cc in
      let here : v ≡ w = cc in
      subst (λ m. attempt (r m) v ≡ threw (tilda task_authority_revoked) w) (sym same)
        (subst (λ x. attempt x v ≡ threw (tilda task_authority_revoked) w) (sym e)
          (ap (λ v. threw (tilda task_authority_revoked) v) here))
  refused_step r w (threw f v) h e = cc

  refused :
      {A : Type 0} (check : Guard → Moment → Result A) (g : ManagedGuard) (w : Process E)
      → w.manager.revocation_token ≢ g.token
      → check g.guard revoked_moment ≡ err (tilda task_authority_revoked)
      → checked host check g w ≡ threw (tilda task_authority_revoked) w
  unfolding checked ◌>>=◌
  refused check g w n e = refused_step (check g.guard) w (moment host g w) (moment-revoked g w n) e

  refused_active :
      (g : ManagedGuard) (w : Process E)
      → w.manager.revocation_token ≢ g.token
      → guard_active host g w ≡ threw (tilda task_authority_revoked) w
  unfolding guard_active TheGuard.assert_active
  refused_active g w n = refused _ g w n refl

  asked :
      (c : GuardCall) (g : ManagedGuard) (w : Process E)
      → w.manager.revocation_token ≢ g.token
      → ask c g w ≡ threw (tilda task_authority_revoked) w
  unfolding ask receipt_of begin_mutation_dispatch begin_task_execution TheGuard.assert_active
      TheGuard.receipt TheGuard.assert_read TheGuard.assert_copy_test_write TheGuard.assert_change
      TheGuard.assert_rollback TheGuard.assert_request TheGuard.assert_publication
      TheGuard.assert_change_set_authority
  asked receipt g w n = refused _ g w n refl
  asked begin_dispatch g w n = throws-then _ w _ (guard_active host g) (refused_active g w n)
  asked begin_execution g w n = throws-then _ w _ (guard_active host g) (refused_active g w n)
  asked (read t) g w n = refused _ g w n refl
  asked (copy_test_write t) g w n = refused _ g w n refl
  asked (change op t) g w n = refused _ g w n refl
  asked (rollback op t) g w n = refused _ g w n refl
  asked (request q) g w n = refused _ g w n refl
  asked (publication a t) g w n = refused _ g w n refl
  asked (change_set_authority a) g w n = refused _ g w n refl

  -- After a `clear`, a `replace` or a verified transition that returns, or once the current
  -- authority is gone because its time was over, every method of a guard whose token was given out
  -- before throws TASK_AUTHORITY_REVOKED and changes nothing, at any time later, whatever calls
  -- come between.
  pub retired_for_good :
      (g : ManagedGuard) (w v : Process E) (cs : List Call) (c : GuardCall)
      → g.token < w.manager.next_object
      → Retires host w v
      → ask c g (after host cs v) ≡ threw (tilda task_authority_revoked) (after host cs v)
  retired_for_good g w v cs c old ends =
      asked c g (after host cs v) (after-R g.token host cs v (retired g.token w v ends old)).1
