-- ===== src/Engine/Settled/Apply.antt =====
-- What `apply` has established once it returns (src/core/engine.ts).
use mathlib.Core.Path.{subst}
use mathlib.Core.List.{Memᴰ}
use tilda_mcp.Prelude.{
  arith, String, ◌==◌, ◌≡◌, refl, sym, ap, ◌⊎◌, inl, inr, Option, none, some, Bool, true, false,
}
use tilda_mcp.Effect.Codes.{Code, Failure}
use tilda_mcp.Effect.Check.{Result, ok, require-eq-ok}
use tilda_mcp.Effect.State.{returned, pure, ◌>>=◌}
use tilda_mcp.Effect.Triple.{
  Ends, Triple, Always, Triple-pure, Triple-throw, Triple-bind, Triple-attempt, Triple-if,
  Triple-catch, Triple-after, Triple-given, on_end,
}
use tilda_mcp.Contracts.Adapters.{AdapterState, PlannedMutation, ChangeAdapter, Host}
use tilda_mcp.Contracts.Records.{
  ChangeSetRecord, ChangeSetState, planned, applied, verified, VerificationRecord, Timestamp,
}
use tilda_mcp.Store.Checks.{assert_change_set, proves}
use tilda_mcp.Store.Loaded.{==-sound, load-checks}
use tilda_mcp.Store.Read.{load_change_set}
use tilda_mcp.Store.Claims.{ActionAttempt, unclaimed, replay}
use tilda_mcp.Engine.World
use tilda_mcp.Engine.World.{World, VolatileChangeMaterial}
use tilda_mcp.Engine.Quiet.{by_id-mem}
use tilda_mcp.Engine.Calls.{
  EngineActionResult, settle_with, found_at, verification, append, now, checked_now,
}
use tilda_mcp.Engine.Outcomes.{Dispatched, result}
use tilda_mcp.Engine.Sights.{
  Sight, read_back, write_result, Log, Seen, IfRead, checked_read-Seen, diagnostic_read-Seen,
  write-Seen, append-Seen, now-Seen,
}
use tilda_mcp.Engine.Apply.{
  apply_replay, dispatch_apply, settle_recovery, apply_recover, settle_found, settle_apply,
  apply_attempt, material_matches, apply_planned, return_settled, apply_by_state, apply_locked,
  apply,
}
use tilda_mcp.Engine.Settled.{
  IsApplied, applied_evidence, evidence, proves-verification, fail_and_throw-Triple,
  fail_and_forget-Triple, checked_now-Seen, read-Ends, locked-Ends, load-unlocked, found_at-some,
}

-- What shows the hash of the target of an apply: a read of it, or the result of the write of a plan
-- from the hash that the ChangeSet has as the one before.
abbrev pub Shows : ChangeSetRecord → String → Sight → Type 0
Shows r h x =
    (x ≡ read_back r.target h)
    ⊎ ((p : PlannedMutation) × (p.expected_before_hash ≡ r.expected_before_hash)
        × (x ≡ write_result p h))

module _ {E : Type 0} {host : Host E} (log : Log host) where
  -- The planned hash was shown, and it is the one that is recorded.
  pub record AppliedNow (r : ChangeSetRecord) (w : World E) : Type 0 where
    pub recorded : r.applied_hash ≡ some r.expected_after_hash
    pub sight : Sight
    pub shows : Shows r r.expected_after_hash sight
    pub seen : Seen log sight w

  -- What an apply that is no dry run comes to; `old` is what the journal gave.
  pub record Applies (old : Result ChangeSetRecord) (x : EngineActionResult) (w : World E)
      : Type 0 where
    pub is_applied : IsApplied x.change_set
    pub known : (old ≡ ok x.change_set) ⊎ AppliedNow x.change_set w

  module _ (old : Result ChangeSetRecord) where
    abbrev Q : EngineActionResult → World E → Type 0
    Q = Applies old

    settled_now :
        (r : ChangeSetRecord) (t : Timestamp) (h : String) (c : Option Code)
        (v : VerificationRecord) (changed : Bool) (x : Sight) (w : World E)
        → (h == r.expected_after_hash) ≡ true
        → v ≡ verification v.checked_at r.expected_after_hash h
        → Shows r h x
        → Seen log x w
        → Q (result (settle_with r t applied (some h) c v) changed false) w
    unfolding settle_with
    settled_now r t h c v changed x w same e shows seen =
        let equal = ==-sound h r.expected_after_hash same in
        record {
          is_applied = record {
            state = inl refl;
            recorded = refl;
            proven =
                subst (λ v. proves (some v) r.expected_after_hash ≡ true) (sym e)
                  (proves-verification v.checked_at r.expected_after_hash h same);
          };
          known = inr (record {
            recorded = ap some equal;
            sight = x;
            shows = subst (λ h. Shows r h x) equal shows;
            seen = seen;
          });
        }

    settle_now :
        (r : ChangeSetRecord) (h : String) (c : Option Code) (changed : Bool) (x : Sight)
        → (h == r.expected_after_hash) ≡ true
        → Shows r h x
        → Triple (Seen log x) Q (
            now host >>= λ t. checked_now host r.expected_after_hash h >>= λ v.
            append (settle_with r t applied (some h) c v) >>= λ _.
            pure (result (settle_with r t applied (some h) c v) changed false))
    settle_now r h c changed x same shows = Triple-bind (now-Seen log x) λ t.
        Triple-bind (checked_now-Seen log x r.expected_after_hash h) λ v. Triple-given λ e.
          Triple-bind (append-Seen log x _)
            λ _. Triple-pure _ λ w seen. settled_now r t h c v changed x w same e shows seen

    replay-Applies :
        (r : ChangeSetRecord) (fresh : AdapterState)
        → Triple (Seen log (read_back r.target fresh.hash)) Q (apply_replay host r fresh)
    unfolding apply_replay
    replay-Applies r fresh =
        Triple-if _ (λ same. settle_now r fresh.hash _ false _ same (inl refl))
          (λ _.
            Triple-if _ (λ _. fail_and_forget-Triple host _ _ _ _ _ _)
              (λ _. fail_and_throw-Triple host _ _ _ _ _ _))

    recover-Applies :
        {P : World E → Type 0} (a : ChangeAdapter E) (before : AdapterState) (r : ChangeSetRecord)
        (after : Option AdapterState)
        → Triple P Q (apply_recover host a before r after)
    unfolding apply_recover settle_recovery
    recover-Applies a before r after = Triple-after _ λ b.
        Triple-if _ (λ _. fail_and_forget-Triple host _ _ _ _ _ _)
          (λ _. fail_and_throw-Triple host _ _ _ _ _ _)

    -- What a dispatch left was shown by the write or by the read after it.
    abbrev Dispatches : ChangeSetRecord → Dispatched → World E → Type 0
    Dispatches r d w =
        (s : AdapterState) → d.after ≡ some s → (x : Sight) × Shows r s.hash x × Seen log x w

    found-Applies :
        (a : ChangeAdapter E) (before : AdapterState) (r : ChangeSetRecord) (d : Dispatched)
        (o : Option AdapterState)
        → found_at d.after r.expected_after_hash ≡ o
        → Triple (Dispatches r d) Q (settle_found host a before r d o)
    unfolding settle_found
    found-Applies a before r d (some s) e =
        let (left, same) = found_at-some d.after r.expected_after_hash s e in
        record {
          at = λ w sights.
              let (x, shows, seen) = sights s left in
              (settle_now r s.hash _ true x same shows).at w seen;
        }
    found-Applies a before r d none e =
        Triple-if _ (λ _. recover-Applies a before r d.after)
          (λ _.
            Triple-if _ (λ _. fail_and_forget-Triple host _ _ _ _ _ _)
              (λ _. fail_and_throw-Triple host _ _ _ _ _ _))

    settle-Applies :
        (a : ChangeAdapter E) (before : AdapterState) (r : ChangeSetRecord) (d : Dispatched)
        → Triple (Dispatches r d) Q (settle_apply host a before r d)
    unfolding settle_apply
    settle-Applies a before r d =
        Triple-if _ (λ _. fail_and_throw-Triple host _ _ _ _ _ _)
          (λ _. found-Applies a before r d _ refl)

    read-Dispatches :
        (a : ChangeAdapter E) (known : Memᴰ a host.adapters) (r : ChangeSetRecord)
        (o : Option AdapterState) (e : Option Failure) (w : World E)
        → IfRead log a known r.target o w
        → Dispatches r (record { after = o; error = e }) w
    read-Dispatches a known r none e w h s p = cc
    read-Dispatches a known r (some k) e w h s p =
        let same : k ≡ s = cc in
        (
          read_back r.target s.hash,
          inl refl,
          subst (λ s. Seen log (read_back r.target s.hash) w) same h,
        )

    dispatch-Dispatches :
        (a : ChangeAdapter E)
        → Memᴰ a host.adapters
        → (m : VolatileChangeMaterial) (r : ChangeSetRecord)
        → m.plan.expected_before_hash ≡ r.expected_before_hash
        → Triple Always (Dispatches r) (dispatch_apply host a m r)
    unfolding dispatch_apply
    dispatch-Dispatches a known m r from =
        Triple-catch
          (Triple-bind (write-Seen log a known m.plan) λ k. Triple-attempt _ λ _ _.
            Triple-pure _ λ w seen s p.
              let same : k ≡ s = cc in
              (
                write_result m.plan s.hash,
                inr (m.plan, from, refl),
                subst (λ s. Seen log (write_result m.plan s.hash) w) same seen,
              ))
          (λ e.
            Triple-bind (diagnostic_read-Seen log a known r.target)
              λ o. Triple-pure _ λ w seen. read-Dispatches a known r o (some e) w seen)

    attempt-Applies :
        (a : ChangeAdapter E)
        → Memᴰ a host.adapters
        → (m : VolatileChangeMaterial) (key : String) (r : ChangeSetRecord) (fresh : AdapterState)
          (status : ActionAttempt)
        → m.plan.expected_before_hash ≡ r.expected_before_hash
        → Triple
            (Seen log (read_back r.target fresh.hash))
            Q
            (apply_attempt host a m key r fresh status)
    unfolding apply_attempt
    attempt-Applies a known m key r fresh replay from = replay-Applies r fresh
    attempt-Applies a known m key r fresh unclaimed from = Triple-after _ λ _. Triple-after _ λ _.
        Triple-after _ λ c.
          Triple-after _
            λ _. Triple-bind (dispatch-Dispatches a known m r from) λ d. settle-Applies a _ r d

    planned_from :
        (m : VolatileChangeMaterial) (r : ChangeSetRecord)
        → material_matches host m r ≡ true
        → m.plan.expected_before_hash ≡ r.expected_before_hash
    unfolding material_matches
    planned_from m r h = ==-sound m.plan.expected_before_hash r.expected_before_hash (ground arith)

    planned-Applies :
        (key : String) (r : ChangeSetRecord) (status : ActionAttempt)
        → Triple Always Q (apply_planned host key r status)
    unfolding apply_planned
    planned-Applies key r status = Triple-attempt _ λ a named.
        let known = by_id-mem host.adapters r.adapter a named in
        Triple-after _ λ m. Triple-attempt _ λ _ matched.
          let from = planned_from m r (require-eq-ok _ _ matched) in
          Triple-bind (checked_read-Seen log a known r.target)
            λ fresh. attempt-Applies a known m key r fresh status from

    return-Applies :
        (r : ChangeSetRecord) (status : ActionAttempt)
        → old ≡ ok r
        → IsApplied r
        → Triple Always Q (return_settled host r status)
    unfolding return_settled
    return-Applies r replay e h = Triple-pure _ λ w _. record { is_applied = h; known = inl e }
    return-Applies r unclaimed e h = Triple-throw _

    by_state-Applies :
        (key : String) (r : ChangeSetRecord) (status : ActionAttempt) (s : ChangeSetState)
        → r.state ≡ s
        → old ≡ ok r
        → assert_change_set r ≡ ok tt
        → Triple Always Q (apply_by_state host key r status s)
    unfolding apply_by_state
    by_state-Applies key r status applied e o h =
        return-Applies r status o (applied_evidence r applied (inl refl) e (evidence r applied e h))
    by_state-Applies key r status verified e o h =
        return-Applies r status o
          (applied_evidence r verified (inr refl) e (evidence r verified e h))
    by_state-Applies key r status planned e o h = planned-Applies key r status
    by_state-Applies key r status _ e o h = Triple-throw _

  -- Here `w` has the lock.
  locked-Applies :
      (id : String) (key : Option String) (w : World E)
      → Ends (Applies (load_change_set id w.store)) (apply_locked host id false key w)
  unfolding apply_locked
  locked-Applies id none w =
      read-Ends (Applies (load_change_set id w.store)) (load_change_set id) _ w
        λ r e. (Triple-throw {P = Always} _).at w tt
  locked-Applies id (some key) w =
      read-Ends (Applies (load_change_set id w.store)) (load_change_set id) _ w λ r e.
        (Triple-after {P = Always} _ λ status.
            by_state-Applies (load_change_set id w.store) key r status r.state refl e
              (load-checks id w.store r e).1).at
          w tt

  unlocked :
      (old : Result ChangeSetRecord) (x : EngineActionResult) (w : World E)
      → Applies old x w
      → Applies old x (World.set_lock false w)
  unlocked old x w h = record { is_applied = h.is_applied; known = go h.known }
    where
      go :
          (old ≡ ok x.change_set) ⊎ AppliedNow x.change_set w
          → (old ≡ ok x.change_set) ⊎ AppliedNow x.change_set (World.set_lock false w)
      go (inl e) = inl e
      go (inr n) =
          inr (record { recorded = n.recorded; sight = n.sight; shows = n.shows; seen = n.seen })

  -- An apply that returns, and is no dry run, returns an applied ChangeSet: its state is applied or
  -- verified, a hash is recorded as applied, and its verification names the planned hash as expected
  -- and found. Either it is the ChangeSet that the journal had before the call, or the planned hash
  -- is the one that is recorded as applied, and the log of what the adapters have shown has it:
  -- from a read of the target, or as the result of writing a plan from the hash that the ChangeSet
  -- has as the one before.
  pub apply-Applies :
      (id : String) (key : Option String) (w v : World E) (x : EngineActionResult)
      → apply host id false key w ≡ returned x v
      → Applies (load_change_set id w.store) x v
  unfolding apply
  apply-Applies id key w v x h =
      on_end (Applies (load_change_set id w.store)) (apply host id false key w) h (
        locked-Ends (Applies (load_change_set id w.store)) (apply_locked host id false key) w
          (unlocked (load_change_set id w.store))
          (subst (λ o. Ends (Applies o) (apply_locked host id false key (World.set_lock true w)))
            (load-unlocked id w) (locked-Applies id key (World.set_lock true w))))
