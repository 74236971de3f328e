-- ===== src/Engine/Settled/Rollback.antt =====
-- What `rollback` has established once it returns (src/core/engine.ts).
use mathlib.Core.Path.{subst}
use mathlib.Core.List.{Memᴰ}
use tilda_mcp.Prelude.{
  ◌≢◌, String, ◌==◌, ◌≡◌, refl, sym, ap, ◌∙◌, ◌⊎◌, inl, inr, Option, none, some, Bool, true, false,
  arith,
}
use tilda_mcp.Effect.Codes.{Code, Failure}
use tilda_mcp.Effect.Check.{Result, ok, reject_if-eq-ok}
use tilda_mcp.Effect.State.{returned}
use tilda_mcp.Effect.Triple.{
  Ends, Triple, Always, Triple-pure, Triple-throw, Triple-bind, Triple-attempt, Triple-if,
  Triple-catch, Triple-after, Triple-given, on_end,
}
use tilda_mcp.Contracts.Adapters.{AdapterState, ChangeAdapter, Host}
use tilda_mcp.Contracts.Records.{
  ChangeSetRecord, ChangeSetState, planned, applied, verified, rolled_back, VerificationRecord,
  Timestamp,
}
use tilda_mcp.Store.Checks.{assert_change_set, proves}
use tilda_mcp.Store.Loaded.{==-sound, load-checks}
use tilda_mcp.Store.Read.{load_change_set}
use tilda_mcp.Store.Claims.{ActionAttempt, unclaimed, replay}
use tilda_mcp.Engine.World
use tilda_mcp.Engine.World.{World}
use tilda_mcp.Engine.Quiet.{by_id-mem}
use tilda_mcp.Engine.Calls.{EngineActionResult, settle_with, found_at, verification}
use tilda_mcp.Engine.Outcomes.{Dispatched, result}
use tilda_mcp.Engine.Sights.{
  read_back, Log, Seen, IfRead, checked_read-Seen, diagnostic_read-Seen, on_store-Seen, append-Seen,
  delete-Seen, now-Seen,
}
use tilda_mcp.Engine.Rollback.{
  is_stale, settle_rollback, rollback_replay, dispatch_restore, settle_restored, settle_restore,
  rollback_remote, rollback_attempt, rollback_open, return_rolled_back, rollback_by_state,
  rollback_locked, rollback,
}
use tilda_mcp.Engine.Settled.{
  IsRolledBack, rolled_back_evidence, evidence, proves-verification, fail_and_throw-Triple,
  checked_now-Seen, read-Ends, locked-Ends, load-unlocked, found_at-some,
}

-- A state that is not stale, and does not show the change, shows what was before it.
fresh-baseline :
    (s : ChangeSetState) (baseline : Bool)
    → s ≢ rolled_back
    → is_stale s baseline false ≡ false
    → baseline ≡ true
unfolding is_stale
fresh-baseline planned baseline n h = ground arith
fresh-baseline applied baseline n h = cc
fresh-baseline verified baseline n h = cc
fresh-baseline ChangeSetState.failed baseline n h = ground arith
fresh-baseline rolled_back baseline n h = absurd (n refl)

module _ {E : Type 0} {host : Host E} (log : Log host) where
  -- What a rollback that is no dry run comes to; `old` is what the journal gave.
  pub record RollsBack (old : Result ChangeSetRecord) (x : EngineActionResult) (w : World E)
      : Type 0 where
    pub is_rolled_back : IsRolledBack x.change_set
    pub known :
        (old ≡ ok x.change_set)
        ⊎ Seen log (read_back x.change_set.target x.change_set.expected_before_hash) w

  module _ (old : Result ChangeSetRecord) where
    abbrev Q : EngineActionResult → World E → Type 0
    Q = RollsBack old

    settled_now :
        (r : ChangeSetRecord) (t : Timestamp) (h : String) (c : Option Code)
        (v : VerificationRecord) (changed : Bool) (w : World E)
        → (h == r.expected_before_hash) ≡ true
        → v ≡ verification v.checked_at r.expected_before_hash h
        → Seen log (read_back r.target h) w
        → Q (result (settle_with r t rolled_back r.applied_hash c v) changed false) w
    unfolding settle_with
    settled_now r t h c v changed w same e seen = record {
      is_rolled_back = record {
        state = refl;
        proven =
            subst (λ v. proves (some v) r.expected_before_hash ≡ true) (sym e)
              (proves-verification v.checked_at r.expected_before_hash h same);
      };
      known = inr (
          subst (λ h. Seen log (read_back r.target h) w) (==-sound h r.expected_before_hash same)
            seen);
    }

    settle-RollsBack :
        (r : ChangeSetRecord) (h : String) (c : Option Code) (changed : Bool)
        → (h == r.expected_before_hash) ≡ true
        → Triple (Seen log (read_back r.target h)) Q (settle_rollback host r h c changed)
    unfolding settle_rollback
    settle-RollsBack r h c changed same =
        let x = read_back r.target h in
        Triple-bind (now-Seen log x) λ t.
          Triple-bind (checked_now-Seen log x r.expected_before_hash h) λ v. Triple-given λ e.
            Triple-bind (append-Seen log x _) λ _.
              Triple-bind (delete-Seen log x _)
                λ _. Triple-pure _ λ w seen. settled_now r t h c v changed w same e seen

    replay-RollsBack :
        (r : ChangeSetRecord) (fresh : AdapterState)
        → Triple (Seen log (read_back r.target fresh.hash)) Q (rollback_replay host r fresh)
    unfolding rollback_replay
    replay-RollsBack r fresh =
        Triple-if _ (λ same. settle-RollsBack r fresh.hash _ _ same)
          (λ _.
            Triple-if _
              (λ _. Triple-if _ (λ _. Triple-throw _) (λ _. fail_and_throw-Triple host _ _ _ _ _ _))
              (λ _.
                Triple-if _ (λ _. Triple-throw _) (λ _. fail_and_throw-Triple host _ _ _ _ _ _)))

    abbrev ReadAfter : ChangeSetRecord → Dispatched → World E → Type 0
    ReadAfter r d w = (s : AdapterState) → d.after ≡ some s → Seen log (read_back r.target s.hash) w

    restored-RollsBack :
        (r : ChangeSetRecord) (d : Dispatched) (o : Option AdapterState)
        → found_at d.after r.expected_before_hash ≡ o
        → Triple (ReadAfter r d) Q (settle_restored host r d o)
    unfolding settle_restored
    restored-RollsBack r d (some s) e =
        let (left, same) = found_at-some d.after r.expected_before_hash s e in
        record { at = λ w seen. (settle-RollsBack r s.hash _ _ same).at w (seen s left) }
    restored-RollsBack r d none e =
        Triple-if _ (λ _. fail_and_throw-Triple host _ _ _ _ _ _)
          (λ _. fail_and_throw-Triple host _ _ _ _ _ _)

    restore-RollsBack :
        (r : ChangeSetRecord) (d : Dispatched) → Triple (ReadAfter r d) Q (settle_restore host r d)
    unfolding settle_restore
    restore-RollsBack r d =
        Triple-if _ (λ _. fail_and_throw-Triple host _ _ _ _ _ _)
          (λ _. restored-RollsBack r d _ refl)

    read-ReadAfter :
        (a : ChangeAdapter E) (known : Memᴰ a host.adapters) (r : ChangeSetRecord)
        (o : Option AdapterState) (e : Option Failure) (w : World E)
        → IfRead log a known r.target o w
        → ReadAfter r (record { after = o; error = e }) w
    read-ReadAfter a known r none e w h s p = cc
    read-ReadAfter a known r (some k) e w h s p =
        let same : k ≡ s = cc in subst (λ s. Seen log (read_back r.target s.hash) w) same h

    dispatch-ReadAfter :
        (a : ChangeAdapter E)
        → Memᴰ a host.adapters
        → (before : AdapterState) (r : ChangeSetRecord)
        → Triple Always (ReadAfter r) (dispatch_restore host a before r)
    unfolding dispatch_restore
    dispatch-ReadAfter a known before r =
        Triple-catch
          (Triple-after _ λ candidate. Triple-after _ λ _.
            Triple-bind (diagnostic_read-Seen log a known r.target)
              λ o. Triple-pure _ λ w seen. read-ReadAfter a known r o none w seen)
          (λ e.
            Triple-bind (diagnostic_read-Seen log a known r.target)
              λ o. Triple-pure _ λ w seen. read-ReadAfter a known r o (some e) w seen)

    attempt-RollsBack :
        (a : ChangeAdapter E)
        → Memᴰ a host.adapters
        → (key : String) (r : ChangeSetRecord) (fresh : AdapterState) (status : ActionAttempt)
        → r.state ≢ rolled_back
        → Triple
            (Seen log (read_back r.target fresh.hash))
            Q
            (rollback_attempt host a key r fresh status)
    unfolding rollback_attempt rollback_remote
    attempt-RollsBack a known key r fresh replay n = replay-RollsBack r fresh
    attempt-RollsBack a known key r fresh unclaimed n = Triple-attempt _ λ _ checked.
        let current = reject_if-eq-ok _ _ checked in
        Triple-if _
          (λ _. Triple-after _ λ m. Triple-after _ λ _. Triple-after _ λ c.
            Triple-after _
              λ _. Triple-bind (dispatch-ReadAfter a known _ r) λ d. restore-RollsBack r d)
          (λ other.
            let same = fresh-baseline r.state (fresh.hash == r.expected_before_hash) n (
              ap (is_stale r.state (fresh.hash == r.expected_before_hash)) (sym other) ∙ current) in
            Triple-bind (on_store-Seen log (read_back r.target fresh.hash) _)
              λ c. Triple-attempt _ λ _ _. settle-RollsBack r fresh.hash _ _ same)

    open-RollsBack :
        (key : String) (r : ChangeSetRecord) (status : ActionAttempt)
        → r.state ≢ rolled_back
        → Triple Always Q (rollback_open host key r status)
    unfolding rollback_open
    open-RollsBack key r status n = Triple-attempt _ λ a named.
        let known = by_id-mem host.adapters r.adapter a named in
        Triple-bind (checked_read-Seen log a known r.target) λ fresh.
          Triple-bind (on_store-Seen log (read_back r.target fresh.hash) _)
            λ s. Triple-attempt _ λ _ _. attempt-RollsBack a known key r fresh status n

    return-RollsBack :
        (r : ChangeSetRecord) (status : ActionAttempt)
        → old ≡ ok r
        → IsRolledBack r
        → Triple Always Q (return_rolled_back host r status)
    unfolding return_rolled_back
    return-RollsBack r replay e h =
        Triple-pure _ λ w _. record { is_rolled_back = h; known = inl e }
    return-RollsBack r unclaimed e h = Triple-throw _

    by_state-RollsBack :
        (key : String) (r : ChangeSetRecord) (status : ActionAttempt) (s : ChangeSetState)
        → r.state ≡ s
        → old ≡ ok r
        → assert_change_set r ≡ ok tt
        → Triple Always Q (rollback_by_state host key r status s)
    unfolding rollback_by_state
    by_state-RollsBack key r status rolled_back e o h =
        return-RollsBack r status o (rolled_back_evidence r e (evidence r rolled_back e h))
    by_state-RollsBack key r status planned e o h = open-RollsBack key r status λ n. cc
    by_state-RollsBack key r status applied e o h = open-RollsBack key r status λ n. cc
    by_state-RollsBack key r status verified e o h = open-RollsBack key r status λ n. cc
    by_state-RollsBack key r status ChangeSetState.failed e o h =
        open-RollsBack key r status λ n. cc

  locked-RollsBack :
      (id : String) (key : Option String) (w : World E)
      → Ends (RollsBack (load_change_set id w.store)) (rollback_locked host id false key w)
  unfolding rollback_locked
  locked-RollsBack id none w =
      read-Ends (RollsBack (load_change_set id w.store)) (load_change_set id) _ w
        λ r e. (Triple-throw {P = Always} _).at w tt
  locked-RollsBack id (some key) w =
      read-Ends (RollsBack (load_change_set id w.store)) (load_change_set id) _ w λ r e.
        (Triple-after {P = Always} _ λ status.
            by_state-RollsBack (load_change_set id w.store) key r status r.state refl e
              (load-checks id w.store r e).1).at
          w tt

  -- A rollback that returns, and is no dry run, returns a ChangeSet that is rolled back, whose
  -- verification names the hash from before the change as expected and found. Either it is the
  -- ChangeSet that the journal had before the call, or the log of what the adapters have shown has
  -- this hash from a read of its target.
  pub rollback-RollsBack :
      (id : String) (key : Option String) (w v : World E) (x : EngineActionResult)
      → rollback host id false key w ≡ returned x v
      → RollsBack (load_change_set id w.store) x v
  unfolding rollback
  rollback-RollsBack id key w v x h =
      on_end (RollsBack (load_change_set id w.store)) (rollback host id false key w) h (
        locked-Ends (RollsBack (load_change_set id w.store)) (rollback_locked host id false key) w
          (λ y u k. record { is_rolled_back = k.is_rolled_back; known = k.known })
          (subst
            (λ o. Ends (RollsBack o) (rollback_locked host id false key (World.set_lock true w)))
            (load-unlocked id w) (locked-RollsBack id key (World.set_lock true w))))
