-- ===== src/Authority/Isolation.antt =====
-- What a valid grant protects (src/core/task-authority.ts).
use tilda_mcp.Prelude.{
  ◌+◌, ◌<◌, ◌≤◌, and_parts, ◌-◌, ltb, ◌≡◌, refl, List, [], ◌∷◌, ◌++◌, Bool, true, false, ◌||◌, not,
  any, All, Option, none, some, arith,
}
use tilda_mcp.Effect.Codes.{task_authority_invalid, task_authority_revoked}
use tilda_mcp.Effect.Check.{
  ok, require, reject_if, if_present, >>-eq-ok, require-eq-ok, reject_if-eq-ok,
}
use tilda_mcp.Contracts.Targets.{ExactTarget, PageTarget, of_page}
use tilda_mcp.Contracts.Requests.{ChangeOperation}
use tilda_mcp.Contracts.Records.{Timestamp, PublicationAction}
use tilda_mcp.Authority.Scope.{assert_target, assert_target_list, task_scope_covers, scopes_overlap}
use tilda_mcp.Authority.Grant.{
  TaskAuthorityGrant, TaskPublicationGrant, TaskAccountBinding, in_scope, pages, is_action,
  overlapping, assert_times, assert_binding, assert_mode, assert_publication_grant, assert_grant,
  max_task_authority_ttl_ms,
}
use tilda_mcp.Authority.Guard.{
  Guard, Moment, assert_active, assert_read, assert_change, assert_publication, permits,
}
use tilda_mcp.Authority.Paths.{covers_trans, overlap_up}

-- What the checks of a grant have found, where they pass.
record Valid (g : TaskAuthorityGrant) (now : Timestamp) : Type 0 where
  times : assert_times g now ≡ ok tt
  published : if_present (assert_publication_grant g.write_targets) g.publication ≡ ok tt
  disjoint : overlapping g.observe_targets g.write_targets ≡ false

assert_grant-Valid :
    (g : TaskAuthorityGrant) (live : TaskAccountBinding) (now : Timestamp)
    → assert_grant g live now ≡ ok tt
    → Valid g now
unfolding assert_grant
assert_grant-Valid g live now h =
    let (_, a) = >>-eq-ok (require _ task_authority_invalid) _ h in
    let (_, b) = >>-eq-ok (require _ task_authority_invalid) _ a in
    let (times, c) = >>-eq-ok (assert_times g now) _ b in
    let (_, d) = >>-eq-ok (assert_binding g.account_binding live) _ c in
    let (_, e) = >>-eq-ok (assert_target_list g.observe_targets) _ d in
    let (_, f) = >>-eq-ok (assert_target_list g.write_targets) _ e in
    let (apart, k) = >>-eq-ok (reject_if _ _) _ f in
    let (_, l) = >>-eq-ok (require _ _) _ k in
    let (_, published) = >>-eq-ok (assert_mode g g.mode) _ l in
    record { times = times; published = published; disjoint = reject_if-eq-ok _ _ apart }

-- A target in one of the scopes, and a source that overlaps none of them.
outside :
    (s t : ExactTarget) (ws : List ExactTarget)
    → in_scope ws t ≡ true
    → any (λ w. scopes_overlap s w) ws ≡ false
    → scopes_overlap s t ≡ false
outside s t [] h k = ground arith
outside s t (w ∷ ws) h k = ground (arith, overlap_up s w t, outside s t ws)

each_outside :
    (ss ws : List ExactTarget) (t : ExactTarget)
    → in_scope ws t ≡ true
    → overlapping ss ws ≡ false
    → All (λ s. scopes_overlap s t ≡ false) ss
unfolding overlapping
each_outside [] ws t h k = tt
each_outside (s ∷ ss) ws t h k =
    (outside s t ws h (ground arith), each_outside ss ws t h (ground arith))

in_scope_down :
    (ws : List ExactTarget) (s t : ExactTarget)
    → in_scope ws s ≡ true
    → task_scope_covers s t ≡ true
    → in_scope ws t ≡ true
in_scope_down [] s t h k = h
in_scope_down (w ∷ ws) s t h k = ground (arith, covers_trans w s t, in_scope_down ws s t)

pages_inside :
    (ps ws : List ExactTarget) (t : ExactTarget)
    → any (λ p. not (in_scope ws p)) ps ≡ false
    → in_scope ps t ≡ true
    → in_scope ws t ≡ true
pages_inside [] ws t h k = ground arith
pages_inside (p ∷ ps) ws t h k = ground (arith, in_scope_down ws p t, pages_inside ps ws t)

within :
    (issued expires : Timestamp)
    → ltb max_task_authority_ttl_ms (expires - issued) ≡ false
    → expires ≤ issued + max_task_authority_ttl_ms
within issued expires h = ground arith

expiry_bound :
    (g : TaskAuthorityGrant) (now : Timestamp)
    → assert_times g now ≡ ok tt
    → g.expires_at ≤ g.issued_at + max_task_authority_ttl_ms
unfolding assert_times
expiry_bound g now h =
    let (_, a) = >>-eq-ok (reject_if _ task_authority_invalid) _ h in
    let (b, _) = >>-eq-ok (reject_if _ _) _ a in
    within g.issued_at g.expires_at (reject_if-eq-ok _ _ b)

or_right_false : (a b : Bool) → (a || b) ≡ false → b ≡ false
or_right_false a b h = ground arith

any-append_right :
    {A : Type 0} (p : A → Bool) (xs ys : List A) → any p ys ≡ true → any p (xs ++ ys) ≡ true
any-append_right p [] ys h = h
any-append_right p (x ∷ xs) ys h = ground (arith, any-append_right p xs ys)

module _ (guard : Guard) (m : Moment) where
  pub writable_change :
      (op : ChangeOperation) (t : ExactTarget)
      → assert_change guard m op t ≡ ok tt
      → (in_scope guard.grant.write_targets t ≡ true)
        × (assert_active guard m ≡ ok tt)
        × (assert_target t ≡ ok tt)
  unfolding assert_change
  writable_change op t h =
      let (active, a) = >>-eq-ok (assert_active guard m) _ h in
      let (named, b) = >>-eq-ok (assert_target t) _ a in
      let (_, c) = >>-eq-ok (reject_if _ _) _ b in
      let (_, d) = >>-eq-ok (require _ _) _ c in (require-eq-ok _ _ d, active, named)

  -- A change that the guard of a valid grant permits is on a target that overlaps none of the
  -- sources that the task may only observe: neither inside one of them, nor around it.
  pub assert_change-isolated :
      (live : TaskAccountBinding) (now : Timestamp) (op : ChangeOperation) (t : ExactTarget)
      → assert_grant guard.grant live now ≡ ok tt
      → assert_change guard m op t ≡ ok tt
      → All (λ s. scopes_overlap s t ≡ false) guard.grant.observe_targets
  assert_change-isolated live now op t valid h =
      each_outside guard.grant.observe_targets guard.grant.write_targets t
        (writable_change op t h).0 (assert_grant-Valid guard.grant live now valid).disjoint

  -- What the task may change it may also read.
  pub assert_change-readable :
      (op : ChangeOperation) (t : ExactTarget)
      → assert_change guard m op t ≡ ok tt
      → assert_read guard m t ≡ ok tt
  unfolding assert_read
  assert_change-readable op t h =
      let (writable, active, named) = writable_change op t h in
      rw active (
        rw named (
          rw
            (any-append_right (λ s. task_scope_covers s t) guard.grant.observe_targets
              guard.grant.write_targets writable)
            refl))

  active_before_expiry : assert_active guard m ≡ ok tt → m.now < guard.grant.expires_at
  unfolding assert_active
  active_before_expiry h =
      let (_, a) = >>-eq-ok (reject_if m.is_revoked task_authority_revoked) _ h in
      let inside = reject_if-eq-ok _ _ a in ground arith

  permitted :
      (a : PublicationAction) (t : PageTarget)
      → assert_publication guard m a t ≡ ok tt
      → permits guard m guard.grant.publication a (of_page t) ≡ true
  unfolding assert_publication
  permitted a t h =
      let (_, b) = >>-eq-ok (assert_active guard m) _ h in
      let (_, c) = >>-eq-ok (assert_target (of_page t)) _ b in
      let inside = reject_if-eq-ok _ _ c in ground arith

  published_writable :
      (ws : List ExactTarget) (o : Option TaskPublicationGrant) (a : PublicationAction)
      (t : ExactTarget)
      → if_present (assert_publication_grant ws) o ≡ ok tt
      → permits guard m o a t ≡ true
      → in_scope ws t ≡ true
  unfolding assert_publication_grant
  published_writable ws none a t h k = ground arith
  published_writable ws (some p) a t h k =
      let (_, b) = >>-eq-ok (reject_if _ _) _ h in
      let (_, c) = >>-eq-ok (assert_target_list (pages p.targets)) _ b in
      pages_inside (pages p.targets) ws t (or_right_false _ _ (reject_if-eq-ok _ _ c))
        (and_parts (any (is_action a) p.actions) _ k).1

  -- Every time at which the guard of a valid grant is active is less than half an hour after the
  -- grant was issued.
  pub assert_active-within_ttl :
      (live : TaskAccountBinding) (now : Timestamp)
      → assert_grant guard.grant live now ≡ ok tt
      → assert_active guard m ≡ ok tt
      → m.now < guard.grant.issued_at + max_task_authority_ttl_ms
  assert_active-within_ttl live now valid h = omega (
    arith,
    active_before_expiry h,
    expiry_bound guard.grant now (assert_grant-Valid guard.grant live now valid).times,
  )

  -- The guard of a valid grant permits publishing only of pages inside the writable scopes.
  pub assert_publication-writable :
      (live : TaskAccountBinding) (now : Timestamp) (a : PublicationAction) (t : PageTarget)
      → assert_grant guard.grant live now ≡ ok tt
      → assert_publication guard m a t ≡ ok tt
      → in_scope guard.grant.write_targets (of_page t) ≡ true
  assert_publication-writable live now a t valid h =
      published_writable guard.grant.write_targets guard.grant.publication a (of_page t)
        (assert_grant-Valid guard.grant live now valid).published (permitted a t h)
