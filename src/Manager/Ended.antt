-- ===== src/Manager/Ended.antt =====
-- What a call that ends an authority leaves (src/core/task-authority-manager.ts).
use mathlib.Core.Path.{subst}
use tilda_mcp.Prelude.{ℕ, ◌<◌, ◌≡◌, ◌≢◌, sym, Option, none, some, Bool, true, false, arith}
use tilda_mcp.Effect.State.{Outcome, returned, threw, Exec, final, ◌>>=◌}
use tilda_mcp.Effect.Keeps.{Keeps, Keeps-attempt}
use tilda_mcp.Effect.Triple.{
  Ends, Triple, Triple-pure, Triple-bind, Triple-attempt, Triple-if, Triple-given,
}
use tilda_mcp.Manager.State.{
  MintTaskAuthorityInput, ReferencePageReceipt, VerifiedReferenceInventoryTransition,
  ActiveAuthority, Process, AuthorityHost, looks, update, fresh_object,
}
use tilda_mcp.Manager.Leases.{drop_authority, drop_if_expired, current_of, current, clear}
use tilda_mcp.Manager.Lifetime.{install, replace}
use tilda_mcp.Manager.Lineage.{consume_receipt, consume_if, accept_transition}
use tilda_mcp.Manager.Same.{
  Same, Same-preorder, looks-Same, now_ms-Same, receipt_of-Same,
  assert_no_authority_transition-Same, required-Same, build-Same, activate_grant-Same,
  or_throw-Same, verified_inventory-Same,
}
use tilda_mcp.Manager.Tokens.{IsRevoked}

-- The token was given out.
abbrev pub Old : {E : Type 0} → ℕ → Process E → Type 0
Old t w = t < w.manager.next_object

abbrev pub Revoked : {E : Type 0} → ℕ → Process E → Type 0
Revoked t w = IsRevoked t w.manager

differs : (t n : ℕ) → t < n → n ≢ t
differs t n h p = omega arith

module _ {E : Type 0} (t : ℕ) where
  same_step :
      {A : Type 0} (P : Process E → Type 0) (o : Outcome (Process E) A)
      → P (final o)
      → Ends (λ _. P) o
  same_step P (returned a v) h = h
  same_step P (threw e v) h = tt

  same-Old : {A : Type 0} {m : Exec (Process E) A} → Keeps Same m → Triple (Old t) (λ _. Old t) m
  same-Old {A} {m} h = record {
    at = λ w old. same_step (Old t) (m w) (subst (λ k. t < k.next_object) (sym (h.at w)) old);
  }

  same-Revoked :
      {A : Type 0} {m : Exec (Process E) A} → Keeps Same m → Triple (Revoked t) (λ _. Revoked t) m
  same-Revoked {A} {m} h = record {
    at = λ w old. same_step (Revoked t) (m w) (subst (IsRevoked t) (sym (h.at w)) old);
  }

  fresh-Old : Triple (Old t) (λ n w. (t < n) × Old t w) (fresh_object {E = E})
  unfolding fresh_object
  fresh-Old = record { at = λ w h. (h, omega (arith, h)) }

  module _ (host : AuthorityHost E) where
    drop-Revoked : Triple (Old t) (λ _. Revoked t) (drop_authority host)
    unfolding drop_authority update
    drop-Revoked =
        Triple-bind fresh-Old
          λ n. Triple-given λ new. record { at = λ w old. (old, differs t n new) }

    install-Revoked :
        (n : ℕ) (a : ActiveAuthority) → t < n → Triple (Old t) (λ _. Revoked t) (install host n a)
    unfolding install update
    install-Revoked n a new =
        Triple-bind {R = λ _. Revoked t} (record { at = λ w old. (old, differs t n new) })
          λ _. same-Revoked (receipt_of-Same host a.guard)

    -- Where the current authority is gone, its time was over, and it was dropped.
    abbrev pub IfGone : Option ActiveAuthority → Process E → Type 0
    IfGone o w = Old t w × (o ≡ none → Revoked t w)

    drop_if-IfGone :
        (a : ActiveAuthority) (b : Bool) → Triple (Old t) IfGone (drop_if_expired host a b)
    unfolding drop_if_expired
    drop_if-IfGone a true = Triple-pure _ λ w old. (old, λ e. cc)
    drop_if-IfGone a false = Triple-bind (same-Old (now_ms-Same host)) λ now.
        Triple-if _
          (λ _. Triple-bind drop-Revoked λ _. Triple-pure none λ w gone. (gone.0, λ e. gone))
          (λ _. Triple-pure _ λ w old. (old, λ e. cc))

    current_of-IfGone : (a : ActiveAuthority) → Triple (Old t) IfGone (current_of host (some a))
    unfolding current_of
    current_of-IfGone a = Triple-bind (same-Old (looks-Same _)) λ pinned. drop_if-IfGone a pinned

    current-Old : Triple (Old t) (λ _. Old t) (current host)
    unfolding current current_of
    current-Old = Triple-bind (same-Old (looks-Same _)) go
      where
        forget :
            (o : Outcome (Process E) (Option ActiveAuthority)) → Ends IfGone o → Ends (λ _. Old t) o
        forget (returned a v) h = h.0
        forget (threw e v) h = tt

        go : (a : Option ActiveAuthority) → Triple (Old t) (λ _. Old t) (current_of host a)
        go none = Triple-pure none λ w old. old
        go (some a) = record {
          at = λ w old. forget (current_of host (some a) w) ((current_of-IfGone a).at w old);
        }

    pub clear-Revoked : Triple (Old t) (λ _. Revoked t) (clear host)
    unfolding clear
    clear-Revoked = Triple-bind (same-Old (assert_no_authority_transition-Same host false)) λ _.
        Triple-bind (same-Old (looks-Same _))
          λ existed. Triple-bind drop-Revoked λ _. Triple-pure existed λ w gone. gone

    pub replace-Revoked :
        (input : MintTaskAuthorityInput) → Triple (Old t) (λ _. Revoked t) (replace host input)
    unfolding replace
    replace-Revoked input =
        Triple-bind (same-Old (assert_no_authority_transition-Same host false)) λ _.
          Triple-bind current-Old λ _. Triple-bind fresh-Old λ n.
            Triple-given
              λ new. Triple-bind (same-Old (build-Same host input n)) λ a. install-Revoked n a new

    consume-Old :
        (b : Bool) (r : ReferencePageReceipt) → Triple (Old t) (λ _. Old t) (consume_if host b r)
    unfolding consume_if consume_receipt update
    consume-Old false r = Triple-pure tt λ w old. old
    consume-Old true r =
        Triple-bind {R = λ _. Old t}
          (Triple-bind (same-Old (looks-Same _)) λ eligible.
            Triple-bind {R = λ _. Old t} (record { at = λ w old. old })
              λ _. Triple-pure eligible λ w old. old)
          λ consumed. same-Old (Keeps-attempt Same-preorder _)

    pub accept-Revoked :
        (x : VerifiedReferenceInventoryTransition)
        → Triple (Old t) (λ _. Revoked t) (accept_transition host x)
    unfolding accept_transition
    accept-Revoked x = Triple-bind (same-Old (assert_no_authority_transition-Same host true)) λ _.
        Triple-bind current-Old λ found. Triple-bind (same-Old (required-Same host found)) λ a.
          Triple-bind (same-Old (receipt_of-Same host a.guard)) λ held.
            Triple-bind (same-Old (looks-Same _)) λ mine. Triple-attempt _ λ _ _.
              Triple-attempt _ λ _ _. Triple-bind (same-Old (verified_inventory-Same host x a)) λ i.
                Triple-bind (same-Old (or_throw-Same host _ _)) λ digest. Triple-bind fresh-Old λ n.
                  Triple-given λ new. Triple-bind (same-Old (now_ms-Same host)) λ now.
                    Triple-bind (same-Old (activate_grant-Same host _ _ n now _))
                      λ b. Triple-bind (consume-Old _ _) λ _. install-Revoked n b new

    pub current-IfGone :
        (a : ActiveAuthority) (w : Process E)
        → Old t w
        → w.manager.active ≡ some a
        → Ends IfGone (current host w)
    unfolding current looks ◌>>=◌
    current-IfGone a w old e =
        subst (λ o. Ends IfGone (current_of host o w)) (sym e) ((current_of-IfGone a).at w old)
