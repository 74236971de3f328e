-- ===== src/Manager/Tokens.antt =====
-- Transitions of the authority give out new tokens only (src/core/task-authority-manager.ts).
use mathlib.Core.Path.{subst}
use tilda_mcp.Prelude.{ℕ, ◌<◌, ◌≡◌, ◌≢◌, sym, ◌∙◌, Option, none, some, Bool, true, false, arith}
use tilda_mcp.Effect.State.{Exec, ◌>>=◌}
use tilda_mcp.Effect.Keeps.{
  IsPreorder, Keeps, Keeps-pure, Keeps-attempt, Keeps-bind, Keeps-if, Keeps-weaken,
}
use tilda_mcp.Manager.State.{
  MintTaskAuthorityInput, ActiveAuthority, Manager, Process, AuthorityHost, update, fresh_object,
}
use tilda_mcp.Manager.Leases.{
  drop_authority, drop_if_expired, current_of, current, current_receipt, clear,
}
use tilda_mcp.Manager.Lifetime.{install, mint, replace}
use tilda_mcp.Manager.Same.{
  Same, looks-Same, now_ms-Same, receipt_of-Same, assert_no_authority_transition-Same,
  receipt_if-Same, build-Same,
}

-- A token that was given out and is not the manager's, so its guards are revoked.
abbrev pub IsRevoked : ℕ → Manager → Type 0
IsRevoked t m = (t < m.next_object) × (m.revocation_token ≢ t)

new_token : (t n : ℕ) → t < n → n ≢ t
new_token t n h p = omega arith

module _ {E : Type 0} (t : ℕ) where
  abbrev pub R : Process E → Process E → Type 0
  R w v = IsRevoked t w.manager → IsRevoked t v.manager

  pub pre : IsPreorder R
  pre = record { reflexive = λ w h. h; transitive = λ u v w h k l. k (h l) }

  pub same : {A : Type 0} {m : Exec (Process E) A} → Keeps Same m → Keeps R m
  same h = Keeps-weaken (λ w v e l. subst (IsRevoked t) (sym e) l) h

  -- A change of the leases and receipts.
  pub other :
      (f : Manager → Manager)
      → ((m : Manager)
          → ((f m).next_object ≡ m.next_object) × ((f m).revocation_token ≡ m.revocation_token))
      → Keeps R (update f)
  unfolding update
  other f h = record {
    at = λ w l. let (a, b) = h w.manager in (subst (λ n. t < n) (sym a) l.0, λ p. l.1 (sym b ∙ p));
  }

  -- A new object is not the revoked token.
  pub object :
      {A : Type 0} (f : ℕ → Exec (Process E) A)
      → ((n : ℕ) → t < n → Keeps R (f n))
      → Keeps R (fresh_object >>= f)
  unfolding fresh_object ◌>>=◌
  object f h = record { at = λ w l. (h w.manager.next_object l.0).at _ (omega (arith, l.0), l.1) }

  module _ (host : AuthorityHost E) where
    drop_authority-R : Keeps R (drop_authority host)
    unfolding drop_authority update
    drop_authority-R = object _ λ n new. record { at = λ w l. (l.0, new_token t n new) }

    drop_if_expired-R : (a : ActiveAuthority) (b : Bool) → Keeps R (drop_if_expired host a b)
    unfolding drop_if_expired
    drop_if_expired-R a true = Keeps-pure pre (some a)
    drop_if_expired-R a false = Keeps-bind pre (same (now_ms-Same host)) λ now.
        Keeps-if _ (Keeps-bind pre drop_authority-R λ _. Keeps-pure pre none)
          (Keeps-pure pre (some a))

    current_of-R : (a : Option ActiveAuthority) → Keeps R (current_of host a)
    unfolding current_of
    current_of-R none = Keeps-pure pre none
    current_of-R (some a) =
        Keeps-bind pre (same (looks-Same _)) λ pinned. drop_if_expired-R a pinned

    pub current-R : Keeps R (current host)
    unfolding current
    current-R = Keeps-bind pre (same (looks-Same _)) current_of-R

    pub install-R : (n : ℕ) (a : ActiveAuthority) → t < n → Keeps R (install host n a)
    unfolding install update
    install-R n a new =
        Keeps-bind pre (record { at = λ w l. (l.0, new_token t n new) })
          λ _. same (receipt_of-Same host a.guard)

    pub mint-R : (input : MintTaskAuthorityInput) → Keeps R (mint host input)
    unfolding mint
    mint-R input = Keeps-bind pre (same (assert_no_authority_transition-Same host false)) λ _.
        Keeps-bind pre current-R λ old. Keeps-bind pre (Keeps-attempt pre _) λ _.
          object _ λ n new. Keeps-bind pre (same (build-Same host input n)) λ a. install-R n a new

    pub replace-R : (input : MintTaskAuthorityInput) → Keeps R (replace host input)
    unfolding replace
    replace-R input = Keeps-bind pre (same (assert_no_authority_transition-Same host false)) λ _.
        Keeps-bind pre current-R λ old.
          object _ λ n new. Keeps-bind pre (same (build-Same host input n)) λ a. install-R n a new

    pub clear-R : Keeps R (clear host)
    unfolding clear
    clear-R = Keeps-bind pre (same (assert_no_authority_transition-Same host false)) λ _.
        Keeps-bind pre (same (looks-Same _))
          λ existed. Keeps-bind pre drop_authority-R λ _. Keeps-pure pre existed

    pub current_receipt-R : Keeps R (current_receipt host)
    unfolding current_receipt
    current_receipt-R = Keeps-bind pre current-R λ a. same (receipt_if-Same host a)
