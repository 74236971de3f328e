-- ===== src/Reference/Session.antt =====
-- A receipt cleans up once (src/adapters/reference-page-lifecycle.ts).
use tilda_mcp.Prelude.{
  ℕ, suc, ◌<◌, ◌≡◌, refl, List, [], ◌∷◌, Bool, true, false, Option, none, some, arith, eqb,
  Bool-cases, inl, inr,
}
use tilda_mcp.Effect.Codes.{tilda, reference_receipt_rejected, reference_cleanup_unverified}
use tilda_mcp.Effect.State.{
  Outcome, returned, threw, Exec, final, pure, throw, attempt, guard, gets, modify, ◌>>=◌,
}
use tilda_mcp.Effect.Keeps.{
  IsPreorder, Keeps, Keeps-pure, Keeps-throw, Keeps-attempt, Keeps-gets, Keeps-bind,
}
use tilda_mcp.Contracts.Targets.{PageTarget}
use tilda_mcp.Manager.State.{ReferencePageReceipt}
use tilda_mcp.Reference.State.{
  CreatedReference, ReferencePageTransport, Lifecycle, token_of, delete_token,
}
use tilda_mcp.Reference.Controller.{
  on_transport, proves_absence, with_transport, receipt_id, keep_receipt,
  create_page_from_reference, cleanup_with, cleanup_created_reference,
}

pub data Call : Type 0 where
  create : PageTarget → Call
  cleanup : ReferencePageReceipt → Call

-- The receipt was given out, and its token is gone.
pub record IsConsumed {E : Type 0} (n : ℕ) (w : Lifecycle E) : Type 0 where
  pub old : n < w.next_object
  pub gone : token_of n w.tokens ≡ none

deleted : (n : ℕ) (ts : List (ℕ × ℕ)) → token_of n (delete_token n ts) ≡ none
unfolding token_of delete_token
deleted n [] = refl
deleted n ((m, t) ∷ ts) =
    let rest = deleted n ts in
    elim (Bool-cases (eqb n m)) [ inl p ↦ ground arith | inr p ↦ rw p (rw p rest) ]

other-deleted :
    (n k : ℕ) (ts : List (ℕ × ℕ)) → token_of n ts ≡ none → token_of n (delete_token k ts) ≡ none
unfolding token_of delete_token
other-deleted n k [] h = refl
other-deleted n k ((m, t) ∷ ts) h = elim (Bool-cases (eqb n m)) [
  | inl p ↦ ground arith
  | inr p ↦
      let rest = other-deleted n k ts (ground arith) in
      elim (Bool-cases (eqb k m)) [ inl q ↦ rw q rest | inr q ↦ rw q (rw p rest) ]
]

module _ {E : Type 0} (n : ℕ) where
  abbrev R : Lifecycle E → Lifecycle E → Type 0
  R w v = IsConsumed n w → IsConsumed n v

  pre : IsPreorder R
  pre = record { reflexive = λ w h. h; transitive = λ u v w h k l. k (h l) }

  transport_step :
      {A : Type 0} (w : Lifecycle E) (o : Outcome E A) → R w (final (with_transport w o))
  transport_step w (returned a e) h = record { old = h.old; gone = h.gone }
  transport_step w (threw f e) h = record { old = h.old; gone = h.gone }

  on_transport-R : {A : Type 0} (m : Exec E A) → Keeps R (on_transport m)
  unfolding on_transport
  on_transport-R m = record { at = λ w. transport_step w (m w.outside) }

  delete-R : (k : ℕ) → Keeps R (modify (λ w. record w { tokens = delete_token k w.tokens }))
  unfolding modify
  delete-R k = record {
    at = λ w h. record { old = h.old; gone = other-deleted n k w.tokens h.gone };
  }

module _ {E : Type 0} (transport : ReferencePageTransport E) (n : ℕ) where
  receipt_id-R : Keeps (R n) (receipt_id transport)
  unfolding receipt_id
  receipt_id-R = record { at = λ w h. record { old = h.old; gone = h.gone } }

  fresh_token :
      (k t : ℕ) (ts : List (ℕ × ℕ)) → n < k → token_of n ts ≡ none → token_of n ((k, t) ∷ ts) ≡ none
  unfolding token_of
  fresh_token k t ts h gone = ground arith

  grown : (k : ℕ) → n < k → n < suc k
  grown k h = omega arith

  keep_receipt-R :
      (s : PageTarget) (c : CreatedReference) (id : _) → Keeps (R n) (keep_receipt transport s c id)
  unfolding keep_receipt
  keep_receipt-R s c id = record {
    at = λ w h. record {
      old = grown w.next_object h.old;
      gone = fresh_token w.next_object c.token w.tokens h.old h.gone;
    };
  }

  create-R : (s : PageTarget) → Keeps (R n) (create_page_from_reference transport s)
  unfolding create_page_from_reference
  create-R s = Keeps-bind (pre n) (Keeps-attempt (pre n) _) λ _.
      Keeps-bind (pre n) (on_transport-R n _) λ c. Keeps-bind (pre n) (Keeps-attempt (pre n) _) λ _.
        Keeps-bind (pre n) (Keeps-attempt (pre n) _) λ _.
          Keeps-bind (pre n) (Keeps-attempt (pre n) _) λ _.
            Keeps-bind (pre n) receipt_id-R
              λ id. Keeps-bind (pre n) (keep_receipt-R s c id) λ r. Keeps-pure (pre n) _

  cleanup_with-R :
      (r : ReferencePageReceipt) (t : Option ℕ) → Keeps (R n) (cleanup_with transport r t)
  unfolding cleanup_with
  cleanup_with-R r none = Keeps-throw (pre n) _
  cleanup_with-R r (some t) = Keeps-bind (pre n) (Keeps-attempt (pre n) _) λ _.
      Keeps-bind (pre n) (delete-R n _) λ _.
        Keeps-bind (pre n) (on_transport-R n _)
          λ e. Keeps-bind (pre n) (Keeps-attempt (pre n) _) λ _. Keeps-pure (pre n) e

  cleanup-R : (r : ReferencePageReceipt) → Keeps (R n) (cleanup_created_reference transport r)
  unfolding cleanup_created_reference
  cleanup-R r = Keeps-bind (pre n) (Keeps-gets (pre n) _) (cleanup_with-R r)

module _ {E : Type 0} (transport : ReferencePageTransport E) where
  -- The state after a call, whether it returned or threw.
  unfoldable pub after_call : Call → Lifecycle E → Lifecycle E
  after_call (create s) w = final (create_page_from_reference transport s w)
  after_call (cleanup r) w = final (cleanup_created_reference transport r w)

  unfoldable pub after : List Call → Lifecycle E → Lifecycle E
  after [] w = w
  after (c ∷ cs) w = after cs (after_call c w)

  after-R : (n : ℕ) (cs : List Call) (w : Lifecycle E) → R n w (after cs w)
  unfolding after after_call
  after-R n [] w h = h
  after-R n (create s ∷ cs) w h = after-R n cs _ ((create-R transport n s).at w h)
  after-R n (cleanup r ∷ cs) w h = after-R n cs _ ((cleanup-R transport n r).at w h)

  dispatched :
      (r : ReferencePageReceipt) (t : ℕ) (w : Lifecycle E) (frozen : Bool)
      → frozen ≡ true
      → r.identity < w.next_object
      → IsConsumed r.identity (
          final (
            (guard frozen reference_receipt_rejected >>= λ _.
            modify (λ w. record w { tokens = delete_token r.identity w.tokens }) >>= λ _.
            on_transport (transport.cleanup_created_reference t) >>= λ evidence.
            guard (proves_absence transport r evidence) reference_cleanup_unverified >>= λ _.
            pure evidence)
              w))
  unfolding ◌>>=◌ attempt modify
  dispatched r t w false h old = cc
  dispatched r t w true h old =
      (Keeps-bind (pre r.identity) (on_transport-R r.identity _) λ e.
          Keeps-bind (pre r.identity) (Keeps-attempt (pre r.identity) _)
            λ _. Keeps-pure (pre r.identity) e).at
        _ (record { old = old; gone = deleted r.identity w.tokens })

  consumed_with :
      (r : ReferencePageReceipt) (w : Lifecycle E) (t : Option ℕ)
      → token_of r.identity w.tokens ≡ t
      → r.is_frozen ≡ true
      → r.identity < w.next_object
      → IsConsumed r.identity (final (cleanup_with transport r t w))
  unfolding cleanup_with throw
  consumed_with r w none h frozen old = record { old = old; gone = h }
  consumed_with r w (some t) h frozen old = dispatched r t w r.is_frozen frozen old

  consumed :
      (r : ReferencePageReceipt) (w : Lifecycle E)
      → r.is_frozen ≡ true
      → r.identity < w.next_object
      → IsConsumed r.identity (final (cleanup_created_reference transport r w))
  unfolding cleanup_created_reference gets ◌>>=◌
  consumed r w frozen old = consumed_with r w (token_of r.identity w.tokens) refl frozen old

  rejected :
      (r : ReferencePageReceipt) (w : Lifecycle E)
      → token_of r.identity w.tokens ≡ none
      → cleanup_created_reference transport r w ≡ threw (tilda reference_receipt_rejected) w
  unfolding cleanup_created_reference cleanup_with gets throw ◌>>=◌
  rejected r w gone = rw gone refl

  -- A frozen receipt that the controller gave out cleans up at most once: after one cleanup with
  -- it, returned or thrown, and any further calls, another cleanup with it throws
  -- REFERENCE_RECEIPT_REJECTED and asks the transport for nothing.
  pub cleanup-once :
      (r : ReferencePageReceipt) (cs : List Call) (w : Lifecycle E)
      → r.is_frozen ≡ true
      → r.identity < w.next_object
      → cleanup_created_reference transport r (after (cleanup r ∷ cs) w)
        ≡ threw (tilda reference_receipt_rejected) (after (cleanup r ∷ cs) w)
  unfolding after after_call
  cleanup-once r cs w frozen old =
      rejected r (after (cleanup r ∷ cs) w)
        (after-R r.identity cs (final (cleanup_created_reference transport r w))
          (consumed r w frozen old)).gone
