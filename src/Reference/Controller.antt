-- ===== src/Reference/Controller.antt =====
-- `ReferencePageLifecycleController` (src/adapters/reference-page-lifecycle.ts).
use tilda_mcp.Prelude.{ℕ, suc, String, ◌==◌, ◌∷◌, Bool, true, ◌&&◌, not, Option, none, some}
use tilda_mcp.Effect.Codes.{
  reference_create_unverified, reference_receipt_rejected, reference_cleanup_unverified,
}
use tilda_mcp.Effect.State.{
  Outcome, returned, threw, Exec, pure, throw, attempt, guard, gets, modify, ◌>>=◌, ◌>>◌,
}
use tilda_mcp.Contracts.Targets.{PageTarget}
use tilda_mcp.Manager.State.{ReferencePageReceipt}
use tilda_mcp.Reference.State.{
  ReferencePageCreateEvidence, ReferencePageCleanupEvidence, CreatedReference,
  ReferencePageTransport, Lifecycle, token_of, delete_token, assert_page, includes, proves_clone,
}

module _ {E : Type 0} where
  abbrev pub with_transport : {A : Type 0} → Lifecycle E → Outcome E A → Outcome (Lifecycle E) A
  with_transport w (returned a e) = returned a (record w { outside = e })
  with_transport w (threw f e) = threw f (record w { outside = e })

  -- A call of the transport.
  unfoldable pub on_transport : {A : Type 0} → Exec E A → Exec (Lifecycle E) A
  on_transport m w = with_transport w (m w.outside)

module _ {E : Type 0} (transport : ReferencePageTransport E) where
  unfoldable pub receipt_id : Exec (Lifecycle E) String
  receipt_id w =
      let (id, e) = transport.random_uuid w.outside in returned id (record w { outside = e })

  -- The new receipt, with its token.
  unfoldable pub keep_receipt :
      PageTarget → CreatedReference → String → Exec (Lifecycle E) ReferencePageReceipt
  keep_receipt source c id w =
      returned
        (record {
          identity = w.next_object;
          is_frozen = true;
          source = source;
          created = c.evidence.created;
          receipt_id = id;
        })
        (record w {
          tokens = (w.next_object, c.token) ∷ w.tokens;
          eligible_receipts = w.next_object ∷ w.eligible_receipts;
          next_object = suc w.next_object;
        })

  unfoldable pub create_page_from_reference :
      PageTarget → Exec (Lifecycle E) (ReferencePageReceipt × ReferencePageCreateEvidence)
  create_page_from_reference source = do
    attempt (assert_page source)
    c ← on_transport (transport.create_from_reference source)
    attempt (assert_page c.evidence.source)
    attempt (assert_page c.evidence.created)
    guard (proves_clone source c.evidence) reference_create_unverified
    id ← receipt_id
    r ← keep_receipt source c id
    pure (r, c.evidence)

  abbrev pub proves_absence : ReferencePageReceipt → ReferencePageCleanupEvidence → Bool
  proves_absence r e =
      e.source.project_id == r.source.project_id
      && e.source.page_id == r.source.page_id
      && e.removed_page_id == r.created.page_id
      && e.removed_page_absent
      && not (includes e.active_page_ids r.created.page_id)

  unfoldable pub cleanup_with :
      ReferencePageReceipt → Option ℕ → Exec (Lifecycle E) ReferencePageCleanupEvidence
  cleanup_with r none = throw reference_receipt_rejected
  cleanup_with r (some token) = do
    guard r.is_frozen reference_receipt_rejected
    modify (λ w. record w { tokens = delete_token r.identity w.tokens })
    evidence ← on_transport (transport.cleanup_created_reference token)
    guard (proves_absence r evidence) reference_cleanup_unverified
    pure evidence

  unfoldable pub cleanup_created_reference :
      ReferencePageReceipt → Exec (Lifecycle E) ReferencePageCleanupEvidence
  cleanup_created_reference r = gets (λ w. token_of r.identity w.tokens) >>= cleanup_with r
