-- ===== src/Tests/Reference.antt =====
-- A reference page that is cloned and cleaned up.
use tilda_mcp.Prelude.{ℕ, suc, ◌≡◌, refl, List, [], ◌∷◌, true, false, arith}
use tilda_mcp.Prelude
use tilda_mcp.Effect.Codes.{tilda, reference_receipt_rejected}
use tilda_mcp.Effect.State
use tilda_mcp.Effect.State.{returned, threw}
use tilda_mcp.Contracts.Targets.{PageTarget}
use tilda_mcp.Manager.State.{ReferencePageReceipt}
use tilda_mcp.Store.Checks
use tilda_mcp.Reference.State as Proofs
use tilda_mcp.Reference.State.{ReferencePageTransport, Lifecycle}
use tilda_mcp.Reference.Controller
use tilda_mcp.Reference.Controller.{cleanup_created_reference}
use tilda_mcp.Reference.Session
use tilda_mcp.Reference.Session.{create, cleanup, after, cleanup-once}

abbrev source : PageTarget
source = record { project_id = "1"; page_id = "2" }

abbrev cloned : PageTarget
cloned = record { project_id = "1"; page_id = "3" }

-- The outside counts the cleanups.
abbrev transport : ReferencePageTransport ℕ
transport = record {
  create_from_reference = λ s e.
      returned
        (record {
          token = 7;
          evidence = record {
            source = s;
            created = cloned;
            baseline_page_ids = "2" ∷ [];
            baseline_page_order = "2" ∷ [];
            created_page_ids = "2" ∷ "3" ∷ [];
            created_page_order = "2" ∷ "3" ∷ [];
            source_record_ids = "10" ∷ [];
            created_record_ids = "11" ∷ [];
            record_family_parity = true;
            created_unpublished = true;
          };
        })
        e;
  cleanup_created_reference = λ token e.
      returned
        (record {
          source = source;
          removed_page_id = "3";
          active_page_ids = "2" ∷ [];
          page_order = "2" ∷ [];
          removed_page_absent = true;
          source_record_ids = "10" ∷ [];
        })
        (suc e);
  random_uuid = λ e. ("uuid", e);
}

abbrev created : Lifecycle ℕ
created =
    after transport (create source ∷ [])
      (record { tokens = []; eligible_receipts = []; next_object = 0; outside = 0 })

abbrev receipt : ReferencePageReceipt
receipt = record {
  identity = 0;
  is_frozen = true;
  source = source;
  created = cloned;
  receipt_id = "uuid";
}

unfoldable reference_all : Unit {0}
unfolding State.pure State.throw State.attempt State.gets State.modify State.◌>>=◌ Checks.distinct
    Prelude.is_canonical_id Prelude.String-discrete Proofs.token_of Proofs.delete_token
    Proofs.assert_page Proofs.has_canonical_ids Proofs.added Proofs.proves_clone
    Controller.on_transport Controller.receipt_id Controller.keep_receipt
    Controller.create_page_from_reference Controller.cleanup_with
    Controller.cleanup_created_reference Session.after_call Session.after
reference_all = tt

-- The clone gives a token, and of two cleanups one reaches the transport.
runs_reference :
    (created.tokens ≡ (0, 7) ∷ [])
    × ((after transport (cleanup receipt ∷ cleanup receipt ∷ []) created).outside ≡ 1)
unfolding reference_all
runs_reference = (refl, refl)

cleanup-once_example :
    cleanup_created_reference transport receipt
      (after transport (cleanup receipt ∷ create source ∷ []) created)
    ≡ threw
        (tilda reference_receipt_rejected)
        (after transport (cleanup receipt ∷ create source ∷ []) created)
unfolding reference_all
cleanup-once_example =
    cleanup-once transport receipt (create source ∷ []) created refl (omega arith)
