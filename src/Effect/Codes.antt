-- ===== src/Effect/Codes.antt =====
-- The error codes (src/core/contracts.ts, `TildaEngineError`) and what a `catch` binds.
use tilda_mcp.Prelude.{String}

-- The codes of `TildaEngineError` that the modelled code throws, records or looks at; `other` is
-- any other code, such as one that an adapter throws.
pub data Code : Type 0 where
  unsafe_state_path state_corrupt invalid_state_id state_privacy_violation : Code
  journal_immutable_field_changed invalid_state_transition stale_changeset : Code
  invalid_idempotency_key concurrent_operation snapshot_referenced idempotency_conflict : Code
  changeset_exists changeset_not_found state_journal_full recovery_required : Code
  invalid_adapter_state ambiguous_state invalid_adapter_plan no_changes : Code
  idempotency_key_required changeset_not_applicable plan_material_mismatch : Code
  stale_target stale_revision apply_ambiguous apply_failed_unchanged : Code
  apply_previous_attempt_unchanged apply_verification_failed_recovered : Code
  apply_verification_failed_recovery_unproven apply_verification_failed : Code
  apply_replay_reconciled apply_error_reconciled verification_failed : Code
  changeset_not_rollbackable snapshot_mismatch rollback_ambiguous : Code
  rollback_failed_unchanged rollback_previous_attempt_unchanged : Code
  rollback_replay_reconciled rollback_error_reconciled : Code
  head_write_verification_ambiguous head_restore_verification_ambiguous : Code
  vault_conflict plan_material_unavailable capability_unavailable adapter_unavailable : Code
  duplicate_adapter : Code
  task_authority_invalid task_authority_changed task_authority_ttl_invalid : Code
  task_authority_expired task_authority_binding_mismatch task_authority_scope_overlap : Code
  task_authority_mode_violation task_authority_publication_scope_invalid : Code
  task_read_denied task_write_denied task_operation_denied task_rollback_denied : Code
  task_publication_denied task_copy_test_denied task_changeset_authority_mismatch : Code
  task_authority_revoked task_authority_required task_authority_already_active : Code
  task_description_invalid task_description_too_large task_inventory_invalid : Code
  task_inventory_lineage_busy task_inventory_lineage_unavailable : Code
  task_inventory_lineage_scope_denied task_inventory_lineage_mismatch : Code
  task_inventory_lineage_invalid task_inventory_lineage_receipt_rejected : Code
  task_authority_clock_invalid task_authority_mutation_in_progress : Code
  task_authority_execution_in_progress task_inventory_lineage_changed : Code
  publication_replay_drift publication_failed_unchanged publication_ambiguous : Code
  publication_previous_attempt_unchanged publication_replay_reconciled : Code
  publication_error_reconciled publication_ack_reconciled : Code
  invalid_publication_reconciliation_budget : Code
  reference_target_invalid reference_create_unverified reference_receipt_rejected : Code
  reference_cleanup_unverified known_template_add_unverified : Code
  other : String → Code

-- What a `catch` binds: an error of the program with its code, or any other error.
pub data Failure : Type 0 where
  tilda : Code → Failure
  foreign : Failure
