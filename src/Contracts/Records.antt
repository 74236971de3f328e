-- ===== src/Contracts/Records.antt =====
-- What the journal keeps (src/core/contracts.ts). A timestamp is the number of milliseconds that
-- its canonical ISO text denotes, so the tests that a text is canonical hold of the representation.
use tilda_mcp.Prelude.{ℕ, ℕ_discrete, String, String-discrete, List, Option, Bool}
use tilda_mcp.Effect.Codes.{Code}
use tilda_mcp.Contracts.Targets.{ExactTarget, PageTarget, ExactTarget-discrete, PageTarget-discrete}
use tilda_mcp.Contracts.Requests.{ChangeOperation, ChangeOperation-discrete}

abbrev pub Timestamp : Type 0
Timestamp = ℕ

pub data ChangeSetState : Type 0 where
  planned applied verified rolled_back failed : ChangeSetState

pub record SnapshotEnvelope : Type 0 where
  pub format : String
  pub snapshot_id : String
  pub created_at : Timestamp
  pub adapter : String
  pub target : ExactTarget
  pub state_hash : String
  pub revision : Option String
  pub summary : String

pub record VerificationRecord : Type 0 where
  pub checked_at : Timestamp
  pub expected_hash : String
  pub actual_hash : String
  pub exact_match : Bool
  pub changed_paths : Option (List String)

pub record ChangeSetTaskAuthority : Type 0 where
  pub task_id : String
  pub grant_hash : String

pub record ChangeSetRecord : Type 0 where
  pub format : String
  pub change_set_id : String
  pub snapshot_id : String
  pub state : ChangeSetState
  pub created_at : Timestamp
  pub updated_at : Timestamp
  pub adapter : String
  pub capability : String
  pub target : ExactTarget
  pub operation : ChangeOperation
  pub request_hash : String
  pub expected_before_hash : String
  pub expected_before_revision : Option String
  pub expected_after_hash : String
  pub changed_paths : List String
  pub summary : String
  pub task_authority : Option ChangeSetTaskAuthority
  pub plan_idempotency_hash : Option String
  pub applied_hash : Option String
  pub verification : Option VerificationRecord
  pub failure_code : Option Code
  pub reconciliation_code : Option Code

pub data PublicationJournalState : Type 0 where
  claimed succeeded noop failed ambiguous : PublicationJournalState

pub data PublicationAction : Type 0 where
  publish unpublish : PublicationAction

pub record PublicationJournalRecord : Type 0 where
  pub format : String
  pub key_hash : String
  pub intent_hash : String
  pub action : PublicationAction
  pub target : PageTarget
  pub state : PublicationJournalState
  pub created_at : Timestamp
  pub updated_at : Timestamp
  pub before_published : Bool
  pub before_changed_hash : String
  pub failure_code : Option Code
  pub reconciliation_code : Option Code

unfoldable pub ChangeSetState-discrete : Discrete ChangeSetState
ChangeSetState-discrete = hlevel

unfoldable pub PublicationAction-discrete : Discrete PublicationAction
PublicationAction-discrete = hlevel

unfoldable pub ChangeSetTaskAuthority-discrete : Discrete ChangeSetTaskAuthority
ChangeSetTaskAuthority-discrete = hlevel String-discrete

-- `immutableChangeSetFields` (src/core/store.ts).
pub record ImmutableChangeSetFields : Type 0 where
  pub format : String
  pub change_set_id : String
  pub snapshot_id : String
  pub created_at : Timestamp
  pub adapter : String
  pub capability : String
  pub target : ExactTarget
  pub operation : ChangeOperation
  pub request_hash : String
  pub expected_before_hash : String
  pub expected_before_revision : Option String
  pub expected_after_hash : String
  pub changed_paths : List String
  pub summary : String
  pub task_authority : Option ChangeSetTaskAuthority
  pub plan_idempotency_hash : Option String

unfoldable pub ImmutableChangeSetFields-discrete : Discrete ImmutableChangeSetFields
ImmutableChangeSetFields-discrete = hlevel (
  String-discrete, ℕ_discrete, ExactTarget-discrete, ChangeOperation-discrete,
  ChangeSetTaskAuthority-discrete,
)

-- `immutablePublicationFields` (src/core/store.ts).
pub record ImmutablePublicationFields : Type 0 where
  pub format : String
  pub key_hash : String
  pub intent_hash : String
  pub action : PublicationAction
  pub target : PageTarget
  pub created_at : Timestamp
  pub before_published : Bool
  pub before_changed_hash : String

unfoldable pub ImmutablePublicationFields-discrete : Discrete ImmutablePublicationFields
ImmutablePublicationFields-discrete = hlevel (String-discrete, ℕ_discrete, PageTarget-discrete)
