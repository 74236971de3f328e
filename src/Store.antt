-- ===== src/Store.antt =====
-- The durable store (src/core/store.ts): five folders of immutable JSON files and a lock file.
-- A folder is a map from file names to what the file holds, and the folder of a journal is the
-- list of its events 000001.json, 000002.json, …, in that order.
pub mod Checks
pub mod Transition
pub mod Read
pub mod Journal
pub mod Claims
pub mod Attempts
pub mod Claimed
pub mod Loaded
pub mod Identity
pub mod RoundTrip
pub mod Kept
pub mod Grows
pub mod Published
pub mod PublicationClaims
use tilda_mcp.Prelude.{Bool, String, List, false, []}
use tilda_mcp.Dict.{Dict}
use tilda_mcp.Contracts.Records.{ChangeSetRecord, SnapshotEnvelope, PublicationJournalRecord}

pub data Action : Type 0 where
  apply rollback : Action

unfoldable pub Action-discrete : Discrete Action
Action-discrete = hlevel

pub record ActionClaim : Type 0 where
  pub action : Action
  pub change_set_id : String
  pub key_hash : String

pub data IdempotencyMapping : Type 0 where
  plan_mapping : String → IdempotencyMapping
  action_mapping : Action → String → IdempotencyMapping
  publication_mapping : String → IdempotencyMapping

pub record Store : Type 0 where
  -- mutation.lock is there
  pub locked : Bool
  pub snapshots : Dict SnapshotEnvelope
  pub change_sets : Dict (List ChangeSetRecord)
  pub idempotency : Dict IdempotencyMapping
  -- action-claims/ID/apply.json and action-claims/ID/rollback.json, by ID
  pub apply_claims : Dict ActionClaim
  pub rollback_claims : Dict ActionClaim
  pub publications : Dict (List PublicationJournalRecord)

abbrev pub empty : Store
empty = record {
  locked = false;
  snapshots = [];
  change_sets = [];
  idempotency = [];
  apply_claims = [];
  rollback_claims = [];
  publications = [];
}
