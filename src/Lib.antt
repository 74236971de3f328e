-- ===== src/Lib.antt =====
-- A model of the core of tilda-mcp: change sets that are planned, applied, verified and rolled
-- back on a remote site editor, with a durable journal that makes every remote write happen at
-- most once, and the authority of a task that bounds what may be written.
--
-- Parts and files
--   Contracts (src/core/contracts.ts, src/research/hash.ts): exact targets, change requests, the
--     records of the journal, the port to the adapters, and the canonical hash.
--   Store (src/core/store.ts): the durable store. Store/Checks are its assertions,
--     Store/Transition what may follow what in a journal, Store/Read the loading of journals,
--     Store/Journal snapshots and change sets, Store/Claims and Store/Attempts the claims of
--     actions and the publication journal. Proofs: Store/Loaded, Store/Identity,
--     Store/RoundTrip, Store/Claimed, Store/Kept, Store/Grows.
--   Engine (src/core/engine.ts, src/core/vault.ts, src/adapters/registry.ts): Engine/Plan,
--     Engine/Apply, Engine/Verify and Engine/Rollback are the methods plan (and query), apply,
--     verify and rollback; Engine/World the state, with withMutationLock of the store;
--     Engine/Vault and Engine/Registry the vault and the registry; Engine/Calls and
--     Engine/Outcomes the steps that the methods share. Proofs: Engine/Quiet, Engine/Walk and
--     Engine/WalkPlan walk the methods once for every relation that they keep; Engine/Once,
--     Engine/Budget, Engine/Frozen, Engine/Reading, Engine/Durable, Engine/Permanent, Engine/Lock
--     and Engine/Settled use them, the last with Engine/Sights, a log of what the adapters have
--     shown. Engine/Unique is about the registry.
--   Authority (src/core/task-authority.ts): Authority/Scope are the scopes, Authority/Grant the
--     checks of a grant, Authority/Hash the hash of a grant, Authority/Guard the checks of
--     TaskAuthorityGuard. Proofs: Authority/Paths, Authority/Isolation.
--   Publication (src/core/publication.ts, src/adapters/session.ts): Publication/Data are the helpers
--     and the port to the sessions, Publication/Reread #readAfterDispatch, Publication/Replay
--     #reconcileReplay, Publication/Execute execute. Proofs: Publication/Walk walks execute once,
--     Publication/Session are sessions; Publication/Stable, Publication/Paid, Publication/Once,
--     Publication/Waiting, Publication/Final, Publication/Settles and Publication/Result use them,
--     with Store/Published and Store/PublicationClaims on the journals.
--   Manager (src/core/task-authority-manager.ts, and hashLiveInventory of src/research/config.ts):
--     Manager/State is the state, Manager/Inventory the hash of an inventory, Manager/Input the
--     checks of what a caller gives, Manager/Guarded the methods of a guard with the manager's
--     callbacks, Manager/Leases what blocks and ends an authority, Manager/Lifetime mint and
--     replace, Manager/Lineage the verified transitions of the inventory. Proofs: Manager/Session,
--     Manager/Same, Manager/Tokens, Manager/Revoked, Manager/Ended, Manager/Retired, Manager/Pinned, Manager/Exclusive,
--     Manager/Uninterrupted.
--   Scoped (src/core/task-authority.ts): Scoped/Engine is TaskScopedChangeSetEngine, Scoped/Publication
--     TaskScopedPublicationController, Scoped/Calls what they share. Proofs: Scoped/Untouched,
--     Scoped/Refused, Scoped/Released, Scoped/Freed, Scoped/Owned.
--   T123 (src/adapters/t123-code-helper.ts): T123/Data are texts and results, T123/Spans the spans of
--     literal matches and their replacement, T123/Structure the structural inspection, T123/Plan
--     the plan of an edit. Proofs: T123/Replace, T123/Bounds, T123/Weaving, T123/Once.
--   StandardField (src/core/standard-field-safety.ts): StandardField/Safety is the test of a field's
--     name. Proof: StandardField/Disguise.
--   Reference (src/adapters/reference-page-lifecycle.ts): Reference/State is what the transport proves,
--     Reference/Controller ReferencePageLifecycleController. Proof: Reference/Session.
--   Effect: methods as functions from a state to an outcome, which keeps the state also where the
--     method throws; Prelude and Dict: shared helpers and maps. Tests: runs on a small editor.
--
-- How they interact. The engine calls the store, the vault, the registry and the adapters. A
-- World holds the store, the vault and `outside`, which is everything behind the adapters, the
-- clock and the source of random identifiers: their type and functions are parameters (Host), so
-- an adapter may answer anything, throw, or change the outside at any call. A session
-- (Engine/Session) is a list of calls of the four methods with any arguments.
--
-- The controller of publications works on the same World, through a port to the sessions
-- (PublicationHost). The manager has a state of its own (Process) with its own outside, the clock
-- and the source of task identifiers (AuthorityHost). The controllers scoped to a task work on a
-- World whose outside is a Process: a call to the editor may change the manager, as other calls do
-- while the program awaits it.
--
-- Representation. A timestamp is the number of milliseconds that its ISO text denotes. JSON values
-- are typed, so a test that a value has the right shape holds by construction. A folder is a map
-- from names to contents, the folder of a journal the list of its events. A file system call that
-- the program may make succeeds, and a new file takes no name that is there. An error is a code, or
-- `foreign` for an error that is not the program's. The methods use no fuel: each is a composition
-- of functions that end.
--
-- The clock of a publication's claim is read also where the key is known, since the claim takes the
-- time as an argument; the source reads it for a new key only. A revoked guard has the time 0 in
-- place of the one that it does not read.
--
-- An object that the program compares by identity is a number that no earlier object has.
--
-- Not modelled: paths, permissions and symbolic links of the file system; the order of folder
-- names, which decides only which of several corrupt journals is reported; guards that no manager
-- made; the verifier of public pages; the controller that ties
-- reference pages to a task, and that of known templates; the extraction of
-- external dependencies from a code; the adapters, the browser control, the research tools but the
-- hash of an inventory, the learning workflow and the MCP surface.
pub mod Prelude
pub mod Effect
pub mod Contracts
pub mod Dict
pub mod Store
pub mod Engine
pub mod Authority
pub mod Publication
pub mod Manager
pub mod Scoped
pub mod StandardField
pub mod Reference
pub mod T123
pub mod Tests
