-- ===== src/Engine/Permanent.antt =====
-- What no session takes back: claims and the events of journals (src/core/engine.ts).
use tilda_mcp.Prelude.{String, ◌≡◌, refl, Option, some, Bool, List, ◌++◌}
use tilda_mcp.Dict.{lookup}
use tilda_mcp.Effect.State.{final}
use tilda_mcp.Effect.Keeps.{Keeps-weaken}
use tilda_mcp.Contracts.Hash.{Platform}
use tilda_mcp.Contracts.Adapters.{Host}
use tilda_mcp.Contracts.Records.{ChangeSetRecord}
use tilda_mcp.Store.{Store, Action, ActionClaim}
use tilda_mcp.Store as TheStore
use tilda_mcp.Store.Claims.{claims}
use tilda_mcp.Store.Claimed.{
  append_change_set-SameClaims, create_snapshot-SameClaims, discard-SameClaims,
  create_change_set-SameClaims, find_by_idempotency_key-SameClaims,
}
use tilda_mcp.Store.Kept.{KeepsClaims, KeepsClaims-preorder, same_claims, claim-KeepsClaims}
use tilda_mcp.Store.Grows.{
  Grows, Grows-preorder, create_snapshot-Grows, discard-Grows, find_by_idempotency_key-Grows,
  claim-Grows, append_change_set-Grows, create_change_set-Grows,
}
use tilda_mcp.Engine.World.{World}
use tilda_mcp.Engine.Durable.{Durable, after-Durable}
use tilda_mcp.Engine.Session.{Call, after}
use tilda_mcp.Engine.Apply.{apply}
use tilda_mcp.Engine.Rollback.{rollback}
use tilda_mcp.Engine.Once.{Meter}
use tilda_mcp.Engine.Frozen.{apply-frozen, rollback-frozen}

claims_durable : (platform : Platform) → Durable platform KeepsClaims
claims_durable platform = record {
  preorder = KeepsClaims-preorder;
  lock = λ b s. same_claims s _ (record { apply_claims = refl; rollback_claims = refl });
  append = λ r. Keeps-weaken same_claims (append_change_set-SameClaims r);
  snapshot = λ s. Keeps-weaken same_claims (create_snapshot-SameClaims s);
  discard = λ id. Keeps-weaken same_claims (discard-SameClaims id);
  creation = λ r key. Keeps-weaken same_claims (create_change_set-SameClaims platform r key);
  search_key = λ key. Keeps-weaken same_claims (find_by_idempotency_key-SameClaims platform key);
  claim = claim-KeepsClaims platform;
}

journals_durable : (platform : Platform) → Durable platform Grows
journals_durable platform = record {
  preorder = Grows-preorder;
  lock = λ b s. Grows-preorder.reflexive s;
  append = λ r. record { at = λ s. append_change_set-Grows s r };
  snapshot = create_snapshot-Grows;
  discard = discard-Grows;
  creation = λ r key. record { at = λ s. create_change_set-Grows s platform r key };
  search_key = find_by_idempotency_key-Grows platform;
  claim = claim-Grows platform;
}

module _ {E : Type 0} (host : Host E) (cs : List Call) (w : World E) where
  -- A claim that the store holds before a session stands unchanged after it.
  pub after-claims :
      (a : Action) (id : String) (c : ActionClaim)
      → lookup id (claims a w.store) ≡ some c
      → lookup id (claims a (after host cs w).store) ≡ some c
  after-claims = after-Durable host (claims_durable host.platform) cs w

  -- The journal of a ChangeSet after a session is the journal before it with events added at the
  -- end: none is removed, changed or moved, and no journal disappears.
  pub after-journal :
      (id : String) (h : List ChangeSetRecord)
      → lookup id w.store.change_sets ≡ some h
      → (added : List ChangeSetRecord) × (lookup id (after host cs w).store.change_sets
          ≡ some (h ++ added))
  after-journal = after-Durable host (journals_durable host.platform) cs w

module _ {E : Type 0} {host : Host E} (m : Meter host) (cs : List Call) (w : World E) where
  -- By any count of writes that reads, the clock and random identifiers leave alone: once the
  -- store holds an apply claim of a ChangeSet, no apply of it writes to a target at any time
  -- later, whatever calls come between, and whatever its key and the adapters' answers.
  pub later_apply-frozen :
      (id : String) (dry_run : Bool) (key : Option String) (c : ActionClaim)
      → lookup id w.store.apply_claims ≡ some c
      → m.writes (final (apply host id dry_run key (after host cs w))).outside
        ≡ m.writes (after host cs w).outside
  unfolding claims
  later_apply-frozen id dry_run key c h =
      apply-frozen m id dry_run key (after host cs w) c
        (after-claims host cs w TheStore.apply id c h)

  -- By any count of writes that reads, the clock and random identifiers leave alone:
  -- once the store holds a rollback claim of a ChangeSet, no rollback of it writes to a target at
  -- any time later.
  pub later_rollback-frozen :
      (id : String) (dry_run : Bool) (key : Option String) (c : ActionClaim)
      → lookup id w.store.rollback_claims ≡ some c
      → m.writes (final (rollback host id dry_run key (after host cs w))).outside
        ≡ m.writes (after host cs w).outside
  unfolding claims
  later_rollback-frozen id dry_run key c h =
      rollback-frozen m id dry_run key (after host cs w) c
        (after-claims host cs w TheStore.rollback id c h)
