-- ===== src/Engine/WalkPlan.antt =====
-- `plan` walked by the rules of a quiet relation (src/core/engine.ts).
use mathlib.Core.List.{Memᴰ}
use tilda_mcp.Prelude.{String, ◌≡◌, Option, none, some, List, [], ◌∷◌, arith, Bool-cases, inl, inr}
use tilda_mcp.Effect.Codes.{Failure}
use tilda_mcp.Effect.Check.{ok}
use tilda_mcp.Effect.Keeps.{
  Keeps, Keeps-pure, Keeps-attempt, Keeps-bind, Keeps-bind-attempt, Keeps-catch,
}
use tilda_mcp.Contracts.Requests.{ChangeRequest}
use tilda_mcp.Contracts.Adapters.{ChangeAdapter, Host}
use tilda_mcp.Contracts.Records.{ChangeSetRecord, SnapshotEnvelope, ChangeSetTaskAuthority}
use tilda_mcp.Store.Journal.{
  create_snapshot, discard_unreferenced_snapshot, create_change_set, find_by_idempotency_key,
}
use tilda_mcp.Engine.World.{World, VolatileChangeMaterial, on_store}
use tilda_mcp.Engine.Registry.{supporting, exactly_one, for_request}
use tilda_mcp.Engine.Plan.{
  raise, keep_material, keep_journal, plan_new, plan_known, plan_locked, plan,
}
use tilda_mcp.Engine.Quiet.{
  Quiet, checked_read-Keeps, put-Keeps, delete-Keeps, with_mutation_lock-Keeps,
}

-- The store's operations that only `plan` calls keep the relation.
pub record PlanQuiet {E : Type 0} (host : Host E) (R : World E → World E → Type 0) : Type 0 where
  pub quiet : Quiet host R
  pub snapshot : (s : SnapshotEnvelope) → Keeps R (on_store (create_snapshot s))
  pub discard : (id : String) → Keeps R (on_store (discard_unreferenced_snapshot id))
  pub creation :
      (r : ChangeSetRecord) (key : Option String)
      → Keeps R (on_store (create_change_set host.platform r key))
  pub search_key : (key : String) → Keeps R (on_store (find_by_idempotency_key host.platform key))

cons_mono :
    {A : Type 0} {a b : A} {xs ys : List A}
    → (Memᴰ a xs → Memᴰ a ys)
    → Memᴰ a (b ∷ xs)
    → Memᴰ a (b ∷ ys)
cons_mono f (Memᴰ.head e) = Memᴰ.head e
cons_mono f (Memᴰ.tail m) = Memᴰ.tail (f m)

supporting-mem :
    {E : Type 0} (as' : List (ChangeAdapter E)) (r : ChangeRequest) (a : ChangeAdapter E)
    → Memᴰ a (supporting r as')
    → Memᴰ a as'
unfolding supporting
supporting-mem [] r a h = h
supporting-mem (b ∷ as') r a h = elim (Bool-cases (b.supports r)) [
  | inl does ↦ cons_mono (supporting-mem as' r a) (rw does at h)
  | inr does_not ↦ Memᴰ.tail (supporting-mem as' r a (rw does_not at h))
]

exactly_one-mem :
    {E : Type 0} (bs : List (ChangeAdapter E)) (a : ChangeAdapter E)
    → exactly_one bs ≡ ok a
    → Memᴰ a bs
unfolding exactly_one
exactly_one-mem [] a h = cc
exactly_one-mem (b ∷ []) a h = Memᴰ.head (ground arith)
exactly_one-mem (b ∷ c ∷ bs) a h = cc

for_request-mem :
    {E : Type 0} (as' : List (ChangeAdapter E)) (r : ChangeRequest) (a : ChangeAdapter E)
    → for_request as' r ≡ ok a
    → Memᴰ a as'
unfolding for_request
for_request-mem as' r a h = supporting-mem as' r a (exactly_one-mem (supporting r as') a h)

module _ {E : Type 0} {host : Host E} {R : World E → World E → Type 0} (p : PlanQuiet host R) where
  open p use {quiet, snapshot, discard, creation, search_key}
  open p.quiet use {preorder, clock, uuid}

  raise-Keeps : {A : Type 0} (e : Failure) → Keeps R {A = A} (raise e)
  raise-Keeps e = record { at = λ w. preorder.reflexive w }

  keep_material-Keeps :
      (id : String) (m : VolatileChangeMaterial) (a : ChangeAdapter E)
      → Keeps R (keep_material host id m a)
  unfolding keep_material
  keep_material-Keeps id m a =
      Keeps-catch preorder
        (Keeps-bind preorder (put-Keeps quiet id m)
          λ _. Keeps-bind preorder uuid λ snapshot_id. Keeps-bind preorder clock λ t. snapshot _)
        (λ e. Keeps-bind preorder (delete-Keeps quiet id) λ _. raise-Keeps e)

  keep_journal-Keeps :
      (r : ChangeSetRecord) (key : Option String) → Keeps R (keep_journal host r key)
  unfolding keep_journal
  keep_journal-Keeps r key = Keeps-catch preorder (creation r key) (λ e.
      Keeps-bind preorder (delete-Keeps quiet _) λ _.
        Keeps-bind preorder (Keeps-catch preorder (discard _) (λ _. Keeps-pure preorder tt))
          λ _. raise-Keeps e)

  module _ (request : ChangeRequest) (authority : Option ChangeSetTaskAuthority) where
    plan_new-Keeps : (key : Option String) → Keeps R (plan_new host request key authority)
    unfolding plan_new
    plan_new-Keeps key = Keeps-bind-attempt preorder _ _ λ a known.
        Keeps-bind preorder
          (checked_read-Keeps quiet a (for_request-mem host.adapters request a known) _)
          λ before. Keeps-bind preorder (Keeps-attempt preorder _) λ mutation.
            Keeps-bind preorder (Keeps-attempt preorder _) λ _.
              Keeps-bind preorder (Keeps-attempt preorder _) λ _.
                Keeps-bind preorder (Keeps-attempt preorder _) λ _. Keeps-bind preorder uuid λ id.
                  Keeps-bind preorder clock λ t.
                    Keeps-bind preorder (keep_material-Keeps id _ a)
                      λ s. Keeps-bind preorder (keep_journal-Keeps _ key) λ r. Keeps-pure preorder _

    plan_known-Keeps :
        (key : Option String) (existing : Option ChangeSetRecord)
        → Keeps R (plan_known host request key authority existing)
    unfolding plan_known
    plan_known-Keeps key none = plan_new-Keeps key
    plan_known-Keeps key (some r) =
        Keeps-bind preorder (Keeps-attempt preorder _) λ _. Keeps-pure preorder _

    plan_locked-Keeps : (key : Option String) → Keeps R (plan_locked host request key authority)
    unfolding plan_locked
    plan_locked-Keeps none = plan_new-Keeps none
    plan_locked-Keeps (some key) =
        Keeps-bind preorder (search_key key) λ existing. plan_known-Keeps (some key) existing

    pub plan-Keeps : (key : Option String) → Keeps R (plan host request key authority)
    unfolding plan
    plan-Keeps key = with_mutation_lock-Keeps quiet (plan_locked-Keeps key)
