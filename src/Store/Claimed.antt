-- ===== src/Store/Claimed.antt =====
-- Which operations of the store leave the claims of actions as they are, and what a claim adds
-- (src/core/store.ts).
use tilda_mcp.Prelude.{suc, String, ◌≡◌, refl, ap, ◌∙◌, Option, none, some, arith, length}
use tilda_mcp.Dict.{lookup, length-insert_new}
use tilda_mcp.Effect.Check.{Result, ok, no_clobber}
use tilda_mcp.Effect.Codes.{Failure}
use tilda_mcp.Effect.State.{Exec, Outcome, returned, threw, modify, pure, ◌>>=◌}
use tilda_mcp.Effect.Cases.{attempt-cases, gets-cases, modify-cases}
use tilda_mcp.Effect.Keeps.{IsPreorder, Keeps, Keeps-attempt, Keeps-bind, Keeps-pure, Keeps-gets}
use tilda_mcp.Contracts.Hash.{Platform}
use tilda_mcp.Contracts.Records.{ChangeSetRecord, SnapshotEnvelope}
use tilda_mcp.Store.{
  Store, Action, apply, rollback, ActionClaim, IdempotencyMapping, action_mapping,
}
use tilda_mcp.Store.Journal.{
  reads, create_snapshot, discard_unreferenced_snapshot, create_change_set, append_change_set,
  find_by_idempotency_key,
}
use tilda_mcp.Store.Claims.{
  ActionAttempt, unclaimed, replay, Claim, claimed_now, replayed, claims, bind_key, add_claim,
}
use tilda_mcp.Store.Attempts.{write_claim, claim_action_idempotency}

-- Reading keeps every preorder on stores.
pub reads-Keeps :
    {R : Store → Store → Type 0}
    → IsPreorder R
    → {A : Type 0} (f : Store → Result A) → Keeps R (reads f)
unfolding reads
reads-Keeps pre f = record { at = λ s. (Keeps-attempt pre (f s)).at s }

-- Cases on what a read returns.
module _ {A B : Type 0} (Q : Outcome Store B → Type 0) (s : Store) where
  pub reads-cases :
      (g : Store → Result A) (f : A → Exec Store B)
      → ((a : A) → g s ≡ ok a → Q (f a s))
      → ((e : Failure) → Q (threw e s))
      → Q ((reads g >>= f) s)
  unfolding reads ◌>>=◌
  reads-cases g f k l = attempt-cases Q s (g s) f k l

pub record SameClaims (s t : Store) : Type 0 where
  pub apply_claims : t.apply_claims ≡ s.apply_claims
  pub rollback_claims : t.rollback_claims ≡ s.rollback_claims

SameClaims-preorder : IsPreorder SameClaims
SameClaims-preorder = record {
  reflexive = λ s. record { apply_claims = refl; rollback_claims = refl };
  transitive = λ s t u h k. record {
    apply_claims = k.apply_claims ∙ h.apply_claims;
    rollback_claims = k.rollback_claims ∙ h.rollback_claims;
  };
}

-- A change of the other folders.
SameClaims-modify :
    (f : Store → Store) → ((s : Store) → SameClaims s (f s)) → Keeps SameClaims (modify f)
unfolding modify
SameClaims-modify f h = record { at = h }

abbrev pre : IsPreorder SameClaims
pre = SameClaims-preorder

unchanged : {s : Store} → SameClaims s s
unchanged = record { apply_claims = refl; rollback_claims = refl }

pub append_change_set-SameClaims : (r : ChangeSetRecord) → Keeps SameClaims (append_change_set r)
unfolding append_change_set
append_change_set-SameClaims r = Keeps-bind pre (Keeps-attempt pre _) λ _.
    Keeps-bind pre (reads-Keeps pre _) λ history. Keeps-bind pre (Keeps-attempt pre _) λ current.
      Keeps-bind pre (Keeps-attempt pre _) λ _.
        Keeps-bind pre (Keeps-attempt pre _)
          λ _. Keeps-bind pre (SameClaims-modify _ (λ s. ground arith)) λ _. Keeps-pure pre r

pub create_snapshot-SameClaims : (s : SnapshotEnvelope) → Keeps SameClaims (create_snapshot s)
unfolding create_snapshot
create_snapshot-SameClaims s = Keeps-bind pre (Keeps-attempt pre _) λ _.
    Keeps-bind pre (reads-Keeps pre _)
      λ _. Keeps-bind pre (SameClaims-modify _ (λ s. ground arith)) λ _. Keeps-pure pre s

pub discard-SameClaims : (id : String) → Keeps SameClaims (discard_unreferenced_snapshot id)
unfolding discard_unreferenced_snapshot
discard-SameClaims id = Keeps-bind pre (Keeps-attempt pre _) λ _.
    Keeps-bind pre (reads-Keeps pre _)
      λ _. Keeps-bind pre (Keeps-attempt pre _) λ _. SameClaims-modify _ (λ s. ground arith)

pub find_by_idempotency_key-SameClaims :
    (platform : Platform) (key : String) → Keeps SameClaims (find_by_idempotency_key platform key)
unfolding find_by_idempotency_key
find_by_idempotency_key-SameClaims platform key =
    Keeps-bind pre (Keeps-attempt pre _) λ _. reads-Keeps pre _

pub create_change_set-SameClaims :
    (platform : Platform) (r : ChangeSetRecord) (key : Option String)
    → Keeps SameClaims (create_change_set platform r key)
unfolding create_change_set
create_change_set-SameClaims platform r none = Keeps-bind pre (Keeps-attempt pre _) λ _.
    Keeps-bind pre (Keeps-attempt pre _) λ _. Keeps-bind pre (Keeps-attempt pre _) λ _.
      Keeps-bind pre (Keeps-gets pre _) λ there.
        Keeps-bind pre (Keeps-attempt pre _)
          λ _. Keeps-bind pre (SameClaims-modify _ (λ s. ground arith)) λ _. Keeps-pure pre _
create_change_set-SameClaims platform r (some key) = Keeps-bind pre (Keeps-attempt pre _) λ _.
    Keeps-bind pre (Keeps-attempt pre _) λ _. Keeps-bind pre (Keeps-attempt pre _) λ digest.
      Keeps-bind pre (reads-Keeps pre _) λ bound. Keeps-bind pre (Keeps-attempt pre _) λ _.
        Keeps-bind pre (Keeps-attempt pre _) λ _. Keeps-bind pre (Keeps-gets pre _) λ there.
          Keeps-bind pre (Keeps-attempt pre _) λ _. Keeps-bind pre (Keeps-gets pre _) λ taken.
            Keeps-bind pre (Keeps-attempt pre _)
              λ _. Keeps-bind pre (SameClaims-modify _ (λ s. ground arith)) λ _. Keeps-pure pre _

-- A claim of an action is one more file of that action.
abbrev pub Added : Action → Store → Store → Type 0
Added apply s t =
    (length t.apply_claims ≡ suc (length s.apply_claims)) × (t.rollback_claims ≡ s.rollback_claims)
Added rollback s t =
    (length t.rollback_claims ≡ suc (length s.rollback_claims)) × (t.apply_claims ≡ s.apply_claims)

abbrev pub Earned : Action → Store → Outcome Store Claim → Type 0
Earned action s (returned claimed_now t) = Added action s t
Earned action s (returned replayed t) = SameClaims s t
Earned action s (threw e t) = SameClaims s t

pub bind_key-SameClaims :
    (digest : String) (m : IdempotencyMapping) (old : Option IdempotencyMapping) (s : Store)
    → SameClaims s (bind_key digest m old s)
unfolding bind_key
bind_key-SameClaims digest m none s = ground arith
bind_key-SameClaims digest m (some k) s = ground arith

add_claim-Added :
    (action : Action) (id : String) (c : ActionClaim) (s t : Store)
    → lookup id (claims action t) ≡ none
    → SameClaims s t
    → Added action s (add_claim action id c t)
unfolding add_claim claims
add_claim-Added apply id c s t h k = (
  length-insert_new id c t.apply_claims h ∙ ap (λ d. suc (length d)) k.apply_claims,
  k.rollback_claims,
)
add_claim-Added rollback id c s t h k = (
  length-insert_new id c t.rollback_claims h ∙ ap (λ d. suc (length d)) k.rollback_claims,
  k.apply_claims,
)

pub no_clobber-eq-ok : {A : Type 0} (o : Option A) → no_clobber o ≡ ok tt → o ≡ none
no_clobber-eq-ok none h = refl
no_clobber-eq-ok (some a) h = cc

write_claim-Earned :
    (action : Action) (id digest : String) (status : ActionAttempt) (s : Store)
    → Earned action s (write_claim action id digest status s)
unfolding write_claim pure
write_claim-Earned action id digest replay s = unchanged
write_claim-Earned action id digest unclaimed s =
    let bound =
      λ (old : Option IdempotencyMapping). bind_key digest (action_mapping action id) old s in
    gets-cases Q s _ _ (
      attempt-cases Q s _ _
        (λ _ _. modify-cases Q s _ _ (
          reads-cases Q (bound _) _ _
            (λ _ free. modify-cases Q (bound _) _ _ (
              add_claim-Added action id _ s (bound _) (no_clobber-eq-ok _ free)
                (bind_key-SameClaims digest _ _ s)))
            (λ e. bind_key-SameClaims digest _ _ s)))
        (λ e. unchanged))
  where
    Q : Outcome Store Claim → Type 0
    Q = Earned action s

pub claim-Earned :
    (platform : Platform) (key : String) (action : Action) (id : String) (s : Store)
    → Earned action s (claim_action_idempotency platform key action id s)
unfolding claim_action_idempotency reads
claim-Earned platform key action id s =
    attempt-cases (Earned action s) s _ _
      (λ _ _.
        reads-cases (Earned action s) s _ _
          (λ _ _.
            attempt-cases (Earned action s) s _ _
              (λ digest _.
                reads-cases (Earned action s) s _ _
                  (λ status _. write_claim-Earned action id digest status s) (λ e. unchanged))
              (λ e. unchanged))
          (λ e. unchanged))
      (λ e. unchanged)
