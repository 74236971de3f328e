-- ===== src/Store/Kept.antt =====
-- What the operations of the store never take back (src/core/store.ts).
use tilda_mcp.Prelude.{String, ◌≡◌, ap, ◌∙◌, Option, none, some, arith}
use tilda_mcp.Dict.{Dict, lookup, insert, lookup-insert}
use tilda_mcp.Effect.State.{Outcome, final, pure}
use tilda_mcp.Effect.Keeps.{IsPreorder, Keeps}
use tilda_mcp.Effect.Cases.{attempt-cases, gets-cases, modify-cases}
use tilda_mcp.Contracts.Hash.{Platform}
use tilda_mcp.Store.{
  Store, Action, apply, rollback, ActionClaim, IdempotencyMapping, action_mapping,
}
use tilda_mcp.Store.Journal.{reads}
use tilda_mcp.Store.Claims.{ActionAttempt, unclaimed, replay, Claim, claims, bind_key, add_claim}
use tilda_mcp.Store.Attempts.{write_claim, claim_action_idempotency}
use tilda_mcp.Store.Claimed.{SameClaims, reads-cases, bind_key-SameClaims, no_clobber-eq-ok}

-- A claim that is there stays as it is.
abbrev pub KeepsClaims : Store → Store → Type 0
KeepsClaims s t =
    (a : Action) (id : String) (c : ActionClaim)
    → lookup id (claims a s) ≡ some c
    → lookup id (claims a t) ≡ some c

pub KeepsClaims-preorder : IsPreorder KeepsClaims
KeepsClaims-preorder = record {
  reflexive = λ s a id c h. h;
  transitive = λ s t u h k a id c l. k a id c (h a id c l);
}

pub same_claims : (s t : Store) → SameClaims s t → KeepsClaims s t
unfolding claims
same_claims s t h apply id c k = ap (lookup id) h.apply_claims ∙ k
same_claims s t h rollback id c k = ap (lookup id) h.rollback_claims ∙ k

lookup-insert_new :
    {V : Type 0} (i j : String) (v c : V) (d : Dict V)
    → lookup j d ≡ none
    → lookup i d ≡ some c
    → lookup i (insert j v d) ≡ some c
lookup-insert_new i j v c d h k = ground (arith, lookup-insert i j v d)

add_claim-KeepsClaims :
    (action : Action) (id : String) (c : ActionClaim) (s : Store)
    → lookup id (claims action s) ≡ none
    → KeepsClaims s (add_claim action id c s)
unfolding add_claim claims
add_claim-KeepsClaims apply id c s h apply i b k = lookup-insert_new i id c b s.apply_claims h k
add_claim-KeepsClaims apply id c s h rollback i b k = k
add_claim-KeepsClaims rollback id c s h rollback i b k =
    lookup-insert_new i id c b s.rollback_claims h k
add_claim-KeepsClaims rollback id c s h apply i b k = k

abbrev Kept : Store → Outcome Store Claim → Type 0
Kept s o = KeepsClaims s (final o)

write_claim-Kept :
    (action : Action) (id digest : String) (status : ActionAttempt) (s : Store)
    → Kept s (write_claim action id digest status s)
unfolding write_claim pure
write_claim-Kept action id digest replay s = KeepsClaims-preorder.reflexive s
write_claim-Kept action id digest unclaimed s =
    let bound =
      λ (old : Option IdempotencyMapping). bind_key digest (action_mapping action id) old s in
    let kept = λ (old : Option IdempotencyMapping).
      same_claims s (bound old) (bind_key-SameClaims digest (action_mapping action id) old s) in
    gets-cases (Kept s) s _ _ (
      attempt-cases (Kept s) s _ _
        (λ _ _. modify-cases (Kept s) s _ _ (
          reads-cases (Kept s) (bound _) _ _
            (λ _ free. modify-cases (Kept s) (bound _) _ _ (
              KeepsClaims-preorder.transitive s (bound _) _ (kept _)
                (add_claim-KeepsClaims action id _ (bound _) (no_clobber-eq-ok _ free))))
            (λ e. kept _)))
        (λ e. KeepsClaims-preorder.reflexive s))

pub claim-KeepsClaims :
    (platform : Platform) (key : String) (action : Action) (id : String)
    → Keeps KeepsClaims (claim_action_idempotency platform key action id)
unfolding claim_action_idempotency reads
claim-KeepsClaims platform key action id = record {
  at = λ s.
      attempt-cases (Kept s) s _ _
        (λ _ _.
          reads-cases (Kept s) s _ _
            (λ _ _.
              attempt-cases (Kept s) s _ _
                (λ digest _.
                  reads-cases (Kept s) s _ _
                    (λ status _. write_claim-Kept action id digest status s)
                    (λ e. KeepsClaims-preorder.reflexive s))
                (λ e. KeepsClaims-preorder.reflexive s))
            (λ e. KeepsClaims-preorder.reflexive s))
        (λ e. KeepsClaims-preorder.reflexive s);
}
