-- ===== src/Reference/State.antt =====
-- What the transport proves, and the state of the controller
-- (src/adapters/reference-page-lifecycle.ts). Receipts and tokens are compared by identity, so each
-- is a number; the transport chooses its tokens.
use tilda_mcp.Prelude.{
  ℕ, ◌+◌, String, ◌==◌, List, [], ◌∷◌, Bool, false, ◌&&◌, ◌||◌, not, ltb, eqb, every, any, length,
  Option, none, some, if◌then◌else◌, is_canonical_id,
}
use tilda_mcp.Effect.State.{Exec}
use tilda_mcp.Effect.Codes.{reference_target_invalid}
use tilda_mcp.Effect.Check.{require}
use tilda_mcp.Contracts.Targets.{PageTarget}
use tilda_mcp.Store.Checks.{Checked, distinct}

pub record ReferencePageCreateEvidence : Type 0 where
  pub source : PageTarget
  pub created : PageTarget
  pub baseline_page_ids : List String
  pub baseline_page_order : List String
  pub created_page_ids : List String
  pub created_page_order : List String
  pub source_record_ids : List String
  pub created_record_ids : List String
  pub record_family_parity : Bool
  pub created_unpublished : Bool

pub record ReferencePageCleanupEvidence : Type 0 where
  pub source : PageTarget
  pub removed_page_id : String
  pub active_page_ids : List String
  pub page_order : List String
  pub removed_page_absent : Bool
  pub source_record_ids : List String

pub record CreatedReference : Type 0 where
  pub token : ℕ
  pub evidence : ReferencePageCreateEvidence

-- `ReferencePageTransport`, and the source of random UUIDs.
pub record ReferencePageTransport (E : Type 0) : Type 0 where
  pub create_from_reference : PageTarget → Exec E CreatedReference
  pub cleanup_created_reference : ℕ → Exec E ReferencePageCleanupEvidence
  pub random_uuid : E → String × E

pub record Lifecycle (E : Type 0) : Type 0 where
  -- the tokens by the identity of their receipt
  pub tokens : List (ℕ × ℕ)
  pub eligible_receipts : List ℕ
  pub next_object : ℕ
  pub outside : E

unfoldable pub token_of : ℕ → List (ℕ × ℕ) → Option ℕ
token_of n [] = none
token_of n ((m, t) ∷ ts) = let rest = token_of n ts in if eqb n m then some t else rest

unfoldable pub delete_token : ℕ → List (ℕ × ℕ) → List (ℕ × ℕ)
delete_token n [] = []
delete_token n ((m, t) ∷ ts) =
    let rest = delete_token n ts in if eqb n m then rest else (m, t) ∷ rest

unfoldable pub assert_page : PageTarget → Checked
assert_page t =
    require (is_canonical_id t.project_id && is_canonical_id t.page_id) reference_target_invalid

abbrev pub includes : List String → String → Bool
includes xs x = any (λ y. y == x) xs

unfoldable pub has_canonical_ids : List String → Bool → Bool
has_canonical_ids ids allow_empty =
    (allow_empty || ltb 0 (length ids)) && every is_canonical_id ids && distinct ids

-- `ids.filter((id) => !baseline.includes(id))`.
unfoldable pub added : List String → List String → List String
added baseline [] = []
added baseline (x ∷ xs) =
    let rest = added baseline xs in if includes baseline x then rest else x ∷ rest

abbrev is_only : List String → String → Bool
is_only (x ∷ []) y = x == y
is_only _ y = false

-- The test of `createPageFromReference`, as what has to hold.
unfoldable pub proves_clone : PageTarget → ReferencePageCreateEvidence → Bool
proves_clone source e =
    e.source.project_id == source.project_id
    && e.source.page_id == source.page_id
    && e.created.project_id == source.project_id
    && not (e.created.page_id == source.page_id)
    && e.record_family_parity
    && e.created_unpublished
    && has_canonical_ids e.baseline_page_ids false
    && has_canonical_ids e.baseline_page_order false
    && has_canonical_ids e.created_page_ids false
    && has_canonical_ids e.created_page_order false
    && eqb (length e.baseline_page_ids) (length e.baseline_page_order)
    && eqb (length e.created_page_ids) (length e.created_page_order)
    && eqb (length e.created_page_ids) (length e.baseline_page_ids + 1)
    && includes e.baseline_page_ids source.page_id
    && includes e.created_page_ids e.created.page_id
    && every (includes e.created_page_ids) e.baseline_page_ids
    && ltb 0 (length e.source_record_ids)
    && has_canonical_ids e.source_record_ids false
    && has_canonical_ids e.created_record_ids false
    && eqb (length e.created_record_ids) (length e.source_record_ids)
    && not (any (includes e.source_record_ids) e.created_record_ids)
    && is_only (added e.baseline_page_ids e.created_page_ids) e.created.page_id
