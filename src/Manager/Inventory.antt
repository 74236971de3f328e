-- ===== src/Manager/Inventory.antt =====
-- The hash of a live inventory (src/research/config.ts).
use tilda_mcp.Prelude.{
  ℕ, String, ◌==◌, List, [], ◌∷◌, ◌++◌, Bool, true, false, not, ◌&&◌, if◌then◌else◌, length, eqb,
  ltb, codes, is_canonical_id, is_hex_hash, every,
}
use tilda_mcp.Dict.{Dict, keys}
use tilda_mcp.Effect.Codes.{foreign}
use tilda_mcp.Effect.Check.{Result, ok, err, ◌>>=◌, ◌>>◌}
use tilda_mcp.Contracts.Hash.{str, arr, obj, Items, nil, cons, end, field, Platform}
use tilda_mcp.Authority.Grant.{no_repeats}

pub record LiveInventory : Type 0 where
  pub account_fingerprint : String
  pub project_ids : List String
  -- `Object.entries`: one entry for each name
  pub page_ownership : Dict (List String)

-- A `ConfigurationError`, which is not an error of the engine.
abbrev configured : Bool → Result (Unit {0})
configured true = ok tt
configured false = err foreign

-- Texts of digits of one length are ordered as their units are.
digits_lt : List ℕ → List ℕ → Bool
digits_lt [] bs = false
digits_lt (a ∷ as') [] = false
digits_lt (a ∷ as') (b ∷ bs) = let rest = digits_lt as' bs in if eqb a b then rest else ltb a b

-- `compareCanonicalIds(left, right) <= 0`.
unfoldable pub id_le : String → String → Bool
unfolding digits_lt
id_le a b =
    if eqb (length (codes a)) (length (codes b))
    then not (digits_lt (codes b) (codes a))
    else ltb (length (codes a)) (length (codes b))

-- A stable sort by a key.
module _ {A : Type 0} (key : A → String) where
  unfoldable pub insert_by : A → List A → List A
  insert_by x [] = x ∷ []
  insert_by x (y ∷ ys) =
      let rest = insert_by x ys in if id_le (key x) (key y) then x ∷ y ∷ ys else y ∷ rest

  unfoldable pub sort_by : List A → List A
  unfolding insert_by
  sort_by [] = []
  sort_by (x ∷ xs) = insert_by x (sort_by xs)

abbrev same_text : String → String → Bool
same_text a b = a == b

-- The pages of one project, in order.
unfoldable pub canonical_pages : List String → Result (List String)
canonical_pages ids = do
  configured (every is_canonical_id ids)
  let sorted = sort_by (λ id. id) ids
  configured (no_repeats same_text sorted)
  ok sorted

unfoldable pub canonical_entries : Dict (List String) → Result (Dict (List String))
canonical_entries [] = ok []
canonical_entries ((p, ids) ∷ rest) = do
  configured (is_canonical_id p)
  pages ← canonical_pages ids
  others ← canonical_entries rest
  ok ((p, pages) ∷ others)

unfoldable pub all_pages : Dict (List String) → List String
all_pages [] = []
all_pages ((p, ids) ∷ rest) = ids ++ all_pages rest

same_texts : List String → List String → Bool
same_texts [] [] = true
same_texts (a ∷ as') (b ∷ bs) = a == b && same_texts as' bs
same_texts _ _ = false

text_items : List String → Items
text_items [] = nil
text_items (x ∷ xs) = cons (str x) (text_items xs)

entry_items : Dict (List String) → Items
unfolding text_items
entry_items [] = nil
entry_items ((p, ids) ∷ rest) =
    cons (arr (cons (str p) (cons (arr (text_items ids)) nil))) (entry_items rest)

-- `trim`, of the platform, takes the white space off both ends.
module _ (platform : Platform) (trim : String → String) where
  -- `UNSPECIFIED` and the empty text are not digests either.
  parse_account_fingerprint : String → Result String
  parse_account_fingerprint value = do configured (is_hex_hash (trim value)); ok (trim value)

  unfoldable pub canonical_live_inventory : LiveInventory → Result String
  unfolding parse_account_fingerprint same_texts entry_items
  canonical_live_inventory i = do
    account ← parse_account_fingerprint i.account_fingerprint
    configured (every is_canonical_id i.project_ids)
    let projects = sort_by (λ id. id) i.project_ids
    configured (not (eqb (length projects) 0) && no_repeats same_text projects)
    entries ← canonical_entries i.page_ownership
    let owned = sort_by (λ e. e.0) entries
    configured (no_repeats same_text (all_pages owned))
    configured (same_texts (keys owned) projects)
    ok (
        platform.stringify (
          obj (
            field "format" (str "tilda-live-inventory-v1") (
              field "accountFingerprint" (str account) (
                field "projectIds" (arr (text_items projects))
                  (field "pageOwnership" (arr (entry_items owned)) end))))))

  unfoldable pub hash_live_inventory : LiveInventory → Result String
  unfolding canonical_live_inventory
  hash_live_inventory i = do text ← canonical_live_inventory i; ok (platform.sha256_hex text)
