-- ===== src/Manager/Input.antt =====
-- The checks of what a caller gives to the manager (src/core/task-authority-manager.ts).
use tilda_mcp.Prelude.{
  ℕ, String, ◌<>◌, ◌==◌, Option, none, some, Bool, false, not, ◌||◌, ◌&&◌, eqb, ltb, codes,
  is_blank, utf8_length,
}
use tilda_mcp.Effect.Codes.{
  task_description_invalid, task_description_too_large, task_authority_ttl_invalid,
  task_inventory_invalid,
}
use tilda_mcp.Effect.Check.{Result, ok, err, reject_if, ◌>>◌}
use tilda_mcp.Contracts.Hash.{Platform}
use tilda_mcp.Store.Checks.{Checked}
use tilda_mcp.Authority.Grant.{TaskAccountBinding, max_task_authority_ttl_ms}
use tilda_mcp.Manager.Inventory.{LiveInventory, hash_live_inventory}

abbrev pub default_task_authority_ttl_ms : ℕ
default_task_authority_ttl_ms = 900000

abbrev pub max_task_description_bytes : ℕ
max_task_description_bytes = 16384

unfoldable pub assert_task_description : String → Checked
assert_task_description value = do
  reject_if (is_blank (codes value)) task_description_invalid
  reject_if (ltb max_task_description_bytes (utf8_length (codes value))) task_description_too_large

abbrev ttl_or_default : Option ℕ → ℕ
ttl_or_default none = default_task_authority_ttl_ms
ttl_or_default (some t) = t

unfoldable pub bounded_ttl : Option ℕ → Result ℕ
bounded_ttl value = do
  reject_if (eqb (ttl_or_default value) 0 || ltb max_task_authority_ttl_ms (ttl_or_default value))
      task_authority_ttl_invalid
  ok (ttl_or_default value)

unfoldable pub instruction_hash : Platform → String → String
instruction_hash platform description =
    "sha256:" <> platform.sha256_hex ("tilda-mcp-task-instruction-v1\0" <> description)

-- An error of the hash is reported as a malformed inventory.
abbrev hash_matches : TaskAccountBinding → LiveInventory → Result String → Bool
hash_matches b i (err e) = false
hash_matches b i (ok digest) =
    i.account_fingerprint == b.account_fingerprint && digest == b.inventory_hash

unfoldable pub trusted_inventory :
    Platform
    → (String → String)
    → Option LiveInventory
    → TaskAccountBinding
    → Result (Option LiveInventory)
trusted_inventory platform trim none binding = ok none
trusted_inventory platform trim (some i) binding = do
  reject_if (not (hash_matches binding i (hash_live_inventory platform trim i)))
      task_inventory_invalid
  ok (some i)

-- The latest time that a date can denote.
abbrev pub max_date_ms : ℕ
max_date_ms = 8640000000000000
