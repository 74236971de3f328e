-- ===== src/StandardField/Safety.antt =====
-- `isSafeStandardContentField` (src/core/standard-field-safety.ts). A canonical field is ASCII, so
-- lower case is that of ASCII.
use tilda_mcp.Prelude.{
  ℕ, ◌+◌, String, List, [], ◌∷◌, Bool, true, false, ◌&&◌, ◌||◌, not, leb, eqb, any, every, length,
  codes, if◌then◌else◌,
}

abbrev pub lower : ℕ → ℕ
lower c = if leb b'A' c && leb c b'Z' then c + 32 else c

abbrev is_letter : ℕ → Bool
is_letter c = (leb b'A' c && leb c b'Z') || (leb b'a' c && leb c b'z')

-- `[_:-]`.
abbrev pub is_separator : ℕ → Bool
is_separator c = eqb c b'_' || eqb c b':' || eqb c b'-'

abbrev is_field_unit : ℕ → Bool
is_field_unit c = is_letter c || (leb b'0' c && leb c b'9') || is_separator c

-- `CANONICAL_STANDARD_FIELD`.
unfoldable pub is_canonical_standard_field : List ℕ → Bool
is_canonical_standard_field [] = false
is_canonical_standard_field (c ∷ cs) = is_letter c && every is_field_unit cs && leb (length cs) 127

-- `field.toLowerCase().replace(/[_:-]/gu, "")`.
unfoldable pub normalized : List ℕ → List ℕ
normalized [] = []
normalized (c ∷ cs) =
    let rest = normalized cs in if is_separator (lower c) then rest else lower c ∷ rest

abbrev same_units : List ℕ → List ℕ → Bool
same_units [] [] = true
same_units (c ∷ cs) (d ∷ ds) = eqb c d && same_units cs ds
same_units _ _ = false

abbrev unsafe_standard_field_tokens : List String
unsafe_standard_field_tokens =
    "id" ∷ "pageid" ∷ "projectid" ∷ "recordid" ∷ "blockid" ∷ "elementid" ∷ "templateid" ∷ "parentid"
    ∷ "groupid" ∷ "uid" ∷ "pid" ∷ "lid" ∷ "tpl" ∷ "tplid" ∷ "template" ∷ "type" ∷ "recordtype"
    ∷ "recordcode" ∷ "code" ∷ "sort" ∷ "order" ∷ "ordinal" ∷ "index" ∷ "pos" ∷ "position"
    ∷ "version" ∷ "revision" ∷ "status" ∷ "deleted" ∷ "hidden" ∷ "visibility" ∷ "published"
    ∷ "publishedat" ∷ "changed" ∷ "created" ∷ "createdat" ∷ "updated" ∷ "updatedat" ∷ "alias"
    ∷ "constructor" ∷ "prototype" ∷ "tostring" ∷ "tolocalestring" ∷ "valueof" ∷ "hasownproperty"
    ∷ "isprototypeof" ∷ "propertyisenumerable" ∷ []

unfoldable pub is_unsafe_token : List ℕ → Bool
is_unsafe_token cs = any (λ t. same_units (codes t) cs) unsafe_standard_field_tokens

-- The test on the units of a field.
unfoldable pub is_safe_units : List ℕ → Bool
is_safe_units cs = is_canonical_standard_field cs && not (is_unsafe_token (normalized cs))

unfoldable pub is_safe_standard_content_field : String → Bool
unfolding is_safe_units
is_safe_standard_content_field field = is_safe_units (codes field)
