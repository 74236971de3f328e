-- ===== src/Contracts/Hash.antt =====
-- The canonical hash of a value (src/research/hash.ts), and the JSON values of requests and
-- targets. `localeCompare`, `JSON.stringify` and SHA-256 are the platform's: parameters.
use tilda_mcp.Prelude.{String, ◌<>◌, List, [], ◌∷◌, Bool, if◌then◌else◌}
use tilda_mcp.Contracts.Targets.{
  ExactTarget, project_target, page_target, record_target, element_target,
}
use tilda_mcp.Contracts.Requests.{
  ChangeRequest, standard_field, t123_code, zero_leaf, zero_responsive, zero_shape, zero_property,
  zero_element, page_seo, page_head, Offset, BasicZeroElementType, ZeroPrimitiveValue, a_string,
  a_number, a_boolean, a_null, ZeroPrimitiveKind, string_kind, number_kind, boolean_kind, null_kind,
  T123CodeEditRequest, full_replace, replace_once, replace_literals, T123LiteralReplacement, target,
}

mutual
  pub data Json : Type 0 where
    null : Json
    bool : Bool → Json
    num : String → Json
    str : String → Json
    arr : Items → Json
    obj : Fields → Json

  pub data Items : Type 0 where
    nil : Items
    cons : Json → Items → Items

  pub data Fields : Type 0 where
    end : Fields
    field : String → Json → Fields → Fields

pub record Platform : Type 0 where
  -- `left.localeCompare(right) <= 0`
  pub locale_le : String → String → Bool
  pub stringify : Json → String
  -- the digest in lower-case hexadecimal
  pub sha256_hex : String → String

module _ (platform : Platform) where
  open platform use {locale_le, stringify, sha256_hex}

  -- A stable sort of the entries by key.
  insert_field : String → Json → Fields → Fields
  insert_field k v end = field k v end
  insert_field k v (field j w fs) =
      if locale_le k j then field k v (field j w fs) else field j w (insert_field k v fs)

  unfoldable mutual
    unfolding insert_field

    pub normalize : Json → Json
    normalize null = null
    normalize (bool b) = bool b
    normalize (num n) = num n
    normalize (str s) = str s
    normalize (arr xs) = arr (normalize_items xs)
    normalize (obj fs) = obj (normalize_fields fs)

    pub normalize_items : Items → Items
    normalize_items nil = nil
    normalize_items (cons x xs) = cons (normalize x) (normalize_items xs)

    pub normalize_fields : Fields → Fields
    normalize_fields end = end
    normalize_fields (field k v fs) = insert_field k (normalize v) (normalize_fields fs)

  unfoldable pub canonical_json : Json → String
  canonical_json value = stringify (normalize value)

  unfoldable pub canonical_hash : Json → String
  unfolding canonical_json
  canonical_hash value = "sha256:" <> sha256_hex (canonical_json value)

unfoldable pub target_json : ExactTarget → Json
target_json (project_target p) = obj (field "kind" (str "project") (field "projectId" (str p) end))
target_json (page_target p g) =
    obj (field "kind" (str "page") (field "projectId" (str p) (field "pageId" (str g) end)))
target_json (record_target p g r) = obj (
    field "kind" (str "record")
      (field "projectId" (str p) (field "pageId" (str g) (field "recordId" (str r) end))))
target_json (element_target p g r e) = obj (
    field "kind" (str "element") (
      field "projectId" (str p)
        (field "pageId" (str g) (field "recordId" (str r) (field "elementId" (str e) end)))))

element_type : BasicZeroElementType → String
element_type BasicZeroElementType.text = "text"
element_type BasicZeroElementType.image = "image"
element_type BasicZeroElementType.shape = "shape"
element_type BasicZeroElementType.button = "button"
element_type BasicZeroElementType.html = "html"

kind_name : ZeroPrimitiveKind → String
kind_name string_kind = "string"
kind_name number_kind = "number"
kind_name boolean_kind = "boolean"
kind_name null_kind = "null"

primitive : ZeroPrimitiveValue → Json
primitive (a_string s) = str s
primitive (a_number n) = num n
primitive (a_boolean b) = bool b
primitive a_null = null

abbrev offset_json : Offset → Json
offset_json o = obj (field "left" (num o.left) (field "top" (num o.top) end))

replacements : List T123LiteralReplacement → Items
replacements [] = nil
replacements (r ∷ rs) =
    cons
      (obj (
        field "match" (str r.match) (
          field "replacement" (str r.replacement)
            (field "expectedMatches" (num r.expected_matches) end))))
      (replacements rs)

edit_json : T123CodeEditRequest → Json
unfolding replacements
edit_json (full_replace c) = obj (field "kind" (str "full_replace") (field "code" (str c) end))
edit_json (replace_once m r) =
    obj
      (field "kind" (str "replace_once") (field "match" (str m) (field "replacement" (str r) end)))
edit_json (replace_literals rs) =
    obj (field "kind" (str "replace_literals") (field "replacements" (arr (replacements rs)) end))

request_fields : ChangeRequest → Fields
unfolding element_type kind_name primitive edit_json
request_fields (standard_field p) = field "operation" (str "standard.field.patch") (
    field "expectedIdentity"
      (obj (
        field "recordType" (str p.expected_record_type)
          (field "recordCode" (str p.expected_record_code) end)))
      (field "field" (str p.field) (field "value" (str p.value) end)))
request_fields (t123_code t e) =
    field "operation" (str "t123.code.replace") (field "edit" (edit_json e) end)
request_fields (zero_leaf t v) =
    field "operation" (str "zero.leaf.patch")
      (field "path" (str "link") (field "value" (str v) end))
request_fields (zero_responsive t v) =
    field "operation" (str "zero.responsive.patch")
      (field "path" (str "left-res-480") (field "value" (num v) end))
request_fields (zero_shape t o) =
    field "operation" (str "zero.shape.clone") (field "offset" (offset_json o) end)
request_fields (zero_property t e p k v) = field "operation" (str "zero.property.patch") (
    field "expectedElementType" (str (element_type e)) (
      field "property" (str p)
        (field "expectedPrimitiveKind" (str (kind_name k)) (field "value" (primitive v) end))))
request_fields (zero_element t e o) =
    field "operation" (str "zero.element.clone")
      (field "expectedElementType" (str (element_type e)) (field "offset" (offset_json o) end))
request_fields (page_seo t v) =
    field "operation" (str "page.seo.patch")
      (field "field" (str "meta_descr") (field "value" (str v) end))
request_fields (page_head t c) =
    field "operation" (str "page.head.code.replace") (field "code" (str c) end)

unfoldable pub request_json : ChangeRequest → Json
unfolding request_fields target_json
request_json r = obj (field "target" (target_json (target r)) (request_fields r))

-- `requestHash` of the engine (src/core/engine.ts).
unfoldable pub request_hash : Platform → ChangeRequest → String
unfolding request_json canonical_hash
request_hash platform request = canonical_hash platform (request_json request)
