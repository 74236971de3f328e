-- ===== src/Authority/Hash.antt =====
-- `hashGrant` (src/core/task-authority.ts): the hash of what the user has authorised, without the
-- inventory. `iso` gives the canonical ISO text of a timestamp.
use tilda_mcp.Prelude.{String, Option, none, some, List, [], ◌∷◌}
use tilda_mcp.Contracts.Requests.{
  ChangeOperation, standard_field_patch, t123_code_replace, zero_leaf_patch, zero_responsive_patch,
  zero_shape_clone, zero_property_patch, zero_element_clone, page_seo_patch, page_head_code_replace,
  standard_template_add, page_reference_clone, page_reference_cleanup, page_lifecycle,
}
use tilda_mcp.Contracts.Records.{Timestamp, PublicationAction, publish, unpublish}
use tilda_mcp.Contracts.Hash.{
  Json, str, arr, obj, Items, nil, cons, Fields, end, field, Platform, canonical_hash, target_json,
}
use tilda_mcp.Authority.Grant.{
  TaskAuthorityMode, observe, copy_test, production, TaskAuthorityGrant, TaskPublicationGrant,
  pages,
}

operation_name : ChangeOperation → String
operation_name standard_field_patch = "standard.field.patch"
operation_name t123_code_replace = "t123.code.replace"
operation_name zero_leaf_patch = "zero.leaf.patch"
operation_name zero_responsive_patch = "zero.responsive.patch"
operation_name zero_shape_clone = "zero.shape.clone"
operation_name zero_property_patch = "zero.property.patch"
operation_name zero_element_clone = "zero.element.clone"
operation_name page_seo_patch = "page.seo.patch"
operation_name page_head_code_replace = "page.head.code.replace"
operation_name standard_template_add = "standard.template.add"
operation_name page_reference_clone = "page.reference.clone"
operation_name page_reference_cleanup = "page.reference.cleanup"
operation_name page_lifecycle = "page.lifecycle"

mode_name : TaskAuthorityMode → String
mode_name observe = "observe"
mode_name copy_test = "copy-test"
mode_name production = "production"

action_name : PublicationAction → String
action_name publish = "publish"
action_name unpublish = "unpublish"

items : {A : Type 0} → (A → Json) → List A → Items
items f [] = nil
items f (x ∷ xs) = cons (f x) (items f xs)

publication_fields : Option TaskPublicationGrant → Fields
unfolding items action_name
publication_fields none = end
publication_fields (some p) =
    field "publication"
      (obj (
        field "actions" (arr (items (λ a. str (action_name a)) p.actions))
          (field "targets" (arr (items target_json (pages p.targets))) end)))
      end

-- A text field for each name.
texts : List (String × String) → Fields → Fields
texts [] rest = rest
texts ((k, v) ∷ fs) rest = field k (str v) (texts fs rest)

-- The fields in the order of the source.
scope_json : (Timestamp → String) → TaskAuthorityGrant → Json
unfolding operation_name mode_name items publication_fields texts
scope_json iso g =
    let operations = items (λ o. str (operation_name o)) g.allowed_operations in
    obj (
      texts
        (("format", "tilda-mcp-task-authority-scope-v1")
          ∷ ("taskId", g.task_id)
          ∷ ("mode", mode_name g.mode)
          ∷ ("instructionHash", g.instruction_hash)
          ∷ ("issuedAt", iso g.issued_at)
          ∷ ("expiresAt", iso g.expires_at)
          ∷ ("accountFingerprint", g.account_binding.account_fingerprint)
          ∷ [])
        (field "observeTargets" (arr (items target_json g.observe_targets)) (
          field "writeTargets" (arr (items target_json g.write_targets))
            (field "allowedOperations" (arr operations) (publication_fields g.publication)))))

unfoldable pub hash_grant : Platform → (Timestamp → String) → TaskAuthorityGrant → String
unfolding scope_json
hash_grant platform iso g = canonical_hash platform (scope_json iso g)
