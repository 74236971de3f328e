-- ===== src/Tests/StandardField.antt =====
-- Fields, and the theorem at two spellings of one.
use tilda_mcp.Prelude.{◌≡◌, refl, true, false, codes}
use tilda_mcp.StandardField.Safety
use tilda_mcp.StandardField.Safety.{is_safe_standard_content_field}
use tilda_mcp.StandardField.Disguise.{Disguise, disguised-unsafe}

unfoldable fields_all : Unit {0}
unfolding Safety.is_safe_standard_content_field Safety.is_safe_units
    Safety.is_canonical_standard_field Safety.normalized Safety.is_unsafe_token
fields_all = tt

runs_fields :
    (is_safe_standard_content_field "title" ≡ true)
    × (is_safe_standard_content_field "Page_ID" ≡ false)
    × (is_safe_standard_content_field "__proto__" ≡ false)
    × (is_safe_standard_content_field "" ≡ false)
unfolding fields_all
runs_fields = (refl, refl, refl, refl)

disguised : Disguise (codes "page_id") (codes "pageI-d")
disguised = Disguise.keep _ _ refl (
    Disguise.keep _ _ refl (
      Disguise.keep _ _ refl (
        Disguise.keep _ _ refl (
          Disguise.leave_out _ refl (
            Disguise.keep _ _ refl
              (Disguise.put_in _ refl (Disguise.keep _ _ refl Disguise.done)))))))

disguised-unsafe_example : is_safe_standard_content_field "pageI-d" ≡ false
unfolding fields_all
disguised-unsafe_example = disguised-unsafe "page_id" "pageI-d" refl refl disguised
