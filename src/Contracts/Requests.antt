-- ===== src/Contracts/Requests.antt =====
-- Change requests (src/core/contracts.ts). A JavaScript number stands as the literal that
-- `JSON.stringify` prints for it.
use tilda_mcp.Prelude.{String, List, Bool}
use tilda_mcp.Contracts.Targets.{
  ExactTarget, PageTarget, RecordTarget, ElementTarget, of_page, of_record, of_element,
}

pub data ChangeOperation : Type 0 where
  standard_field_patch t123_code_replace zero_leaf_patch zero_responsive_patch : ChangeOperation
  zero_shape_clone zero_property_patch zero_element_clone page_seo_patch : ChangeOperation
  page_head_code_replace standard_template_add page_reference_clone : ChangeOperation
  page_reference_cleanup page_lifecycle : ChangeOperation

unfoldable pub ChangeOperation-discrete : Discrete ChangeOperation
ChangeOperation-discrete = hlevel

abbrev pub Number : Type 0
Number = String

pub record StandardFieldPatch : Type 0 where
  pub target : RecordTarget
  pub expected_record_type : String
  pub expected_record_code : String
  pub field : String
  pub value : String

pub record T123LiteralReplacement : Type 0 where
  pub match : String
  pub replacement : String
  pub expected_matches : Number

pub data T123CodeEditRequest : Type 0 where
  full_replace : String → T123CodeEditRequest
  replace_once : String → String → T123CodeEditRequest
  replace_literals : List T123LiteralReplacement → T123CodeEditRequest

pub data BasicZeroElementType : Type 0 where
  text image shape button html : BasicZeroElementType

-- `ZeroPrimitiveValue`, and the names of its kinds.
pub data ZeroPrimitiveValue : Type 0 where
  a_string : String → ZeroPrimitiveValue
  a_number : Number → ZeroPrimitiveValue
  a_boolean : Bool → ZeroPrimitiveValue
  a_null : ZeroPrimitiveValue

pub data ZeroPrimitiveKind : Type 0 where
  string_kind number_kind boolean_kind null_kind : ZeroPrimitiveKind

pub record Offset : Type 0 where
  pub left : Number
  pub top : Number

pub data ChangeRequest : Type 0 where
  standard_field : StandardFieldPatch → ChangeRequest
  t123_code : RecordTarget → T123CodeEditRequest → ChangeRequest
  zero_leaf : ElementTarget → String → ChangeRequest
  zero_responsive : ElementTarget → Number → ChangeRequest
  zero_shape : ElementTarget → Offset → ChangeRequest
  zero_property :
      ElementTarget
      → BasicZeroElementType
      → String
      → ZeroPrimitiveKind
      → ZeroPrimitiveValue
      → ChangeRequest
  zero_element : ElementTarget → BasicZeroElementType → Offset → ChangeRequest
  page_seo : PageTarget → String → ChangeRequest
  page_head : PageTarget → String → ChangeRequest

-- `request.operation`.
unfoldable pub operation : ChangeRequest → ChangeOperation
operation (standard_field p) = standard_field_patch
operation (t123_code t e) = t123_code_replace
operation (zero_leaf t v) = zero_leaf_patch
operation (zero_responsive t v) = zero_responsive_patch
operation (zero_shape t o) = zero_shape_clone
operation (zero_property t e p k v) = zero_property_patch
operation (zero_element t e o) = zero_element_clone
operation (page_seo t v) = page_seo_patch
operation (page_head t c) = page_head_code_replace

-- `request.target`.
unfoldable pub target : ChangeRequest → ExactTarget
target (standard_field p) = of_record p.target
target (t123_code t e) = of_record t
target (zero_leaf t v) = of_element t
target (zero_responsive t v) = of_element t
target (zero_shape t o) = of_element t
target (zero_property t e p k v) = of_element t
target (zero_element t e o) = of_element t
target (page_seo t v) = of_page t
target (page_head t c) = of_page t
