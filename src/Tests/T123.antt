-- ===== src/Tests/T123.antt =====
-- Edits of a small code record, and the theorems at them.
use tilda_mcp.Prelude.{◌≡◌, refl, String, List, [], ◌∷◌, Bool, true, false, All, length}
use tilda_mcp.T123.Data
use tilda_mcp.T123.Data.{
  Text16, Helped, done, refused, units, same_units, no_change, match_count_mismatch,
  overlapping_replacements, structural_damage,
}
use tilda_mcp.T123.Spans
use tilda_mcp.T123.Spans.{LiteralRule, InternalSpan, offsets_from, literal_spans, apply_spans}
use tilda_mcp.T123.Structure
use tilda_mcp.T123.Structure.{inspect_t123_structure}
use tilda_mcp.T123.Plan
use tilda_mcp.T123.Plan.{T123CodeEditPlan, plan_single, kind_replace_once}
use tilda_mcp.T123.Once.{ReplacedOnce, plan_single-ReplacedOnce}
use tilda_mcp.T123.Weaving.{Woven, apply_spans-Woven}
use tilda_mcp.T123.Bounds.{InText, Apart, literal_spans-Apart}

abbrev sha256 : Text16 → String
sha256 code = "sha256"

abbrev locale_le : String → String → Bool
locale_le a b = true

abbrev dependencies : Text16 → Helped (Unit {0})
dependencies code = done tt

-- Everything that an edit calls.
unfoldable edit_all : Unit {0}
unfolding Data.units_from Data.units Data.bytes_from Data.bytes Data.assert_bounded_text
    Spans.offsets_from Spans.exact_matches Spans.rule_spans Spans.all_spans Spans.span_le
    Spans.insert_span Spans.sort_spans Spans.some_overlap Spans.literal_spans Spans.skip_units
    Spans.first_units Spans.slice Spans.apply_spans_from Spans.apply_spans Structure.ascii_lower
    Structure.nul_issues Structure.comment_issues Structure.bounded_after Structure.opening
    Structure.closing Structure.tag_issues Structure.inspect_t123_structure
    Structure.assert_safe_structure Plan.plan Plan.plan_single
edit_all = tt

abbrev current : Text16
current = units "<p>one two</p>"

abbrev edited : Helped (T123CodeEditPlan (Unit {0}))
edited = plan_single sha256 locale_le dependencies current (units "one") (units "three")

abbrev plan_of : Helped (T123CodeEditPlan (Unit {0})) → T123CodeEditPlan (Unit {0})
plan_of (done p) = p
plan_of (refused c) = record {
  kind = kind_replace_once;
  before_hash = "";
  after_hash = "";
  before_bytes = 0;
  after_bytes = 0;
  replacement_count = 0;
  spans = [];
  code = [];
  external_dependencies = tt;
}

-- The edit, an edit that changes nothing, a match that is not there, and one that breaks a tag.
runs_edits :
    ((plan_of edited).code ≡ units "<p>three two</p>")
    × (plan_single sha256 locale_le dependencies current (units "one") (units "one")
        ≡ refused no_change)
    × (plan_single sha256 locale_le dependencies current (units "o") (units "x")
        ≡ refused match_count_mismatch)
    × (plan_single sha256 locale_le dependencies current (units "one") (units "<script>")
        ≡ refused structural_damage)
unfolding edit_all
runs_edits = (refl, refl, refl, refl)

-- A script that is closed, one that closes itself, a comment that is not closed, and a stray end.
runs_structure :
    (inspect_t123_structure locale_le (units "<SCRIPT a='>'>x</script><style />") ≡ done [])
    × (inspect_t123_structure locale_le (units "a<!-- b")
        ≡ done (record { code = Structure.unclosed_html_comment; offset = 1 } ∷ []))
    × (inspect_t123_structure locale_le (units "a--></style>")
        ≡ done (
            record { code = Structure.stray_html_comment_close; offset = 1 }
            ∷ record { code = Structure.style_tag_unbalanced; offset = 4 }
            ∷ []))
unfolding edit_all
runs_structure = (refl, refl, refl)

plan_single-ReplacedOnce_example :
    ReplacedOnce (units "one") (units "three") current (plan_of edited).code
    × (same_units current (plan_of edited).code ≡ false)
unfolding edit_all
plan_single-ReplacedOnce_example =
    plan_single-ReplacedOnce sha256 locale_le dependencies current (units "one") (units "three")
      (plan_of edited) refl

-- A match that overlaps itself is counted once.
runs_overlap :
    (plan_of
      (plan_single sha256 locale_le dependencies (units "aaa") (units "aa") (units "b"))).code
    ≡ units "ba"
unfolding edit_all
runs_overlap = refl

abbrev rules : List LiteralRule
rules =
    record { match = units "o"; replacement = units ""; expected_matches = 2 }
    ∷ record { match = units "ne"; replacement = units "nnn"; expected_matches = 1 }
    ∷ []

abbrev spans_of : Helped (List InternalSpan) → List InternalSpan
spans_of (done ss) = ss
spans_of (refused c) = []

abbrev spans : List InternalSpan
spans = spans_of (literal_spans current rules)

literal_spans-Apart_example : All (InText (length current)) spans × Apart 0 spans
unfolding edit_all
literal_spans-Apart_example = literal_spans-Apart current rules spans refl

apply_spans-Woven_example : Woven rules 0 spans current (apply_spans current spans)
unfolding edit_all
apply_spans-Woven_example = apply_spans-Woven current rules spans refl
