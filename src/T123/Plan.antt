-- ===== src/T123/Plan.antt =====
-- The plan of an edit (src/adapters/t123-code-helper.ts).
use tilda_mcp.Prelude.{ℕ, String, List, [], ◌∷◌, Bool, length, map}
use tilda_mcp.Contracts.Requests.{
  T123CodeEditRequest, full_replace, replace_once, replace_literals, T123LiteralReplacement, Number,
}
use tilda_mcp.T123.Data.{
  Text16, Helped, done, refuse_if, ◌>>=◌, ◌>>◌, no_change, assert_bounded_text, bytes, same_units,
  units,
}
use tilda_mcp.T123.Spans.{LiteralRule, InternalSpan, literal_spans, apply_spans}
use tilda_mcp.T123.Structure.{assert_safe_structure}

pub data EditKind : Type 0 where
  kind_full_replace kind_replace_once kind_replace_literals : EditKind

pub record T123ReplacementSpan : Type 0 where
  pub start : ℕ
  pub end : ℕ
  pub replacement_length : ℕ

-- `D` are the external dependencies of a code. `structureIssues` is empty by its type.
pub record T123CodeEditPlan (D : Type 0) : Type 0 where
  pub kind : EditKind
  pub before_hash : String
  pub after_hash : String
  pub before_bytes : ℕ
  pub after_bytes : ℕ
  pub replacement_count : ℕ
  pub spans : List T123ReplacementSpan
  pub code : Text16
  pub external_dependencies : D

abbrev reported : InternalSpan → T123ReplacementSpan
reported s = record { start = s.start; end = s.end; replacement_length = length s.replacement }

-- A number that is no natural number is given as 0, which the check of a rule refuses.
rules_of : (Number → ℕ) → List T123LiteralReplacement → List LiteralRule
rules_of integer [] = []
rules_of integer (x ∷ xs) =
    record {
      match = units x.match;
      replacement = units x.replacement;
      expected_matches = integer x.expected_matches;
    }
    ∷ rules_of integer xs

-- `sha256`, the digest of the text in UTF-8, `localeCompare`, and `extractT123ExternalDependencies`,
-- which finds the URLs of a code or refuses to.
module _ {D : Type 0} (sha256 : Text16 → String) (locale_le : String → String → Bool)
    (dependencies : Text16 → Helped D) where
  unfoldable pub plan : Text16 → EditKind → Text16 → List InternalSpan → Helped (T123CodeEditPlan D)
  plan current kind intended spans = do
    assert_bounded_text current
    assert_bounded_text intended
    refuse_if (same_units current intended) no_change
    assert_safe_structure locale_le intended
    found ← dependencies intended
    done (record {
      kind = kind;
      before_hash = sha256 current;
      after_hash = sha256 intended;
      before_bytes = bytes current;
      after_bytes = bytes intended;
      replacement_count = length spans;
      spans = map reported spans;
      code = intended;
      external_dependencies = found;
    })

  unfoldable pub plan_full_replace : Text16 → Text16 → Helped (T123CodeEditPlan D)
  plan_full_replace current code = do
    assert_bounded_text current
    plan current kind_full_replace code
        (record { start = 0; end = length current; replacement = code } ∷ [])

  unfoldable pub plan_single : Text16 → Text16 → Text16 → Helped (T123CodeEditPlan D)
  plan_single current match replacement = do
    assert_bounded_text current
    spans ←
        literal_spans current
          (record { match = match; replacement = replacement; expected_matches = 1 } ∷ [])
    plan current kind_replace_once (apply_spans current spans) spans

  unfoldable pub plan_bulk : Text16 → List LiteralRule → Helped (T123CodeEditPlan D)
  plan_bulk current rules = do
    assert_bounded_text current
    spans ← literal_spans current rules
    plan current kind_replace_literals (apply_spans current spans) spans

  unfoldable pub plan_t123_code_edit :
      (Number → ℕ) → Text16 → T123CodeEditRequest → Helped (T123CodeEditPlan D)
  unfolding rules_of
  plan_t123_code_edit integer current (full_replace code) = plan_full_replace current (units code)
  plan_t123_code_edit integer current (replace_once match replacement) =
      plan_single current (units match) (units replacement)
  plan_t123_code_edit integer current (replace_literals rules) =
      plan_bulk current (rules_of integer rules)
