-- ===== src/T123/Spans.antt =====
-- The spans of literal matches, and their replacement (src/adapters/t123-code-helper.ts).
use tilda_mcp.Prelude.{
  ℕ, zero, suc, ◌+◌, ◌-◌, List, [], ◌∷◌, ◌++◌, Bool, true, false, ◌&&◌, ◌||◌, not, any, ltb, leb,
  eqb, length, map, if◌then◌else◌,
}
use tilda_mcp.T123.Data.{
  Text16, Helped, done, refuse_if, ◌>>=◌, ◌>>◌, invalid_input, limit_exceeded, match_count_mismatch,
  overlapping_replacements, max_t123_literal_rules, max_t123_literal_matches, assert_bounded_text,
  starts, same_units,
}

-- `T123LiteralReplacement`, as the helper reads it.
pub record LiteralRule : Type 0 where
  pub match : Text16
  pub replacement : Text16
  pub expected_matches : ℕ

pub record InternalSpan : Type 0 where
  pub start : ℕ
  pub end : ℕ
  pub replacement : Text16

-- The offsets at which the text has the match, from the left and without overlap: after a match
-- the next `skip` units are passed over. `offset` is where the rest stands in the text.
unfoldable pub offsets_from : Text16 → ℕ → ℕ → Text16 → List ℕ
offsets_from m skip offset [] = []
offsets_from m (suc skip) offset (c ∷ cs) = offsets_from m skip (offset + 1) cs
offsets_from m zero offset (c ∷ cs) = elim (starts m (c ∷ cs)) [
  | true ↦ offset ∷ offsets_from m (length m - 1) (offset + 1) cs
  | false ↦ offsets_from m zero (offset + 1) cs
]

unfoldable pub exact_matches : Text16 → Text16 → Helped (List ℕ)
unfolding offsets_from
exact_matches code m = do
  refuse_if (eqb (length m) 0) invalid_input
  let offsets = offsets_from m zero 0 code
  refuse_if (ltb max_t123_literal_matches (length offsets)) limit_exceeded
  done offsets

abbrev pub span_at : LiteralRule → ℕ → InternalSpan
span_at r start = record {
  start = start;
  end = start + length r.match;
  replacement = r.replacement;
}

-- The spans of one rule; `seen` are the matches of the rules before it.
unfoldable pub rule_spans : Text16 → List Text16 → LiteralRule → Helped (List InternalSpan)
rule_spans code seen r = do
  assert_bounded_text r.match
  assert_bounded_text r.replacement
  refuse_if (ltb r.expected_matches 1 || ltb max_t123_literal_matches r.expected_matches)
      invalid_input
  refuse_if (any (same_units r.match) seen) invalid_input
  offsets ← exact_matches code r.match
  refuse_if (not (eqb (length offsets) r.expected_matches)) match_count_mismatch
  done (map (span_at r) offsets)

unfoldable pub all_spans : Text16 → List Text16 → List LiteralRule → Helped (List InternalSpan)
unfolding rule_spans
all_spans code seen [] = done []
all_spans code seen (r ∷ rs) = do
  spans ← rule_spans code seen r
  more ← all_spans code (r.match ∷ seen) rs
  done (spans ++ more)

-- `left.start - right.start || left.end - right.end`.
unfoldable pub span_le : InternalSpan → InternalSpan → Bool
span_le a b = ltb a.start b.start || (eqb a.start b.start && leb a.end b.end)

unfoldable pub insert_span : InternalSpan → List InternalSpan → List InternalSpan
insert_span x [] = x ∷ []
insert_span x (y ∷ ys) = let rest = insert_span x ys in if span_le x y then x ∷ y ∷ ys else y ∷ rest

unfoldable pub sort_spans : List InternalSpan → List InternalSpan
unfolding insert_span
sort_spans [] = []
sort_spans (x ∷ xs) = insert_span x (sort_spans xs)

unfoldable pub some_overlap : List InternalSpan → Bool
some_overlap [] = false
some_overlap (x ∷ []) = false
some_overlap (x ∷ y ∷ ys) = let rest = some_overlap (y ∷ ys) in ltb y.start x.end || rest

unfoldable pub literal_spans : Text16 → List LiteralRule → Helped (List InternalSpan)
unfolding all_spans sort_spans some_overlap
literal_spans code rules = do
  refuse_if (eqb (length rules) 0 || ltb max_t123_literal_rules (length rules)) limit_exceeded
  spans ← all_spans code [] rules
  refuse_if (some_overlap (sort_spans spans)) overlapping_replacements
  done (sort_spans spans)

-- `code.slice(from, to)`.
unfoldable pub skip_units : ℕ → Text16 → Text16
skip_units zero cs = cs
skip_units (suc n) [] = []
skip_units (suc n) (c ∷ cs) = skip_units n cs

unfoldable pub first_units : ℕ → Text16 → Text16
first_units zero cs = []
first_units (suc n) [] = []
first_units (suc n) (c ∷ cs) = c ∷ first_units n cs

unfoldable pub slice : Text16 → ℕ → ℕ → Text16
unfolding skip_units first_units
slice code from to = first_units (to - from) (skip_units from code)

-- The output from `cursor` on.
unfoldable pub apply_spans_from : Text16 → ℕ → List InternalSpan → Text16
apply_spans_from code cursor [] = skip_units cursor code
apply_spans_from code cursor (s ∷ ss) =
    slice code cursor s.start ++ (s.replacement ++ apply_spans_from code s.end ss)

unfoldable pub apply_spans : Text16 → List InternalSpan → Text16
unfolding apply_spans_from
apply_spans code spans = apply_spans_from code 0 spans
