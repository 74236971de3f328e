-- ===== src/T123/Bounds.antt =====
-- The spans of literal replacements lie in the text, in order and apart
-- (src/adapters/t123-code-helper.ts).
use tilda_mcp.Prelude.{
  ℕ, zero, suc, ◌+◌, ◌-◌, ◌≤◌, ◌<◌, ◌≡◌, sym, ap, ◌∙◌, List, [], ◌∷◌, ◌++◌, Bool, true, false, not,
  ◌||◌, any, All, arith, length, map, ltb, eqb, Bool-cases, inl, inr, if◌then◌else◌,
}
use tilda_mcp.T123.Data.{
  Text16, done, refuse_if, starts, >>=-eq-done, >>-eq-done, refuse_if-eq-done, invalid_input,
  limit_exceeded, match_count_mismatch, overlapping_replacements, same_units,
  max_t123_literal_matches, max_t123_literal_rules, assert_bounded_text,
}
use tilda_mcp.T123.Spans.{
  LiteralRule, InternalSpan, offsets_from, exact_matches, span_at, rule_spans, all_spans, span_le,
  insert_span, sort_spans, some_overlap, literal_spans,
}

-- A span that takes some of a text of `n` units.
pub record InText (n : ℕ) (s : InternalSpan) : Type 0 where
  pub nonempty : s.start < s.end
  pub inside : s.end ≤ n

starts-length : (m cs : Text16) → starts m cs ≡ true → length m ≤ length cs
starts-length [] cs h = omega arith
starts-length (x ∷ ms) [] h = ground arith
starts-length (x ∷ ms) (c ∷ cs) h = ground (arith, starts-length ms cs)

abbrev Fits : ℕ → ℕ → ℕ → Type 0
Fits n m o = o + m ≤ n

offsets-Fits :
    (m : Text16) (k offset n : ℕ) (cs : Text16)
    → offset + length cs ≡ n
    → All (Fits n (length m)) (offsets_from m k offset cs)
unfolding offsets_from
offsets-Fits m k offset n [] h = tt
offsets-Fits m (suc k) offset n (c ∷ cs) h = offsets-Fits m k (offset + 1) n cs (omega arith)
offsets-Fits m zero offset n (c ∷ cs) h = elim (Bool-cases (starts m (c ∷ cs))) [
  | inl hit ↦
      ground (arith, starts-length m (c ∷ cs) hit, offsets-Fits m (length m - 1) (offset + 1) n cs)
  | inr miss ↦ ground (arith, offsets-Fits m zero (offset + 1) n cs)
]

spans-InText :
    (r : LiteralRule) (n : ℕ) (os : List ℕ)
    → 0 < length r.match
    → All (Fits n (length r.match)) os
    → All (InText n) (map (span_at r) os)
spans-InText r n [] h l = tt
spans-InText r n (o ∷ os) h (l, ls) =
    (record { nonempty = omega arith; inside = l }, spans-InText r n os h ls)

pub All-++ : {A : Type 0} (P : A → Type 0) (xs ys : List A) → All P xs → All P ys → All P (xs ++ ys)
All-++ P [] ys h l = l
All-++ P (x ∷ xs) ys (h, hs) l = (h, All-++ P xs ys hs l)

pub rule_spans-offsets :
    (code : Text16) (seen : List Text16) (r : LiteralRule) (ss : List InternalSpan)
    → rule_spans code seen r ≡ done ss
    → (0 < length r.match) × (ss ≡ map (span_at r) (offsets_from r.match zero 0 code))
unfolding rule_spans exact_matches
rule_spans-offsets code seen r ss h =
    let (_, _, a) = >>=-eq-done (assert_bounded_text r.match) _ h in
    let (_, _, b) = >>=-eq-done (assert_bounded_text r.replacement) _ a in
    let (_, c) =
      >>-eq-done
        (refuse_if (ltb r.expected_matches 1 || ltb max_t123_literal_matches r.expected_matches)
          invalid_input)
        _ b in
    let (_, d) = >>-eq-done (refuse_if (any (same_units r.match) seen) invalid_input) _ c in
    let (os, matched, e) = >>=-eq-done (exact_matches code r.match) _ d in
    let (_, f) =
      >>-eq-done (refuse_if (not (eqb (length os) r.expected_matches)) match_count_mismatch) _ e in
    let (some_units, g) = >>-eq-done (refuse_if (eqb (length r.match) 0) invalid_input) _ matched in
    let (_, k) =
      >>-eq-done
        (refuse_if (ltb max_t123_literal_matches (length (offsets_from r.match zero 0 code)))
          limit_exceeded)
        _ g in
    let filled = refuse_if-eq-done (eqb (length r.match) 0) _ some_units in
    let offsets : offsets_from r.match zero 0 code ≡ os = cc k in
    let spans : map (span_at r) os ≡ ss = cc f in
    (ground arith, sym spans ∙ ap (map (span_at r)) (sym offsets))

rule_spans-InText :
    (code : Text16) (seen : List Text16) (r : LiteralRule) (ss : List InternalSpan)
    → rule_spans code seen r ≡ done ss
    → All (InText (length code)) ss
rule_spans-InText code seen r ss h =
    let (filled, spans) = rule_spans-offsets code seen r ss h in
    rw spans (
      spans-InText r (length code) (offsets_from r.match zero 0 code) filled
        (offsets-Fits r.match zero 0 (length code) code (omega arith)))

all_spans-InText :
    (code : Text16) (seen : List Text16) (rs : List LiteralRule) (ss : List InternalSpan)
    → all_spans code seen rs ≡ done ss
    → All (InText (length code)) ss
unfolding all_spans
all_spans-InText code seen [] ss h = let none_left : [] ≡ ss = cc h in rw (← none_left) tt
all_spans-InText code seen (r ∷ rs) ss h =
    let (xs, first, a) = >>=-eq-done (rule_spans code seen r) _ h in
    let (ys, rest, b) = >>=-eq-done (all_spans code (r.match ∷ seen) rs) _ a in
    let both : xs ++ ys ≡ ss = cc b in
    rw (← both) (
      All-++ (InText (length code)) xs ys (rule_spans-InText code seen r xs first)
        (all_spans-InText code (r.match ∷ seen) rs ys rest))

-- Sorting keeps what holds of every span.
insert_span-All :
    (P : InternalSpan → Type 0) (x : InternalSpan) (ys : List InternalSpan)
    → P x
    → All P ys
    → All P (insert_span x ys)
unfolding insert_span
insert_span-All P x [] h l = (h, tt)
insert_span-All P x (y ∷ ys) h (l, ls) = go (span_le x y) (insert_span-All P x ys h ls)
  where
    go :
        (b : Bool)
        → All P (insert_span x ys)
        → All P (if b then x ∷ y ∷ ys else y ∷ insert_span x ys)
    go true rest = (h, (l, ls))
    go false rest = (l, rest)

pub sort_spans-All :
    (P : InternalSpan → Type 0) (xs : List InternalSpan) → All P xs → All P (sort_spans xs)
unfolding sort_spans
sort_spans-All P [] h = tt
sort_spans-All P (x ∷ xs) (h, hs) = insert_span-All P x (sort_spans xs) h (sort_spans-All P xs hs)

-- From a cursor on: each span begins where the one before it has ended, or after.
abbrev pub Apart : ℕ → List InternalSpan → Type 0
Apart cursor [] = Unit
Apart cursor (s ∷ ss) = (cursor ≤ s.start) × Apart s.end ss

some_overlap-Apart :
    (x : InternalSpan) (xs : List InternalSpan) → some_overlap (x ∷ xs) ≡ false → Apart x.end xs
unfolding some_overlap
some_overlap-Apart x [] h = tt
some_overlap-Apart x (y ∷ ys) h = (ground arith, some_overlap-Apart y ys (ground arith))

in_order : (xs : List InternalSpan) → some_overlap xs ≡ false → Apart 0 xs
in_order [] h = tt
in_order (x ∷ xs) h = (omega arith, some_overlap-Apart x xs h)

-- Where the spans of a list of rules are found, each of them takes at least one unit of the text and
-- ends in the text, and they stand in order without overlap.
pub literal_spans-Apart :
    (code : Text16) (rules : List LiteralRule) (ss : List InternalSpan)
    → literal_spans code rules ≡ done ss
    → All (InText (length code)) ss × Apart 0 ss
unfolding literal_spans
literal_spans-Apart code rules ss h =
    let (_, a) =
      >>-eq-done
        (refuse_if (eqb (length rules) 0 || ltb max_t123_literal_rules (length rules))
          limit_exceeded)
        _ h in
    let (found, searched, b) = >>=-eq-done (all_spans code [] rules) _ a in
    let (apart, c) =
      >>-eq-done (refuse_if (some_overlap (sort_spans found)) overlapping_replacements) _ b in
    let sorted : sort_spans found ≡ ss = cc c in
    rw (← sorted) (
      sort_spans-All (InText (length code)) found (all_spans-InText code [] rules found searched),
      in_order (sort_spans found) (refuse_if-eq-done _ _ apart),
    )
