-- ===== src/T123/Replace.antt =====
-- Replacing the spans of a match is replacing the match (src/adapters/t123-code-helper.ts).
use mathlib.Core.Path.{subst}
use tilda_mcp.Prelude.{
  ℕ, zero, suc, ◌+◌, ◌-◌, ◌≤◌, ◌<◌, ◌≡◌, refl, sym, ap, ◌∙◌, List, [], ◌∷◌, ◌++◌, Bool, true, false,
  arith, length, map, Bool-cases, inl, inr, String, not, ◌||◌, ltb, eqb,
}
use tilda_mcp.T123.Data.{
  Text16, Helped, done, refuse_if, starts, same_units, >>=-eq-done, >>-eq-done, refuse_if-eq-done,
  invalid_input, limit_exceeded, match_count_mismatch, overlapping_replacements, no_change,
  max_t123_literal_matches, assert_bounded_text,
}
use tilda_mcp.T123.Structure.{assert_safe_structure}
use tilda_mcp.T123.Plan.{T123CodeEditPlan, plan, plan_single}
use tilda_mcp.T123.Spans.{
  exact_matches, rule_spans, all_spans, sort_spans, some_overlap, literal_spans, LiteralRule,
  InternalSpan, offsets_from, span_at, skip_units, first_units, slice, apply_spans_from,
  apply_spans,
}

-- A reference: the text is read once from the left, and each match that begins where the one before
-- has ended gives way to the replacement. `skip` units of a match are still to be passed over.
unfoldable pub replace_from : Text16 → Text16 → ℕ → Text16 → Text16
replace_from m r skip [] = []
replace_from m r (suc skip) (c ∷ cs) = replace_from m r skip cs
replace_from m r zero (c ∷ cs) = elim (starts m (c ∷ cs)) [
  | true ↦ r ++ replace_from m r (length m - 1) cs
  | false ↦ c ∷ replace_from m r zero cs
]

pub offsets-hit :
    (m : Text16) (n c : ℕ) (cs : Text16)
    → starts m (c ∷ cs) ≡ true
    → offsets_from m zero n (c ∷ cs) ≡ n ∷ offsets_from m (length m - 1) (n + 1) cs
unfolding offsets_from
offsets-hit m n c cs h = ground arith

pub offsets-miss :
    (m : Text16) (n c : ℕ) (cs : Text16)
    → starts m (c ∷ cs) ≡ false
    → offsets_from m zero n (c ∷ cs) ≡ offsets_from m zero (n + 1) cs
unfolding offsets_from
offsets-miss m n c cs h = ground arith

pub replace-hit :
    (m r : Text16) (c : ℕ) (cs : Text16)
    → starts m (c ∷ cs) ≡ true
    → replace_from m r zero (c ∷ cs) ≡ r ++ replace_from m r (length m - 1) cs
unfolding replace_from
replace-hit m r c cs h = ground arith

pub replace-miss :
    (m r : Text16) (c : ℕ) (cs : Text16)
    → starts m (c ∷ cs) ≡ false
    → replace_from m r zero (c ∷ cs) ≡ c ∷ replace_from m r zero cs
unfolding replace_from
replace-miss m r c cs h = ground arith

skip-end : (n k : ℕ) (code : Text16) → skip_units n code ≡ [] → n ≤ k → skip_units k code ≡ []
unfolding skip_units
skip-end zero zero code h l = h
skip-end zero (suc k) [] h l = refl
skip-end zero (suc k) (c ∷ cs) h l = cc
skip-end (suc n) zero code h l = absurd (omega arith)
skip-end (suc n) (suc k) [] h l = refl
skip-end (suc n) (suc k) (c ∷ cs) h l = skip-end n k cs h (omega arith)

skip-next :
    (n : ℕ) (code cs : Text16) (c : ℕ) → skip_units n code ≡ c ∷ cs → skip_units (suc n) code ≡ cs
unfolding skip_units
skip-next zero [] cs c h = cc
skip-next zero (x ∷ xs) cs c h = cc
skip-next (suc n) [] cs c h = cc
skip-next (suc n) (x ∷ xs) cs c h = skip-next n xs cs c h

-- The spans begin at an offset or after it.
abbrev From : ℕ → List InternalSpan → Type 0
From n [] = Unit
From n (s ∷ ss) = n ≤ s.start

-- A unit before every span is kept.
keep_unit :
    (code cs : Text16) (c n : ℕ) (ss : List InternalSpan)
    → skip_units n code ≡ c ∷ cs
    → From (suc n) ss
    → apply_spans_from code n ss ≡ c ∷ apply_spans_from code (suc n) ss
unfolding apply_spans_from slice
keep_unit code cs c n [] h l = h ∙ ap (λ x. c ∷ x) (sym (skip-next n code cs c h))
keep_unit code cs c n (s ∷ ss) h l =
    let gap : s.start - n ≡ suc (s.start - suc n) = omega arith in
    rw (gap, h, skip-next n code cs c h) refl

-- With nothing between the cursor and a span, the replacement comes next.
at_span :
    (code : Text16) (s : InternalSpan) (ss : List InternalSpan)
    → apply_spans_from code s.start (s ∷ ss) ≡ s.replacement ++ apply_spans_from code s.end ss
unfolding apply_spans_from slice first_units
at_span code s ss = let none_between : s.start - s.start ≡ 0 = omega arith in rw none_between refl

module _ (code : Text16) (r : LiteralRule) (nonempty : 0 < length r.match) where
  abbrev spans_from : ℕ → ℕ → Text16 → List InternalSpan
  spans_from k n cs = map (span_at r) (offsets_from r.match k n cs)

  later : (k n j : ℕ) (cs : Text16) → j ≤ n → From j (spans_from k n cs)
  unfolding offsets_from
  later k n j [] h = tt
  later (suc k) n j (c ∷ cs) h = later k (n + 1) j cs (omega arith)
  later zero n j (c ∷ cs) h = elim (Bool-cases (starts r.match (c ∷ cs))) [
    | inl hit ↦ subst (λ o. From j (map (span_at r) o)) (sym (offsets-hit r.match n c cs hit)) h
    | inr miss ↦
        subst (λ o. From j (map (span_at r) o)) (sym (offsets-miss r.match n c cs miss))
          (later zero (n + 1) j cs (omega arith))
  ]

  -- From an offset on, with `k` units of a match to pass over.
  replaced :
      (k n j : ℕ) (cs : Text16)
      → skip_units n code ≡ cs
      → j ≡ n + k
      → apply_spans_from code j (spans_from k n cs) ≡ replace_from r.match r.replacement k cs
  unfolding offsets_from replace_from apply_spans_from
  replaced k n j [] h e = skip-end n j code h (omega arith)
  replaced (suc k) n j (c ∷ cs) h e =
      let next : n + 1 ≡ suc n = omega arith in
      replaced k (n + 1) j cs (rw next (skip-next n code cs c h)) (omega arith)
  replaced zero n j (c ∷ cs) h e =
      let next : n + 1 ≡ suc n = omega arith in
      let here : j ≡ n = omega arith in
      let rest : skip_units (n + 1) code ≡ cs = rw next (skip-next n code cs c h) in
      elim (Bool-cases (starts r.match (c ∷ cs))) [
        | inl hit ↦
            rw (here, offsets-hit r.match n c cs hit, replace-hit r.match r.replacement c cs hit)
              (at_span code (span_at r n) (spans_from (length r.match - 1) (n + 1) cs)
                ∙ ap (λ x. r.replacement ++ x)
                    (replaced (length r.match - 1) (n + 1) (n + length r.match) cs rest
                      (omega arith)))
        | inr miss ↦
            rw
              (here, offsets-miss r.match n c cs miss, replace-miss r.match r.replacement c cs miss)
              (keep_unit code cs c n (spans_from zero (n + 1) cs) h
                  (later zero (n + 1) (suc n) cs (omega arith))
                ∙ ap (λ x. c ∷ x) (replaced zero (n + 1) (suc n) cs rest (omega arith)))
      ]

-- One rule that expects one match has one span, at the only offset.
single :
    (code : Text16) (r : LiteralRule) (ss : List InternalSpan)
    → r.expected_matches ≡ 1
    → literal_spans code (r ∷ []) ≡ done ss
    → (0 < length r.match)
      × (ss ≡ map (span_at r) (offsets_from r.match zero 0 code))
      × (length (offsets_from r.match zero 0 code) ≡ 1)
unfolding literal_spans all_spans rule_spans exact_matches
single code r ss one h =
    let (found, searched, a) = >>=-eq-done (all_spans code [] (r ∷ [])) _ h in
    let (_, b) =
      >>-eq-done (refuse_if (some_overlap (sort_spans found)) overlapping_replacements) _ a in
    let sorted : sort_spans found ≡ ss = cc b in
    let (xs, first, c) = >>=-eq-done (rule_spans code [] r) _ searched in
    let all : xs ++ [] ≡ found = cc c in
    let (_, _, d) = >>=-eq-done (assert_bounded_text r.match) _ first in
    let (_, _, e) = >>=-eq-done (assert_bounded_text r.replacement) _ d in
    let (_, f) =
      >>-eq-done
        (refuse_if (ltb r.expected_matches 1 || ltb max_t123_literal_matches r.expected_matches)
          invalid_input)
        _ e in
    let (os, matched, g) = >>=-eq-done (exact_matches code r.match) _ f in
    let (count, k) =
      >>-eq-done (refuse_if (not (eqb (length os) r.expected_matches)) match_count_mismatch) _ g in
    let (some_units, l) = >>-eq-done (refuse_if (eqb (length r.match) 0) invalid_input) _ matched in
    let (_, i) =
      >>-eq-done
        (refuse_if (ltb max_t123_literal_matches (length (offsets_from r.match zero 0 code)))
          limit_exceeded)
        _ l in
    let filled = refuse_if-eq-done (eqb (length r.match) 0) _ some_units in
    let counted = refuse_if-eq-done (not (eqb (length os) r.expected_matches)) _ count in
    let offsets : offsets_from r.match zero 0 code ≡ os = cc i in
    let spans : map (span_at r) os ≡ xs = cc k in
    let number : length os ≡ 1 = ground (arith, counted, one) in
    (
      ground (arith, filled),
      sym sorted
          ∙ ap sort_spans (sym all)
          ∙ ap (λ x. sort_spans (x ++ [])) (sym spans)
          ∙ sorted_one os number
          ∙ ap (map (span_at r)) (sym offsets),
      ap length offsets ∙ number,
    )
  where
    sorted_one :
        (os : List ℕ) → length os ≡ 1 → sort_spans (map (span_at r) os ++ []) ≡ map (span_at r) os
    sorted_one [] n = ground arith
    sorted_one (o ∷ []) n = refl
    sorted_one (o ∷ o' ∷ os) n = absurd (omega arith)

module _ {D : Type 0} (sha256 : Text16 → String) (locale_le : String → String → Bool)
    (dependencies : Text16 → Helped D) where
  -- Where the plan of a single replacement is made, the match has some units and is counted once,
  -- from the left and without overlap; the planned code is the text with the match replaced, and it
  -- differs from the text.
  pub plan_single-eq-replace :
      (current match replacement : Text16) (p : T123CodeEditPlan D)
      → plan_single sha256 locale_le dependencies current match replacement ≡ done p
      → (0 < length match)
        × (p.code ≡ replace_from match replacement zero current)
        × (length (offsets_from match zero 0 current) ≡ 1)
        × (same_units current p.code ≡ false)
  unfolding plan_single plan apply_spans skip_units
  plan_single-eq-replace current match replacement p h =
      let rule : LiteralRule = record {
        match = match;
        replacement = replacement;
        expected_matches = 1;
      } in
      let (_, _, a) = >>=-eq-done (assert_bounded_text current) _ h in
      let (ss, found, b) = >>=-eq-done (literal_spans current (rule ∷ [])) _ a in
      let (filled, spans, once) = single current rule ss refl found in
      let (_, _, c) = >>=-eq-done (assert_bounded_text current) _ b in
      let (_, _, d) = >>=-eq-done (assert_bounded_text (apply_spans current ss)) _ c in
      let (differs, e) =
        >>-eq-done (refuse_if (same_units current (apply_spans current ss)) no_change) _ d in
      let (_, f) = >>-eq-done (assert_safe_structure locale_le (apply_spans current ss)) _ e in
      let (_, _, g) = >>=-eq-done (dependencies (apply_spans current ss)) _ f in
      let code_is : apply_spans current ss ≡ p.code = cc g in
      let edited =
        ap (apply_spans_from current 0) spans
        ∙ replaced current rule filled zero 0 0 current refl (omega arith) in
      (
        filled,
        sym code_is ∙ edited,
        once,
        ap (same_units current) (sym code_is) ∙ refuse_if-eq-done _ _ differs,
      )
