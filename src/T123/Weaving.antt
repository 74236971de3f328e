-- ===== src/T123/Weaving.antt =====
-- An edit changes the matches, and nothing else (src/adapters/t123-code-helper.ts).
use mathlib.Core.Path.{subst}
use mathlib.Core.List.{Memᴰ}
use tilda_mcp.Prelude.{
  ℕ, zero, suc, ◌+◌, ◌-◌, ◌≤◌, ◌≡◌, refl, sym, ap, ◌∙◌, List, [], ◌∷◌, ◌++◌, true, ◌||◌, All, arith,
  length, map, ltb, eqb, Bool-cases, inl, inr,
}
use tilda_mcp.T123.Data.{
  Text16, done, refuse_if, starts, >>=-eq-done, >>-eq-done, limit_exceeded,
  overlapping_replacements, max_t123_literal_rules,
}
use tilda_mcp.T123.Spans.{
  LiteralRule, InternalSpan, offsets_from, span_at, rule_spans, all_spans, sort_spans, some_overlap,
  literal_spans, skip_units, first_units, slice, apply_spans_from, apply_spans,
}
use tilda_mcp.T123.Replace.{offsets-hit, offsets-miss}
use tilda_mcp.T123.Bounds.{
  InText, Apart, literal_spans-Apart, rule_spans-offsets, sort_spans-All, All-++,
}

-- The old text and the new one, from an offset on: what stands between the spans is the same in
-- both, and each span has the match of a rule in the old text and its replacement in the new.
pub data Woven (rules : List LiteralRule) : ℕ → List InternalSpan → Text16 → Text16 → Type 0 where
  untouched : {n : ℕ} (rest : Text16) → Woven rules n [] rest rest
  replaced :
      {n : ℕ} {s : InternalSpan} {ss : List InternalSpan} {old new old_rest new_rest : Text16}
      (kept : Text16) (r : LiteralRule)
      → Memᴰ r rules
      → s ≡ span_at r (n + length kept)
      → old ≡ kept ++ (r.match ++ old_rest)
      → new ≡ kept ++ (r.replacement ++ new_rest)
      → Woven rules s.end ss old_rest new_rest
      → Woven rules n (s ∷ ss) old new

pub starts-split : (m cs : Text16) → starts m cs ≡ true → cs ≡ m ++ skip_units (length m) cs
unfolding skip_units
starts-split [] cs h = refl
starts-split (x ∷ ms) [] h = ground arith
starts-split (x ∷ ms) (c ∷ cs) h =
    let same : x ≡ c = ground arith in
    rw same (ap (λ ds. c ∷ ds) (starts-split ms cs (ground arith)))

first-skip : (n : ℕ) (cs : Text16) → first_units n cs ++ skip_units n cs ≡ cs
unfolding first_units skip_units
first-skip zero cs = refl
first-skip (suc n) [] = refl
first-skip (suc n) (c ∷ cs) = ap (λ ds. c ∷ ds) (first-skip n cs)

pub skip-[] : (n : ℕ) → skip_units n [] ≡ []
unfolding skip_units
skip-[] zero = refl
skip-[] (suc n) = refl

pub skip-skip : (a b : ℕ) (cs : Text16) → skip_units b (skip_units a cs) ≡ skip_units (a + b) cs
unfolding skip_units
skip-skip zero b cs = let sum : 0 + b ≡ b = omega arith in rw sum refl
skip-skip (suc a) b [] = let sum : suc a + b ≡ suc (a + b) = omega arith in rw sum (skip-[] b)
skip-skip (suc a) b (c ∷ cs) =
    let sum : suc a + b ≡ suc (a + b) = omega arith in rw sum (skip-skip a b cs)

length-skip_units : (n : ℕ) (cs : Text16) → n ≤ length cs → length (skip_units n cs) + n ≡ length cs
unfolding skip_units
length-skip_units zero cs h = omega arith
length-skip_units (suc n) [] h = omega arith
length-skip_units (suc n) (c ∷ cs) h = omega (arith, length-skip_units n cs)

length-first_units : (n : ℕ) (cs : Text16) → n ≤ length cs → length (first_units n cs) ≡ n
unfolding first_units
length-first_units zero cs h = refl
length-first_units (suc n) [] h = omega arith
length-first_units (suc n) (c ∷ cs) h = ap suc (length-first_units n cs (omega arith))

-- The span of a rule, at a place where the text has its match.
record IsMatch (code : Text16) (rules : List LiteralRule) (s : InternalSpan) : Type 0 where
  rule : LiteralRule
  listed : Memᴰ rule rules
  placed : s ≡ span_at rule s.start
  here : starts rule.match (skip_units s.start code) ≡ true

skip-tail : (n c : ℕ) (code cs : Text16) → skip_units n code ≡ c ∷ cs → skip_units (n + 1) code ≡ cs
unfolding skip_units
skip-tail n c code cs h = sym (skip-skip n 1 code) ∙ ap (skip_units 1) h

offsets-start :
    (code m : Text16) (k n : ℕ) (cs : Text16)
    → skip_units n code ≡ cs
    → All (λ o. starts m (skip_units o code) ≡ true) (offsets_from m k n cs)
unfolding offsets_from
offsets-start code m k n [] h = tt
offsets-start code m (suc k) n (c ∷ cs) h =
    offsets-start code m k (n + 1) cs (skip-tail n c code cs h)
offsets-start code m zero n (c ∷ cs) h =
    let next = skip-tail n c code cs h in
    let taken = offsets-start code m (length m - 1) (n + 1) cs next in
    let passed = offsets-start code m zero (n + 1) cs next in
    elim (Bool-cases (starts m (c ∷ cs))) [
      | inl hit ↦
          subst (λ os. All (λ o. starts m (skip_units o code) ≡ true) os)
            (sym (offsets-hit m n c cs hit)) (ap (starts m) h ∙ hit, taken)
      | inr miss ↦
          subst (λ os. All (λ o. starts m (skip_units o code) ≡ true) os)
            (sym (offsets-miss m n c cs miss)) passed
    ]

module _ (code : Text16) (rules : List LiteralRule) where
  map-IsMatch :
      (r : LiteralRule) (os : List ℕ)
      → Memᴰ r rules
      → All (λ o. starts r.match (skip_units o code) ≡ true) os
      → All (IsMatch code rules) (map (span_at r) os)
  map-IsMatch r [] k h = tt
  map-IsMatch r (o ∷ os) k (h, hs) =
      (record { rule = r; listed = k; placed = refl; here = h }, map-IsMatch r os k hs)

  all_spans-IsMatch :
      (seen : List Text16) (rs : List LiteralRule) (ss : List InternalSpan)
      → ((r : LiteralRule) → Memᴰ r rs → Memᴰ r rules)
      → all_spans code seen rs ≡ done ss
      → All (IsMatch code rules) ss
  unfolding all_spans skip_units
  all_spans-IsMatch seen [] ss sub h = let none_left : [] ≡ ss = cc h in rw (← none_left) tt
  all_spans-IsMatch seen (r ∷ rs) ss sub h =
      let (xs, first, a) = >>=-eq-done (rule_spans code seen r) _ h in
      let (ys, rest, b) = >>=-eq-done (all_spans code (r.match ∷ seen) rs) _ a in
      let both : xs ++ ys ≡ ss = cc b in
      let (_, spans) = rule_spans-offsets code seen r xs first in
      let offsets = offsets_from r.match zero 0 code in
      rw (← both) (
        All-++ (IsMatch code rules) xs ys
          (subst (λ xs. All (IsMatch code rules) xs) (sym spans)
            (map-IsMatch r offsets (sub r (Memᴰ.head refl))
              (offsets-start code r.match zero 0 code refl)))
          (all_spans-IsMatch (r.match ∷ seen) rs ys (λ x k. sub x (Memᴰ.tail k)) rest))

  -- From the cursor to a span, and over it.
  split_at :
      (cursor : ℕ) (s : InternalSpan) (r : LiteralRule)
      → cursor ≤ s.start
      → s.end ≡ s.start + length r.match
      → starts r.match (skip_units s.start code) ≡ true
      → skip_units cursor code ≡ slice code cursor s.start ++ (r.match ++ skip_units s.end code)
  unfolding slice
  split_at cursor s r h e hit =
      let d = s.start - cursor in
      let sum : cursor + d ≡ s.start = omega arith in
      let at : skip_units d (skip_units cursor code) ≡ skip_units s.start code =
        skip-skip cursor d code ∙ ap (λ n. skip_units n code) sum in
      let over : skip_units (length r.match) (skip_units s.start code) ≡ skip_units s.end code =
        skip-skip s.start (length r.match) code ∙ ap (λ n. skip_units n code) (sym e) in
      sym (first-skip d (skip_units cursor code))
      ∙ ap (λ x. first_units d (skip_units cursor code) ++ x)
          (at ∙ starts-split r.match (skip_units s.start code) hit ∙ ap (λ x. r.match ++ x) over)

  length-kept :
      (cursor : ℕ) (s : InternalSpan)
      → cursor ≤ s.start
      → s.start ≤ length code
      → cursor + length (slice code cursor s.start) ≡ s.start
  unfolding slice
  length-kept cursor s h k =
      let rest = length-skip_units cursor code (omega arith) in
      let kept = length-first_units (s.start - cursor) (skip_units cursor code) (omega arith) in
      omega arith

  weave :
      (cursor : ℕ) (ss : List InternalSpan)
      → All (InText (length code)) ss
      → Apart cursor ss
      → All (IsMatch code rules) ss
      → Woven rules cursor ss (skip_units cursor code) (apply_spans_from code cursor ss)
  unfolding apply_spans_from
  weave cursor [] l o f = untouched (skip_units cursor code)
  weave cursor (s ∷ ss) (l, ls) (o, os) (f, fs) =
      let i = l.inside in
      let j = l.nonempty in
      let start : cursor + length (slice code cursor s.start) ≡ s.start =
        length-kept cursor s o (omega arith) in
      replaced (slice code cursor s.start) f.rule f.listed
        (f.placed ∙ ap (span_at f.rule) (sym start))
        (split_at cursor s f.rule o (ap (λ s. s.end) f.placed) f.here)
        (ap (λ x. slice code cursor s.start ++ (x ++ apply_spans_from code s.end ss))
          (ap (λ s. s.replacement) f.placed))
        (weave s.end ss ls os fs)

-- Where the spans of a list of rules are found, the edited text is the text with the match of a
-- rule replaced at each span, and every unit between, before and after the spans kept in its place.
pub apply_spans-Woven :
    (code : Text16) (rules : List LiteralRule) (ss : List InternalSpan)
    → literal_spans code rules ≡ done ss
    → Woven rules 0 ss code (apply_spans code ss)
unfolding apply_spans literal_spans skip_units
apply_spans-Woven code rules ss h =
    let (inside, apart) = literal_spans-Apart code rules ss h in
    let (_, a) =
      >>-eq-done
        (refuse_if (eqb (length rules) 0 || ltb max_t123_literal_rules (length rules))
          limit_exceeded)
        _ h in
    let (found, searched, b) = >>=-eq-done (all_spans code [] rules) _ a in
    let (_, c) =
      >>-eq-done (refuse_if (some_overlap (sort_spans found)) overlapping_replacements) _ b in
    let sorted : sort_spans found ≡ ss = cc c in
    weave code rules 0 ss inside apart (
      subst (λ ss. All (IsMatch code rules) ss) sorted
        (sort_spans-All (IsMatch code rules) found
          (all_spans-IsMatch code rules [] rules found (λ r k. k) searched)))
