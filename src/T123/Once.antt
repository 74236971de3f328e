-- ===== src/T123/Once.antt =====
-- A single replacement (src/adapters/t123-code-helper.ts).
use mathlib.Core.Path.{subst}
use tilda_mcp.Prelude.{
  ℕ, zero, suc, ◌+◌, ◌-◌, ◌<◌, ◌≡◌, refl, sym, ap, ◌∙◌, String, [], ◌∷◌, ◌++◌, Bool, false, arith,
  length, Bool-cases, inl, inr,
}
use tilda_mcp.T123.Data.{Text16, Helped, done, starts, same_units}
use tilda_mcp.T123.Spans.{offsets_from, skip_units}
use tilda_mcp.T123.Plan.{T123CodeEditPlan, plan_single}
use tilda_mcp.T123.Replace.{
  replace_from, offsets-hit, offsets-miss, replace-hit, replace-miss, plan_single-eq-replace,
}
use tilda_mcp.T123.Weaving.{starts-split}

-- The match begins nowhere in the text.
abbrev pub Absent : Text16 → Text16 → Type 0
Absent m [] = Unit
Absent m (c ∷ cs) = (starts m (c ∷ cs) ≡ false) × Absent m cs

-- The match begins nowhere in the first part of a text that goes on with `rest`.
abbrev pub AbsentBefore : Text16 → Text16 → Text16 → Type 0
AbsentBefore m [] rest = Unit
AbsentBefore m (c ∷ cs) rest = (starts m (c ∷ (cs ++ rest)) ≡ false) × AbsentBefore m cs rest

-- The new code is the old one with one match replaced. The match begins nowhere before that place,
-- and nowhere after its end; it may also begin inside it.
pub record ReplacedOnce (m r old new : Text16) : Type 0 where
  pub before : Text16
  pub after : Text16
  pub old_text : old ≡ before ++ (m ++ after)
  pub new_text : new ≡ before ++ (r ++ after)
  pub none_before : AbsentBefore m before (m ++ after)
  pub none_after : Absent m after

module _ (m : Text16) where
  offsets-skip :
      (k n : ℕ) (cs : Text16)
      → length (offsets_from m k n cs) ≡ length (offsets_from m zero (n + k) (skip_units k cs))
  unfolding offsets_from skip_units
  offsets-skip zero n cs = let sum : n + 0 ≡ n = omega arith in rw sum refl
  offsets-skip (suc k) n [] = refl
  offsets-skip (suc k) n (c ∷ cs) =
      let sum : n + suc k ≡ n + 1 + k = omega arith in rw sum (offsets-skip k (n + 1) cs)

  replace-skip :
      (r : Text16) (k : ℕ) (cs : Text16)
      → replace_from m r k cs ≡ replace_from m r zero (skip_units k cs)
  unfolding replace_from skip_units
  replace-skip r zero cs = refl
  replace-skip r (suc k) [] = refl
  replace-skip r (suc k) (c ∷ cs) = replace-skip r k cs

  no_offsets :
      (r : Text16) (n : ℕ) (cs : Text16)
      → length (offsets_from m zero n cs) ≡ 0
      → Absent m cs × (replace_from m r zero cs ≡ cs)
  unfolding offsets_from replace_from
  no_offsets r n [] h = (tt, refl)
  no_offsets r n (c ∷ cs) h = elim (Bool-cases (starts m (c ∷ cs))) [
    | inl hit ↦ let one = sym (ap length (offsets-hit m n c cs hit)) ∙ h in absurd (omega arith)
    | inr miss ↦
        let (absent, same) =
          no_offsets r (n + 1) cs (sym (ap length (offsets-miss m n c cs miss)) ∙ h) in
        ((miss, absent), replace-miss m r c cs miss ∙ ap (λ ds. c ∷ ds) same)
  ]

skip-match :
    (m : Text16) (c : ℕ) (cs : Text16)
    → 0 < length m
    → skip_units (length m) (c ∷ cs) ≡ skip_units (length m - 1) cs
unfolding skip_units
skip-match [] c cs h = absurd (omega arith)
skip-match (x ∷ ms) c cs h =
    let less : suc (length ms) - 1 ≡ length ms = omega arith in ap (λ n. skip_units n cs) (sym less)

module _ (m r : Text16) (filled : 0 < length m) where
  -- A text in which one match is counted.
  once :
      (n : ℕ) (cs : Text16)
      → length (offsets_from m zero n cs) ≡ 1
      → ReplacedOnce m r cs (replace_from m r zero cs)
  unfolding offsets_from replace_from
  once n [] h = absurd (omega arith)
  once n (c ∷ cs) h = elim (Bool-cases (starts m (c ∷ cs))) [
    | inl hit ↦
        let counted = sym (ap length (offsets-hit m n c cs hit)) ∙ h in
        let no_more : length (offsets_from m (length m - 1) (n + 1) cs) ≡ 0 =
          omega (arith, counted) in
        let none = sym (offsets-skip m (length m - 1) (n + 1) cs) ∙ no_more in
        let (absent, same) =
          no_offsets m r (n + 1 + (length m - 1)) (skip_units (length m - 1) cs) none in
        record {
          before = [];
          after = skip_units (length m - 1) cs;
          old_text = starts-split m (c ∷ cs) hit ∙ ap (λ ds. m ++ ds) (skip-match m c cs filled);
          new_text =
              replace-hit m r c cs hit
              ∙ ap (λ ds. r ++ ds) (replace-skip m r (length m - 1) cs ∙ same);
          none_before = tt;
          none_after = absent;
        }
    | inr miss ↦
        let rest = once (n + 1) cs (sym (ap length (offsets-miss m n c cs miss)) ∙ h) in
        record {
          before = c ∷ rest.before;
          after = rest.after;
          old_text = ap (λ ds. c ∷ ds) rest.old_text;
          new_text = replace-miss m r c cs miss ∙ ap (λ ds. c ∷ ds) rest.new_text;
          none_before =
              (subst (λ ds. starts m (c ∷ ds) ≡ false) rest.old_text miss, rest.none_before);
          none_after = rest.none_after;
        }
  ]

module _ {D : Type 0} (sha256 : Text16 → String) (locale_le : String → String → Bool)
    (dependencies : Text16 → Helped D) where
  -- The plan of a single replacement, where it is made, has the text with one match replaced and
  -- every other unit kept. The match begins nowhere before that place and nowhere after its end,
  -- though it may overlap itself there. The planned code differs from the text.
  pub plan_single-ReplacedOnce :
      (current match replacement : Text16) (p : T123CodeEditPlan D)
      → plan_single sha256 locale_le dependencies current match replacement ≡ done p
      → ReplacedOnce match replacement current p.code × (same_units current p.code ≡ false)
  plan_single-ReplacedOnce current match replacement p h =
      let (filled, edited, counted, differs) =
        plan_single-eq-replace sha256 locale_le dependencies current match replacement p h in
      (
        subst (λ code. ReplacedOnce match replacement current code) (sym edited)
            (once match replacement filled 0 current counted),
        differs,
      )
