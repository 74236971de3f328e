-- ===== src/StandardField/Disguise.antt =====
-- Separators and case do not make an unsafe field safe (src/core/standard-field-safety.ts).
use tilda_mcp.Prelude.{ℕ, ◌≡◌, refl, ◌∙◌, sym, List, [], ◌∷◌, true, false, arith, String, codes}
use tilda_mcp.StandardField.Safety.{
  lower, is_separator, is_canonical_standard_field, normalized, is_unsafe_token, is_safe_units,
  is_safe_standard_content_field,
}

-- The second spelling differs from the first in the case of letters and in separators put in or
-- left out, anywhere.
pub data Disguise : List ℕ → List ℕ → Type 0 where
  done : Disguise [] []
  keep :
      {xs ys : List ℕ} (c d : ℕ) → lower c ≡ lower d → Disguise xs ys → Disguise (c ∷ xs) (d ∷ ys)
  put_in : {xs ys : List ℕ} (s : ℕ) → is_separator s ≡ true → Disguise xs ys → Disguise xs (s ∷ ys)
  leave_out :
      {xs ys : List ℕ} (s : ℕ) → is_separator s ≡ true → Disguise xs ys → Disguise (s ∷ xs) ys

lower-separator : (s : ℕ) → is_separator s ≡ true → is_separator (lower s) ≡ true
lower-separator s h = ground arith

separator-normalized :
    (s : ℕ) (xs : List ℕ) → is_separator s ≡ true → normalized (s ∷ xs) ≡ normalized xs
unfolding normalized
separator-normalized s xs h = rw (lower-separator s h) refl

same-normalized : (xs ys : List ℕ) → Disguise xs ys → normalized xs ≡ normalized ys
unfolding normalized
same-normalized [] [] done = refl
same-normalized (c ∷ xs) (d ∷ ys) (keep _ _ h k) = rw (h, same-normalized xs ys k) refl
same-normalized xs (s ∷ ys) (put_in _ h k) =
    same-normalized xs ys k ∙ sym (separator-normalized s ys h)
same-normalized (s ∷ xs) ys (leave_out _ h k) =
    separator-normalized s xs h ∙ same-normalized xs ys k

-- No spelling of a canonical field that is not safe, in which letters change their case and
-- underscores, colons and hyphens are put in or left out anywhere, is a safe field.
pub disguised-unsafe :
    (field spelling : String)
    → is_canonical_standard_field (codes field) ≡ true
    → is_safe_standard_content_field field ≡ false
    → Disguise (codes field) (codes spelling)
    → is_safe_standard_content_field spelling ≡ false
unfolding is_safe_standard_content_field is_safe_units
disguised-unsafe field spelling canonical unsafe k =
    let same = same-normalized (codes field) (codes spelling) k in
    let token : is_unsafe_token (normalized (codes field)) ≡ true = ground arith in
    let token' : is_unsafe_token (normalized (codes spelling)) ≡ true = rw (sym same) token in
    ground arith
