-- ===== src/T123/Data.antt =====
-- Texts as JavaScript has them, and the results of the helper (src/adapters/t123-code-helper.ts). A
-- text is the list of its UTF-16 units, so an offset into the text is an index of the list.
use tilda_mcp.Prelude.{
  ℕ, ◌+◌, ◌-◌, String, List, [], ◌∷◌, ◌++◌, Bool, true, false, ◌&&◌, ltb, leb, eqb, if◌then◌else◌,
  codes, ◌≡◌, refl,
}
use Prim.Native.Nat.{◌/◌, ◌%◌}

abbrev pub Text16 : Type 0
Text16 = List ℕ

pub data T123CodeHelperErrorCode : Type 0 where
  invalid_input limit_exceeded match_count_mismatch : T123CodeHelperErrorCode
  overlapping_replacements no_change structural_damage : T123CodeHelperErrorCode

-- What a function of the helper returns or throws.
pub data Helped (A : Type 0) : Type 0 where
  done : A → Helped A
  refused : T123CodeHelperErrorCode → Helped A

infixl 5 ◌>>=◌ ◌>>◌
abbrev pub ◌>>=◌ : {A B : Type 0} → Helped A → (A → Helped B) → Helped B
done a >>= f = f a
refused c >>= f = refused c

abbrev pub ◌>>◌ : {A B : Type 0} → Helped A → Helped B → Helped B
m >> k = m >>= λ _. k

-- `if (test) throw`.
abbrev pub refuse_if : Bool → T123CodeHelperErrorCode → Helped (Unit {0})
refuse_if true c = refused c
refuse_if false c = done tt

abbrev pub max_t123_code_bytes : ℕ
max_t123_code_bytes = 5000000

abbrev pub max_t123_literal_rules : ℕ
max_t123_literal_rules = 128

abbrev pub max_t123_literal_matches : ℕ
max_t123_literal_matches = 2048

-- The units of a text of code points: two for a code point past the first plane.
abbrev units_of : ℕ → Text16
units_of c =
    if ltb c 0x10000
    then c ∷ []
    else (0xd800 + (c - 0x10000) / 0x400) ∷ (0xdc00 + (c - 0x10000) % 0x400) ∷ []

unfoldable pub units_from : List ℕ → Text16
units_from [] = []
units_from (c ∷ cs) = units_of c ++ units_from cs

unfoldable pub units : String → Text16
unfolding units_from
units s = units_from (codes s)

abbrev is_high : ℕ → Bool
is_high c = leb 0xd800 c && ltb c 0xdc00

abbrev is_low : ℕ → Bool
is_low c = leb 0xdc00 c && ltb c 0xe000

abbrev starts_low : Text16 → Bool
starts_low [] = false
starts_low (c ∷ cs) = is_low c

-- The bytes that `TextEncoder` gives: four for a pair of surrogates, counted at its first unit, and
-- three for a surrogate that stands alone. `paired` says that the unit ends a pair.
unfoldable pub bytes_from : Bool → Text16 → ℕ
bytes_from paired [] = 0
bytes_from true (c ∷ cs) = bytes_from false cs
bytes_from false (c ∷ cs) =
    let pair = is_high c && starts_low cs in
    let rest = bytes_from pair cs in
    (if pair then 4 else if ltb c 0x80 then 1 else if ltb c 0x800 then 2 else 3) + rest

unfoldable pub bytes : Text16 → ℕ
unfolding bytes_from
bytes = bytes_from false

unfoldable pub assert_bounded_text : Text16 → Helped Text16
assert_bounded_text value = do
  refuse_if (ltb max_t123_code_bytes (bytes value)) limit_exceeded
  done value

-- The text starts with another.
abbrev pub starts : Text16 → Text16 → Bool
starts [] cs = true
starts (m ∷ ms) [] = false
starts (m ∷ ms) (c ∷ cs) = let rest = starts ms cs in eqb m c && rest

abbrev pub same_units : Text16 → Text16 → Bool
same_units [] [] = true
same_units (a ∷ as') (b ∷ bs) = let rest = same_units as' bs in eqb a b && rest
same_units _ _ = false

pub >>=-eq-done :
    {A B : Type 0} (m : Helped A) (f : A → Helped B) {b : B}
    → (m >>= f) ≡ done b
    → (a : A) × (m ≡ done a) × (f a ≡ done b)
>>=-eq-done (done a) f h = (a, refl, h)
>>=-eq-done (refused c) f h = cc

pub refuse_if-eq-done :
    (b : Bool) (c : T123CodeHelperErrorCode) → refuse_if b c ≡ done tt → b ≡ false
refuse_if-eq-done true c h = cc
refuse_if-eq-done false c h = refl

-- The inversion of a check that is followed by the rest.
pub >>-eq-done :
    {B : Type 0} (m : Helped (Unit {0})) (k : Helped B) {b : B}
    → (m >> k) ≡ done b
    → (m ≡ done tt) × (k ≡ done b)
>>-eq-done (done tt) k h = (refl, h)
>>-eq-done (refused c) k h = cc
