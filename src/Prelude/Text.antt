-- ===== src/Prelude/Text.antt =====
-- Texts: decidable equality, code points, and the fixed patterns by which the sources test them.
use Prim.Native.Char.{code}
use Prim.Native.Nat.{ℕ, zero, suc, ◌+◌}
use Prim.Native.String.{String}
use mathlib.Core.Logic.{dite, ite}
use mathlib.Core.Bool.{Bool, true, false, ◌&&◌, ◌||◌, Bool-discrete, not}
use mathlib.Core.List.{List, [], ◌∷◌}
use text.Mathlib.Text
use text.Mathlib.TextEquality.{eq_iff}
use tilda_mcp.Prelude.Tests.{leb, eqb, if◌then◌else◌}
use tilda_mcp.Prelude.Lists.{length, any, every}

-- `===` on texts. Shut in proofs, where a split on it yields the equation or its negation.
unfoldable pub String-discrete : Discrete String
String-discrete s t =
    dite (Bool-discrete (Text.◌==◌ s t) true) (λ same. yes ((eq_iff s t).0 same))
      (λ differ. no (λ p. differ ((eq_iff s t).1 p)))

infix 50 ◌==◌
abbrev pub ◌==◌ : String → String → Bool
s == t = ite (String-discrete s t) true false

-- The code points of a text.
abbrev pub codes : String → List ℕ
codes String.[] = []
codes (String.◌∷◌ c s) = code c ∷ codes s

abbrev in_range : ℕ → ℕ → ℕ → Bool
in_range lo hi c = leb lo c && leb c hi

abbrev pub is_digit : ℕ → Bool
is_digit = in_range b'0' b'9'

abbrev is_lower_hex : ℕ → Bool
is_lower_hex c = is_digit c || in_range b'a' b'f' c

-- With the flag `i`, upper case letters too.
abbrev is_any_hex : ℕ → Bool
is_any_hex c = is_lower_hex c || in_range b'A' b'F' c

abbrev is_letter_or_digit : ℕ → Bool
is_letter_or_digit c = in_range b'A' b'Z' c || in_range b'a' b'z' c || is_digit c

-- One class for each character of the text, and no more characters.
fits : List (ℕ → Bool) → List ℕ → Bool
fits [] [] = true
fits (p ∷ ps) (c ∷ cs) = p c && fits ps cs
fits _ _ = false

repeat : ℕ → (ℕ → Bool) → List (ℕ → Bool) → List (ℕ → Bool)
repeat zero p rest = rest
repeat (suc n) p rest = p ∷ repeat n p rest

abbrev dash : ℕ → Bool
dash c = eqb c b'-'

abbrev variant : ℕ → Bool
variant c = any (eqb c) (b'8' ∷ b'9' ∷ b'a' ∷ b'b' ∷ b'A' ∷ b'B' ∷ [])

uuid_classes : ℕ → List (ℕ → Bool)
unfolding repeat
uuid_classes last_version = repeat 8 is_any_hex (
    dash
    ∷ repeat 4 is_any_hex (
        dash
        ∷ in_range b'1' last_version
        ∷ repeat 3 is_any_hex
            (dash ∷ variant ∷ repeat 3 is_any_hex (dash ∷ repeat 12 is_any_hex []))))

-- `UUID` of the store, with the versions 1 to 5.
unfoldable pub is_uuid : String → Bool
unfolding fits uuid_classes
is_uuid s = fits (uuid_classes b'5') (codes s)

-- `TASK_UUID` of the store and `UUID` of the task authority, with the versions 1 to 8.
unfoldable pub is_task_uuid : String → Bool
unfolding fits uuid_classes
is_task_uuid s = fits (uuid_classes b'8') (codes s)

-- `HEX_HASH`, `HEX_SHA256`.
unfoldable pub is_hex_hash : String → Bool
unfolding fits repeat
is_hex_hash s = fits (repeat 64 is_lower_hex []) (codes s)

-- `CANONICAL_HASH`, `SHA256`.
unfoldable pub is_canonical_hash : String → Bool
unfolding fits repeat
is_canonical_hash s =
    fits
      (eqb b's'
        ∷ eqb b'h'
        ∷ eqb b'a'
        ∷ eqb b'2'
        ∷ eqb b'5'
        ∷ eqb b'6'
        ∷ eqb b':'
        ∷ repeat 64 is_lower_hex [])
      (codes s)

is_positive_decimal : List ℕ → Bool
is_positive_decimal [] = false
is_positive_decimal (c ∷ cs) = in_range b'1' b'9' c && every is_digit cs

-- `CANONICAL_ID`.
unfoldable pub is_canonical_id : String → Bool
unfolding is_positive_decimal
is_canonical_id s = is_positive_decimal (codes s)

is_token : List ℕ → Bool
is_token [] = false
is_token (c ∷ cs) =
    is_letter_or_digit c
    && every (λ d. is_letter_or_digit d || any (eqb d) (b'.' ∷ b'_' ∷ b'-' ∷ [])) cs
    && leb (length cs) 127

-- `SAFE_TOKEN`.
unfoldable pub is_safe_token : String → Bool
unfolding is_token
is_safe_token s = is_token (codes s)

-- `s.length`: UTF-16 units, two for a code point past the first plane.
unfoldable pub utf16_length : List ℕ → ℕ
utf16_length [] = 0
utf16_length (c ∷ cs) = (if leb 0x10000 c then 2 else 1) + utf16_length cs

-- White space and line terminators, which `trim` removes.
is_space : ℕ → Bool
is_space c =
    in_range 9 13 c
    || in_range 0x2000 0x200a c
    || any (eqb c) (32 ∷ 160 ∷ 0x1680 ∷ 0x2028 ∷ 0x2029 ∷ 0x202f ∷ 0x205f ∷ 0x3000 ∷ 0xfeff ∷ [])

-- `s.trim().length === 0`.
unfoldable pub is_blank : List ℕ → Bool
unfolding is_space
is_blank cs = every is_space cs

-- `Buffer.byteLength(s, "utf8")`.
unfoldable pub utf8_length : List ℕ → ℕ
utf8_length [] = 0
utf8_length (c ∷ cs) =
    (if leb 0x10000 c then 4 else if leb 0x800 c then 3 else if leb 0x80 c then 2 else 1)
    + utf8_length cs

ends_in_space : List ℕ → Bool
ends_in_space [] = false
ends_in_space (c ∷ []) = is_space c
ends_in_space (c ∷ d ∷ cs) = ends_in_space (d ∷ cs)

begins_with_space : List ℕ → Bool
begins_with_space [] = false
begins_with_space (c ∷ cs) = is_space c

-- `s.trim() === s`.
unfoldable pub is_trimmed : List ℕ → Bool
unfolding is_space begins_with_space ends_in_space
is_trimmed cs = not (begins_with_space cs) && not (ends_in_space cs)
