-- ===== src/Canonical/Json.antt =====
-- `JSON.stringify` of a string, as packages/sdk/src/canonical.ts uses it (the well-formed variant of the
-- language standard: lone surrogates are escaped).
pub mod Quoting
use openrep.Prelude.{
  ℕ, ◌+◌, ◌/◌, ◌%◌, Bool, true, false, not, ◌&&◌, ◌||◌, Option, none, some, List, [], ◌∷◌, ◌++◌,
  ltb, leb, ◌==◌, if◌then◌else◌, Text,
}

pub hex_digit : ℕ → ℕ
hex_digit n = if ltb n 10 then 48 + n else 87 + n

-- The two-character escapes: `\b \t \n \f \r \" \\`.
abbrev pub short_escape : ℕ → Option ℕ
short_escape c =
    if c == 8
    then some 98
    else if c == 9
    then some 116
    else if c == 10
    then some 110
    else if c == 12
    then some 102
    else if c == 13
    then some 114
    else if c == 34
    then some 34
    else if c == 92
    then some 92
    else none

abbrev is_high : ℕ → Bool
is_high c = leb 0xd800 c && leb c 0xdbff

abbrev is_low : ℕ → Bool
is_low c = leb 0xdc00 c && leb c 0xdfff

abbrev starts_low : Text → Bool
starts_low [] = false
starts_low (c ∷ s) = is_low c

unfoldable pub hex4 : ℕ → Text
unfolding hex_digit
hex4 c =
    hex_digit (c / 4096)
    ∷ hex_digit (c / 256 % 16)
    ∷ hex_digit (c / 16 % 16)
    ∷ hex_digit (c % 16)
    ∷ []

-- One code unit; `paired` says that it is half of a surrogate pair.
unfoldable pub encode_unit : Bool → ℕ → Text
encode_unit paired c = elim (short_escape c) [
  | some e ↦ 92 ∷ e ∷ []
  | none ↦ if ltb c 32 || (is_high c || is_low c) && not paired then 92 ∷ 117 ∷ hex4 c else c ∷ []
]

-- `after_high` says that the unit before is the high half of a pair.
unfoldable pub encode_units : Bool → Text → Text
encode_units after_high [] = []
encode_units after_high (c ∷ s) =
    encode_unit (after_high || is_high c && starts_low s) c
    ++ encode_units (is_high c && starts_low s) s

unfoldable pub quote : Text → Text
quote s = 34 ∷ (encode_units false s ++ 34 ∷ [])
