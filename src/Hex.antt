-- ===== src/Hex.antt =====
-- packages/sdk/src/hex.ts: the lowercase hexadecimal codec of keys, hashes and signatures.
pub mod RoundTrip
use openrep.Prelude.{
  ℕ, suc, ◌+◌, ◌-◌, ◌*◌, ◌/◌, ◌%◌, ◌<◌, Bool, true, false, ◌&&◌, ◌||◌, List, [], ◌∷◌, ltb, leb,
  ◌==◌, if◌then◌else◌, length, all, Text,
}

-- One digit of `b.toString(16)`.
unfoldable pub hex_digit : ℕ → ℕ
hex_digit n = if ltb n 10 then 48 + n else 87 + n

-- A `Uint8Array` is a list of numbers below 256; each prints as two digits.
unfoldable pub bytes_to_hex : List ℕ → Text
bytes_to_hex [] = []
bytes_to_hex (b ∷ bytes) = hex_digit (b / 16) ∷ hex_digit (b % 16) ∷ bytes_to_hex bytes

-- The value of a character in `parseInt(…, 16)`; 16 for a character that is no digit.
unfoldable pub digit_value : ℕ → ℕ
digit_value c =
    if leb 48 c && leb c 57
    then c - 48
    else if leb 97 c && leb c 102
    then c - 87
    else if leb 65 c && leb c 70
    then c - 55
    else 16

-- `parseInt` of a slice of two characters: it stops at the first that is no digit, and the NaN of
-- a slice that starts with none is stored as 0. Blanks, signs and `0x` are outside the model: the
-- callers pass validated text.
unfoldable pub parse_byte : ℕ → ℕ → ℕ
parse_byte hi lo =
    if leb 16 (digit_value hi)
    then 0
    else if leb 16 (digit_value lo)
    then digit_value hi
    else digit_value hi * 16 + digit_value lo

-- `new Uint8Array(hex.length / 2)` rounds down, so an odd last character is dropped.
unfoldable pub hex_to_bytes : Text → List ℕ
hex_to_bytes (hi ∷ lo ∷ hex) = parse_byte hi lo ∷ hex_to_bytes hex
hex_to_bytes _ = []

unfoldable pub is_hex_code : ℕ → Bool
is_hex_code code = leb 48 code && leb code 57 || leb 97 code && leb code 102

unfoldable pub is_lowercase_hex_of_length : Text → ℕ → Bool
unfolding is_hex_code
is_lowercase_hex_of_length value byte_length =
    if length value == byte_length * 2 then all is_hex_code value else false

abbrev pub IsByte : ℕ → Type 0
IsByte b = b < 256
