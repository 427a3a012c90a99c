-- ===== src/Hex/RoundTrip.antt =====
-- The codec is a bijection between byte strings and the texts that the validator accepts.
use openrep.Prelude.{
  ℕ, zero, suc, ◌*◌, ◌/◌, ◌%◌, ◌<◌, ◌≡◌, refl, true, List, [], ◌∷◌, arith, length, all, All, Text,
}
use openrep.Hex.{
  hex_digit, bytes_to_hex, digit_value, parse_byte, hex_to_bytes, is_hex_code,
  is_lowercase_hex_of_length, IsByte,
}

parse_byte-hex_digit : (b : ℕ) → b < 256 → parse_byte (hex_digit (b / 16)) (hex_digit (b % 16)) ≡ b
unfolding parse_byte digit_value hex_digit
parse_byte-hex_digit b h = ground arith

-- Decoding the hexadecimal text of any bytes gives the bytes back.
pub hex_to_bytes-bytes_to_hex :
    (bytes : List ℕ) → All IsByte bytes → hex_to_bytes (bytes_to_hex bytes) ≡ bytes
unfolding hex_to_bytes bytes_to_hex
hex_to_bytes-bytes_to_hex [] h = refl
hex_to_bytes-bytes_to_hex (b ∷ bytes) h =
    cc (parse_byte-hex_digit b h.0, hex_to_bytes-bytes_to_hex bytes h.1)

hex_digit-parse_byte :
    (hi lo : ℕ)
    → is_hex_code hi ≡ true
    → is_hex_code lo ≡ true
    → (hex_digit (parse_byte hi lo / 16) ≡ hi)
      × (hex_digit (parse_byte hi lo % 16) ≡ lo)
      × (parse_byte hi lo < 256)
unfolding parse_byte digit_value hex_digit is_hex_code
hex_digit-parse_byte hi lo h k = (ground arith, ground arith, ground arith)

hex_pairs :
    (n : ℕ) (value : Text)
    → length value ≡ n * 2
    → all is_hex_code value ≡ true
    → (bytes_to_hex (hex_to_bytes value) ≡ value)
      × (length (hex_to_bytes value) ≡ n)
      × All IsByte (hex_to_bytes value)
unfolding hex_to_bytes bytes_to_hex
hex_pairs zero [] e h = (refl, refl, tt)
hex_pairs (suc n) [] e h = absurd (omega arith)
hex_pairs zero (c ∷ value) e h = absurd (omega arith)
hex_pairs (suc n) (hi ∷ []) e h = absurd (omega arith)
hex_pairs (suc n) (hi ∷ lo ∷ value) e h =
    let (text, count, bytes) = hex_pairs n value (omega arith) (ground arith) in
    let (high, low, byte) = hex_digit-parse_byte hi lo (ground arith) (ground arith) in
    (cc, omega arith, (byte, bytes))

-- A text that the validator accepts for `n` bytes decodes to exactly `n` bytes, and encoding them
-- gives the text back: no two accepted texts stand for the same bytes.
pub bytes_to_hex-hex_to_bytes :
    (n : ℕ) (value : Text)
    → is_lowercase_hex_of_length value n ≡ true
    → (bytes_to_hex (hex_to_bytes value) ≡ value)
      × (length (hex_to_bytes value) ≡ n)
      × All IsByte (hex_to_bytes value)
unfolding is_lowercase_hex_of_length
bytes_to_hex-hex_to_bytes n value h = hex_pairs n value (ground arith) (ground arith)

hex_digit-is_hex_code : (n : ℕ) → n < 16 → is_hex_code (hex_digit n) ≡ true
unfolding hex_digit is_hex_code
hex_digit-is_hex_code n h = ground arith

encoded_pairs :
    (bytes : List ℕ)
    → All IsByte bytes
    → (length (bytes_to_hex bytes) ≡ length bytes * 2)
      × (all is_hex_code (bytes_to_hex bytes) ≡ true)
unfolding bytes_to_hex
encoded_pairs [] h = (refl, refl)
encoded_pairs (b ∷ bytes) h =
    let (count, codes) = encoded_pairs bytes h.1 in
    let high = hex_digit-is_hex_code (b / 16) (omega (arith, h.0)) in
    let low = hex_digit-is_hex_code (b % 16) (omega arith) in (omega arith, rw (high, low) codes)

-- The text of any bytes is accepted, at their number.
pub is_lowercase_hex_of_length-bytes_to_hex :
    (bytes : List ℕ)
    → All IsByte bytes
    → is_lowercase_hex_of_length (bytes_to_hex bytes) (length bytes) ≡ true
unfolding is_lowercase_hex_of_length
is_lowercase_hex_of_length-bytes_to_hex bytes h =
    let (count, codes) = encoded_pairs bytes h in ground arith
