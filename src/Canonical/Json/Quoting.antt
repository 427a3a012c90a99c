-- ===== src/Canonical/Json/Quoting.antt =====
-- The quoted form of a string can be read back: nothing else starts with the same text.
use openrep.Prelude.{ℕ, ◌/◌, ◌%◌, ◌<◌, ◌≡◌, refl, sym, Bool, false, [], ◌∷◌, ◌++◌, All, Text, arith}
use mathlib.Core.List.{append_assoc}
use openrep.Canonical.Json.{hex_digit, hex4, encode_unit, encode_units, quote}

abbrev pub IsUnit : ℕ → Type 0
IsUnit c = c < 65536

hex_digit-injective : (a b : ℕ) → a < 16 → b < 16 → hex_digit a ≡ hex_digit b → a ≡ b
unfolding hex_digit
hex_digit-injective a b h k e = ground arith

hex4-injective :
    (c d : ℕ) (r s : Text) → IsUnit c → IsUnit d → hex4 c ++ r ≡ hex4 d ++ s → (c ≡ d) × (r ≡ s)
unfolding hex4
hex4-injective c d r s h k e =
    let p1 = hex_digit-injective (c / 4096) (d / 4096) (omega arith) (omega arith) (cc) in
    let p2 = hex_digit-injective (c / 256 % 16) (d / 256 % 16) (omega arith) (omega arith) (cc) in
    let p3 = hex_digit-injective (c / 16 % 16) (d / 16 % 16) (omega arith) (omega arith) (cc) in
    let p4 = hex_digit-injective (c % 16) (d % 16) (omega arith) (omega arith) (cc) in
    (omega arith, cc)

encode_unit-injective :
    (p q : Bool) (c d : ℕ) (r s : Text)
    → IsUnit c
    → IsUnit d
    → encode_unit p c ++ r ≡ encode_unit q d ++ s
    → (c ≡ d) × (r ≡ s)
unfolding encode_unit
encode_unit-injective p q c d r s h k e = ground (arith, hex4-injective c d r s)

-- No encoded unit starts with the closing quote.
encode_unit-ne-quote : (p : Bool) (c : ℕ) (r s : Text) → 34 ∷ r ≡ encode_unit p c ++ s → ⊥
unfolding encode_unit
encode_unit-ne-quote p c r s e = ground arith

encode_units-injective :
    (a b r s : Text) (p q : Bool)
    → All IsUnit a
    → All IsUnit b
    → encode_units p a ++ 34 ∷ r ≡ encode_units q b ++ 34 ∷ s
    → (a ≡ b) × (r ≡ s)
unfolding encode_units
encode_units-injective [] [] r s p q h k e = (refl, cc)
encode_units-injective [] (d ∷ b) r s p q h k e =
    absurd (encode_unit-ne-quote _ d r _ (rw append_assoc at e))
encode_units-injective (c ∷ a) [] r s p q h k e =
    absurd (encode_unit-ne-quote _ c s _ (sym (rw append_assoc at e)))
encode_units-injective (c ∷ a) (d ∷ b) r s p q h k e =
    let (head, rest) =
      encode_unit-injective _ _ c d _ _ h.0 k.0 (rw (append_assoc, append_assoc) at e) in
    let (tail, after) = encode_units-injective a b r s _ _ h.1 k.1 rest in (cc, after)

-- Two quoted strings with any texts after them are equal only if the strings are, and the texts.
pub quote-injective :
    (a b r s : Text) → All IsUnit a → All IsUnit b → quote a ++ r ≡ quote b ++ s → (a ≡ b) × (r ≡ s)
unfolding quote
quote-injective a b r s h k e = encode_units-injective a b r s false false h k (
    cc (
      append_assoc (encode_units false a) (34 ∷ []) r,
      append_assoc (encode_units false b) (34 ∷ []) s,
    ))
