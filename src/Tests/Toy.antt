-- ===== src/Tests/Toy.antt =====
-- A platform for the runs: a hash and signatures that behave as documented and hide nothing.
use openrep.Platform.{Platform, CryptoLaws}
use openrep.Prelude.{
  if◌then◌else◌, refl, ◌==◌, arith, ℕ, zero, suc, ◌+◌, ◌%◌, ◌<◌, ◌≡◌, some, none, List, [], ◌∷◌,
  All, length,
}
use openrep.Hex.{bytes_to_hex, IsByte}
use openrep.Hex.RoundTrip.{is_lowercase_hex_of_length-bytes_to_hex}

abbrev pub repeated : ℕ → ℕ → List ℕ
repeated b zero = []
repeated b (suc n) = b ∷ repeated b n

abbrev total : List ℕ → ℕ
total [] = 0
total (x ∷ xs) = x + total xs

abbrev first : List ℕ → ℕ
first [] = 0
first (x ∷ xs) = x

pub repeated-IsByte : (b n : ℕ) → b < 256 → All IsByte (repeated b n) × (length (repeated b n) ≡ n)
repeated-IsByte b zero h = (tt, refl)
repeated-IsByte b (suc n) h =
    ((h, (repeated-IsByte b n h).0), omega (arith, (repeated-IsByte b n h).1))

-- A private key is as good as its length, and a signature as good as the sum of its message.
abbrev pub toy : Platform
toy = record {
  sha256_hex = λ t. bytes_to_hex (repeated (length t % 256) 32);
  get_public_key = λ k. some (repeated (length k % 256) 32);
  sign = λ m k. some (repeated ((total m + length k) % 256) 64);
  verify = λ s m pk. some (first s == ((total m + first pk) % 256));
  encode = λ t. t;
  parse_date = λ t. if length t == 0 then none else some (length t);
}

pub toy_laws : CryptoLaws toy
toy_laws = record {
  digest = λ t.
      let (bytes, count) = repeated-IsByte (length t % 256) 32 (omega arith) in
      rw count at (is_lowercase_hex_of_length-bytes_to_hex (repeated (length t % 256) 32) bytes);
  public_key_size = λ k pk h.
      let e : repeated (length k % 256) 32 ≡ pk = cc in
      rw (← e) (repeated-IsByte (length k % 256) 32 (omega arith));
  signature_size = λ m k s h.
      let e : repeated ((total m + length k) % 256) 64 ≡ s = cc in
      rw (← e) (repeated-IsByte ((total m + length k) % 256) 64 (omega arith));
  sign_verify = λ m k pk s h h'.
      let e : repeated (length k % 256) 32 ≡ pk = cc in
      let e' : repeated ((total m + length k) % 256) 64 ≡ s = cc in rw (← e, ← e') (ground arith);
}
