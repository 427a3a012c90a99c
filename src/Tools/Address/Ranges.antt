-- ===== src/Tools/Address/Ranges.antt =====
-- The ranges of addresses that the tables of prefixes stand for.
use openrep.Tools.Address.{
  is_private_ipv4, of_parts, parse_ipv4, is_sensitive_ipv4, is_sensitive_ip, parse_octet, in_some,
  bytes_in_cidr, same_bits, ipv4_private_cidrs, octets,
}
use openrep.Prelude.{
  ◌∙◌, ap, split, ◌%◌, ◌/◌, split_piece, [], ◌+◌, split_join, ltb, ◌∷◌, if◌then◌else◌, some, ◌++◌,
  IsPiece, Text, refl, false, ℕ, Bool, ◌≡◌, arith, ◌<◌, ◌==◌, leb, ◌&&◌, ◌||◌,
}

-- The special ranges of IPv4, as the numbers of the dotted notation.
abbrev pub is_special : ℕ → ℕ → ℕ → ℕ → Bool
is_special a b c d =
    (a == 0)
    || ((a == 10)
        || ((a == 100) && (leb 64 b && leb b 127)
            || ((a == 127)
                || ((a == 169) && (b == 254)
                    || ((a == 172) && (leb 16 b && leb b 31)
                        || ((a == 192) && ((b == 0) && (c == 2))
                            || ((a == 192) && (b == 168)
                                || ((a == 198) && (leb 18 b && leb b 19)
                                    || ((a == 198) && ((b == 51) && (c == 100))
                                        || ((a == 203) && ((b == 0) && (c == 113))
                                            || (leb 224 a && leb a 239 || leb 240 a)))))))))))

module _ (a b c d : ℕ) (ha : a < 256) (hb : b < 256) (hc : c < 256) where
  prefix_8 : (p q r s : ℕ) → bytes_in_cidr (octets a b c d) (octets p q r s, 8) ≡ (a == p)
  unfolding bytes_in_cidr same_bits
  prefix_8 p q r s = ground arith

  prefix_16 :
      (p q r s : ℕ) → bytes_in_cidr (octets a b c d) (octets p q r s, 16) ≡ ((a == p) && (b == q))
  unfolding bytes_in_cidr same_bits
  prefix_16 p q r s = ground arith

  prefix_24 :
      (p q r s : ℕ)
      → bytes_in_cidr (octets a b c d) (octets p q r s, 24) ≡ ((a == p) && ((b == q) && (c == r)))
  unfolding bytes_in_cidr same_bits
  prefix_24 p q r s = ground arith

  shared :
      bytes_in_cidr (octets a b c d) (octets 100 64 0 0, 10)
      ≡ ((a == 100) && (leb 64 b && leb b 127))
  unfolding bytes_in_cidr same_bits
  shared = ground arith

  private_12 :
      bytes_in_cidr (octets a b c d) (octets 172 16 0 0, 12)
      ≡ ((a == 172) && (leb 16 b && leb b 31))
  unfolding bytes_in_cidr same_bits
  private_12 = ground arith

  benchmark :
      bytes_in_cidr (octets a b c d) (octets 198 18 0 0, 15)
      ≡ ((a == 198) && (leb 18 b && leb b 19))
  unfolding bytes_in_cidr same_bits
  benchmark = ground arith

  multicast : bytes_in_cidr (octets a b c d) (octets 224 0 0 0, 4) ≡ (leb 224 a && leb a 239)
  unfolding bytes_in_cidr same_bits
  multicast = ground arith

  reserved : bytes_in_cidr (octets a b c d) (octets 240 0 0 0, 4) ≡ leb 240 a
  unfolding bytes_in_cidr same_bits
  reserved = ground arith

  -- The limited broadcast is a reserved address.
  broadcast :
      (leb 240 a || (bytes_in_cidr (octets a b c d) (octets 255 255 255 255, 32) || false))
      ≡ leb 240 a
  unfolding bytes_in_cidr same_bits
  broadcast = ground arith

  in_ranges : in_some ipv4_private_cidrs (octets a b c d) ≡ is_special a b c d
  unfolding in_some ipv4_private_cidrs
  in_ranges =
      rw
        (
          prefix_8 0 0 0 0,
          prefix_8 10 0 0 0,
          shared,
          prefix_8 127 0 0 0,
          prefix_16 169 254 0 0,
          private_12,
          prefix_24 192 0 2 0,
          prefix_16 192 168 0 0,
          benchmark,
          prefix_24 198 51 100 0,
          prefix_24 203 0 113 0,
          multicast,
          reserved,
          broadcast,
        )
        refl

-- A byte in decimal digits, and an address in dotted notation.
abbrev pub byte_text : ℕ → Text
byte_text n =
    if ltb n 10
    then (48 + n) ∷ []
    else if ltb n 100
    then (48 + n / 10) ∷ (48 + n % 10) ∷ []
    else (48 + n / 100) ∷ (48 + n / 10 % 10) ∷ (48 + n % 10) ∷ []

abbrev pub dotted : ℕ → ℕ → ℕ → ℕ → Text
dotted a b c d = byte_text a ++ 46 ∷ (byte_text b ++ 46 ∷ (byte_text c ++ 46 ∷ byte_text d))

parse_octet-byte_text : (n : ℕ) → n < 256 → parse_octet (byte_text n) ≡ some n
unfolding parse_octet
parse_octet-byte_text n h = ground arith

byte_text-IsPiece : (n : ℕ) → n < 256 → IsPiece 46 (byte_text n)
byte_text-IsPiece n h = ground arith

split-dotted :
    (a b c d : ℕ)
    → a < 256
    → b < 256
    → c < 256
    → d < 256
    → split 46 (dotted a b c d) ≡ byte_text a ∷ byte_text b ∷ byte_text c ∷ byte_text d ∷ []
split-dotted a b c d ha hb hc hd =
    split_join 46 (byte_text a) _ (byte_text-IsPiece a ha)
    ∙ ap (λ x. byte_text a ∷ x)
        (split_join 46 (byte_text b) _ (byte_text-IsPiece b hb)
          ∙ ap (λ x. byte_text b ∷ x)
              (split_join 46 (byte_text c) _ (byte_text-IsPiece c hc)
                ∙ ap (λ x. byte_text c ∷ x)
                    (split_piece 46 (byte_text d) (byte_text-IsPiece d hd))))

parse_ipv4-dotted :
    (a b c d : ℕ)
    → a < 256
    → b < 256
    → c < 256
    → d < 256
    → parse_ipv4 (dotted a b c d) ≡ some (octets a b c d)
unfolding parse_ipv4
parse_ipv4-dotted a b c d ha hb hc hd =
    ap of_parts (split-dotted a b c d ha hb hc hd)
    ∙ rw
        (
          parse_octet-byte_text a ha,
          parse_octet-byte_text b hb,
          parse_octet-byte_text c hc,
          parse_octet-byte_text d hd,
        )
        refl

-- The text of an address in dotted notation is taken for sensitive exactly when the address is in
-- one of the special ranges: this network, private use, shared use, loopback, link-local,
-- documentation, benchmarking, multicast, reserved and broadcast.
pub is_sensitive_ip-dotted :
    (a b c d : ℕ)
    → a < 256
    → b < 256
    → c < 256
    → d < 256
    → is_sensitive_ip 4 (dotted a b c d) ≡ is_special a b c d
unfolding is_sensitive_ip is_sensitive_ipv4
is_sensitive_ip-dotted a b c d ha hb hc hd =
    ap is_private_ipv4 (parse_ipv4-dotted a b c d ha hb hc hd) ∙ in_ranges a b c d ha hb hc
