-- ===== src/Tools/Address.antt =====
-- The addresses that packages/sdk/src/tools/guards.ts refuses.
pub mod Ranges
use openrep.Prelude.{
  ℕ, zero, suc, ◌+◌, ◌*◌, ◌-◌, ◌/◌, ◌%◌, ◌^◌, Bool, true, false, not, ◌&&◌, ◌||◌, Option, none,
  some, List, [], ◌∷◌, ◌++◌, Text, text, length, any, all, ltb, leb, ◌==◌, if◌then◌else◌, is_some,
  split, split_colons, ends_in_colons, starts_with, traverse, drop,
}

abbrev pub is_digit : ℕ → Bool
is_digit c = leb 48 c && leb c 57

abbrev decimal_from : ℕ → Text → ℕ
decimal_from n [] = n
decimal_from n (c ∷ t) = decimal_from (n * 10 + (c - 48)) t

-- `/^(0|[1-9]\d{0,2})$/`
abbrev is_octet_text : Text → Bool
is_octet_text [] = false
is_octet_text (c ∷ t) =
    ((c == 48) && (length t == 0)) || (leb 49 c && leb c 57 && leb (length t) 2 && all is_digit t)

unfoldable pub parse_octet : Text → Option ℕ
parse_octet part =
    if not (is_octet_text part)
    then none
    else if ltb 255 (decimal_from 0 part)
    then none
    else some (decimal_from 0 part)

-- Four parts, each of them a byte.
abbrev pub of_parts : List Text → Option (List ℕ)
of_parts parts = if length parts == 4 then traverse parse_octet parts else none

unfoldable pub parse_ipv4 : Text → Option (List ℕ)
parse_ipv4 address = of_parts (split 46 address)

-- `toLowerCase`; no character outside ASCII becomes a hexadecimal digit, a point or a colon.
abbrev lower_code : ℕ → ℕ
lower_code c = if leb 65 c && leb c 90 then c + 32 else c

abbrev pub to_lower : Text → Text
to_lower [] = []
to_lower (c ∷ t) = lower_code c ∷ to_lower t

abbrev is_hex_digit : ℕ → Bool
is_hex_digit c = is_digit c || (leb 97 c && leb c 102)

abbrev hex_from : ℕ → Text → ℕ
hex_from n [] = n
hex_from n (c ∷ t) = hex_from (n * 16 + (if leb c 57 then c - 48 else c - 87)) t

-- `/^[0-9a-f]{1,4}$/`
unfoldable pub parse_hextet : Text → Option ℕ
parse_hextet raw =
    if ltb 0 (length raw) && leb (length raw) 4 && all is_hex_digit raw
    then some (hex_from 0 raw)
    else none

unfoldable pub parse_group : Text → Option (List ℕ)
parse_group [] = some []
parse_group (c ∷ t) = traverse parse_hextet (split 58 (c ∷ t))

abbrev zeros : ℕ → List ℕ
zeros zero = []
zeros (suc n) = 0 ∷ zeros n

abbrev bytes_of : List ℕ → List ℕ
bytes_of [] = []
bytes_of (v ∷ groups) = v / 256 ∷ v % 256 ∷ bytes_of groups

-- "::" stands for the zero groups that are missing, of which there is at least one.
abbrev expand : Option (List ℕ) → Option (List ℕ) → Option (List ℕ)
expand none tail = none
expand (some head) none = none
expand (some head) (some tail) =
    if ltb (length head + length tail) 8
    then some (bytes_of (head ++ (zeros (8 - length head - length tail) ++ tail)))
    else none

abbrev two_pieces : List Text → Option (List ℕ)
two_pieces (head ∷ tail ∷ []) = expand (parse_group head) (parse_group tail)
two_pieces _ = none

abbrev drop_last_two : Text → Text
drop_last_two (a ∷ b ∷ c ∷ t) = a ∷ drop_last_two (b ∷ c ∷ t)
drop_last_two _ = []

abbrev double_colon : Text
double_colon = text "::"

-- An address that has a point in it is refused, and so is one without "::".
unfoldable pub parse_ipv6 : Text → Option (List ℕ)
parse_ipv6 address =
    let lower = to_lower address in
    if any (λ c. c == 46) lower
    then none
    else if not (any (λ c. c == 58) lower)
    then none
    else if starts_with double_colon lower
    then expand (some []) (parse_group (drop 2 lower))
    else if ends_in_colons lower
    then expand (parse_group (drop_last_two lower)) (some [])
    else two_pieces (split_colons lower)

-- `x & mask` of a byte, where `mask` has the upper `bits` of eight bits.
abbrev pub masked : ℕ → ℕ → ℕ
masked bits x = x / 2 ^ (8 - bits) * 2 ^ (8 - bits)

unfoldable pub same_bits : ℕ → List ℕ → List ℕ → Bool
same_bits remaining [] prefix = true
same_bits remaining (b ∷ bytes) [] = true
same_bits remaining (b ∷ bytes) (p ∷ prefix) =
    let mask_bits = if ltb remaining 8 then remaining else 8 in
    let rest = same_bits (remaining - mask_bits) bytes prefix in
    if remaining == 0
    then true
    else if not (masked mask_bits b == masked mask_bits p)
    then false
    else rest

unfoldable pub bytes_in_cidr : List ℕ → List ℕ × ℕ → Bool
bytes_in_cidr bytes (prefix, bits) =
    if length bytes == length prefix then same_bits bits bytes prefix else false

abbrev octets : ℕ → ℕ → ℕ → ℕ → List ℕ
octets a b c d = a ∷ b ∷ c ∷ d ∷ []

unfoldable pub ipv4_private_cidrs : List (List ℕ × ℕ)
ipv4_private_cidrs =
    (octets 0 0 0 0, 8)
    ∷ (octets 10 0 0 0, 8)
    ∷ (octets 100 64 0 0, 10)
    ∷ (octets 127 0 0 0, 8)
    ∷ (octets 169 254 0 0, 16)
    ∷ (octets 172 16 0 0, 12)
    ∷ (octets 192 0 2 0, 24)
    ∷ (octets 192 168 0 0, 16)
    ∷ (octets 198 18 0 0, 15)
    ∷ (octets 198 51 100 0, 24)
    ∷ (octets 203 0 113 0, 24)
    ∷ (octets 224 0 0 0, 4)
    ∷ (octets 240 0 0 0, 4)
    ∷ (octets 255 255 255 255, 32)
    ∷ []

abbrev long : ℕ → ℕ → ℕ → List ℕ
long a b last = a ∷ b ∷ (zeros 13 ++ last ∷ [])

unfoldable pub ipv6_private_cidrs : List (List ℕ × ℕ)
ipv6_private_cidrs =
    (long 0 0 0, 128)
    ∷ (long 0 0 1, 128)
    ∷ (long 252 0 0, 7)
    ∷ (long 254 128 0, 10)
    ∷ (long 255 0 0, 8)
    ∷ []

unfoldable pub in_some : List (List ℕ × ℕ) → List ℕ → Bool
in_some cidrs bytes = any (bytes_in_cidr bytes) cidrs

-- No address of the family is not sensitive as one of it.
abbrev pub is_private_ipv4 : Option (List ℕ) → Bool
is_private_ipv4 none = false
is_private_ipv4 (some ip) = in_some ipv4_private_cidrs ip

unfoldable pub is_sensitive_ipv4 : Text → Bool
is_sensitive_ipv4 address = is_private_ipv4 (parse_ipv4 address)

-- What does not parse is refused.
abbrev pub is_private_ipv6 : Option (List ℕ) → Bool
is_private_ipv6 none = true
is_private_ipv6 (some bytes) = in_some ipv6_private_cidrs bytes

unfoldable pub is_sensitive_ipv6 : Text → Bool
is_sensitive_ipv6 address = is_private_ipv6 (parse_ipv6 address)

-- `family` is what `isIP` of node:net gives for the address: 4, 6, or 0.
unfoldable pub is_sensitive_ip : ℕ → Text → Bool
is_sensitive_ip family address =
    if family == 4
    then is_sensitive_ipv4 address
    else if family == 6
    then is_sensitive_ipv6 address
    else true
