-- ===== src/Score/Doubles.antt =====
-- The arithmetic that packages/sdk/src/score.ts uses: IEEE 754 doubles that are not negative, rounded
-- to the nearest, to even when two are as near.
use openrep.Prelude.{
  zero, ◌%◌, ◌&&◌, ◌^◌, ◌*◌, ltb, ◌==◌, leb, ◌-◌, ◌+◌, suc, if◌then◌else◌, false, ◌/◌, ℕ,
}
use openrep.Score.{is_finite, Arithmetic}
use openrep.Records.{Double}

-- The number of binary digits, on fuel.
unfoldable pub digits : ℕ → ℕ → ℕ
digits zero n = 0
digits (suc fuel) n = let rest = digits fuel (n / 2) in if n == 0 then 0 else suc rest

-- More than the digits of a product of two doubles in units of 2^-2148.
abbrev all_digits : ℕ
all_digits = 4400

-- A finite double in units of 2^-1074.
unfoldable pub units : Double → ℕ
units d = if d.exponent == 0 then d.fraction else (2 ^ 52 + d.fraction) * 2 ^ (d.exponent - 1)

abbrev pub infinity : Double
infinity = record { is_negative = false; exponent = 2047; fraction = 0 }

-- The double of a number of units with at most 53 digits before its zeros.
unfoldable pub pack : ℕ → Double
pack n =
    let e = digits all_digits n - 53 in
    if ltb n (2 ^ 52)
    then record { is_negative = false; exponent = 0; fraction = n }
    else if leb 2047 (e + 1)
    then infinity
    else record { is_negative = false; exponent = e + 1; fraction = n / 2 ^ e - 2 ^ 52 }

abbrev nearest : ℕ → ℕ → ℕ
nearest n d =
    let q = n / d in
    let r = 2 * (n % d) in if ltb d r then q + 1 else if (r == d) && (q % 2 == 1) then q + 1 else q

abbrev max : ℕ → ℕ → ℕ
max a b = if leb a b then b else a

-- The double that is nearest to `n / 2^s` units.
unfoldable pub rounded : ℕ → ℕ → Double
rounded s n =
    let drop = max s (digits all_digits n - 53) in pack (nearest n (2 ^ drop) * 2 ^ (drop - s))

abbrev finite_or : Double → Double → Double → Double
finite_or a b sum = if is_finite a && is_finite b then sum else infinity

abbrev pub ieee : Arithmetic
ieee = record {
  plus = λ a b. finite_or a b (rounded 0 (units a + units b));
  times = λ a b. finite_or a b (rounded 1074 (units a * units b));
  of_count = λ n. rounded 0 (n * 2 ^ 1074);
}
