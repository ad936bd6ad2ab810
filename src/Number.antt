-- ===== src/Number.antt =====
-- The arithmetic of JavaScript numbers that percentages need: quotients and products of positive
-- numbers, rounded to 53 bits, ties to even, as IEEE doubles are.
pub mod Bounds
use ollozuna_nas.Prelude.{
  ℕ, zero, suc, ◌+◌, ◌*◌, ◌/◌, ◌%◌, ◌^◌, ◌&&◌, ◌||◌, Option, none, some, eqb, leb, ltb,
  if◌then◌else◌, ◌≡◌, refl,
}

-- `mantissa / 2 ^ exponent`.
pub record Double : Type 0 where
  pub mantissa : ℕ
  pub exponent : ℕ

-- Division with the quotient rounded to the nearest number, to the even one halfway.
unfoldable pub div_even : ℕ → ℕ → ℕ
div_even a b =
    let q = a / b in
    let r = 2 * (a % b) in if ltb b r || (eqb b r && eqb (q % 2) 1) then q + 1 else q

-- The numerator is doubled until the quotient has 53 bits.
unfoldable pub to_double_from : ℕ → ℕ → ℕ → ℕ → Double
to_double_from zero a b e = record { mantissa = div_even a b; exponent = e }
to_double_from (suc fuel) a b e =
    let longer = to_double_from fuel (2 * a) b (e + 1) in
    if leb (b * 2 ^ 52) a then record { mantissa = div_even a b; exponent = e } else longer

-- The double next to `a / b`, for a quotient below `2 ^ 53` that is 0 or at least `2 ^ -75`: 128
-- doublings then reach the 53 bits.
unfoldable pub to_double : ℕ → ℕ → Double
unfolding to_double_from div_even
to_double a b = if eqb a 0 then record { mantissa = 0; exponent = 0 } else to_double_from 128 a b 0

-- `Math.round((a / b) * 100)` for a `b` that is not 0; a half is rounded up.
unfoldable pub round_percent : ℕ → ℕ → ℕ
unfolding to_double
round_percent a b =
    let q = to_double a b in
    let p = to_double (q.mantissa * 100) (2 ^ q.exponent) in
    (2 * p.mantissa + 2 ^ p.exponent) / (2 * 2 ^ p.exponent)

-- The same for any `b`: a division by 0 gives no number, `NaN` or `Infinity`.
unfoldable pub percent_of : ℕ → ℕ → Option ℕ
unfolding round_percent
percent_of a b = if eqb b 0 then none else some (round_percent a b)

-- A percentage whose exact value is a half is rounded down by the error of the quotient.
round_tests :
    (round_percent 23 40 ≡ 57)
    × (round_percent 1 40 ≡ 3)
    × (round_percent 40 40 ≡ 100)
    × (round_percent 0 40 ≡ 0)
unfolding round_percent
round_tests = (refl, refl, refl, refl)
