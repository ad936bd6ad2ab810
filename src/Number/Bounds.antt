-- ===== src/Number/Bounds.antt =====
-- The percentages of doubles keep their bounds.
use native.Mathlib.Nat.{pow-suc, div-lt_iff_lt-mul}
use native.Mathlib.Omega.{div_any}
use ollozuna_nas.Prelude.{
  ℕ, zero, suc, ◌+◌, ◌*◌, ◌/◌, ◌%◌, ◌^◌, ◌≤◌, ◌<◌, ◌&&◌, ◌||◌, eqb, leb, ltb, if◌then◌else◌, ◌≡◌,
  ◌⊎◌, inl, inr, ap, ◌∙◌, arith, Bool-cases,
}
use ollozuna_nas.Number.{div_even, to_double, to_double_from, round_percent}

mul_mono : (m a b : ℕ) → a ≤ b → m * a ≤ m * b
mul_mono m a b h = grind arith

bump :
    (b q r c : ℕ)
    → 0 < b
    → (q < c) ⊎ ((q ≡ c) × (r ≡ 0))
    → (if ltb b (2 * r) || (eqb b (2 * r) && eqb (q % 2) 1) then q + 1 else q) ≤ c
bump b q r c pos (inl lt) = ground arith
bump b q r c pos (inr (same, none_left)) = ground arith

quotient : (b q r c a : ℕ) → 0 < b → b * q + r ≡ a → a ≤ c * b → (q < c) ⊎ ((q ≡ c) × (r ≡ 0))
quotient b q r c a pos split le = elim (Bool-cases (ltb q c)) [
  | inl lt ↦ inl (grind arith)
  | inr ge ↦
      let beyond : c * b + b ≤ b * q ⊎ q ≡ c = elim (Bool-cases (eqb q c)) [
        | inl e ↦ inr (grind arith)
        | inr ne ↦ inl (let bigger = mul_mono b (c + 1) q (grind arith) in grind arith)
      ] in
      elim beyond [
        | inl big ↦ grind arith
        | inr same ↦ inr (same, let flat : b * q ≡ b * c = ap (λ x. b * x) same in omega arith)
      ]
]

double_up : (c p q b a : ℕ) → q ≡ 2 * p → a ≤ (c * p) * b → 2 * a ≤ (c * q) * b
double_up c p q b a e le = grind arith

pow_step : (e : ℕ) → 2 ^ (e + 1) ≡ 2 * 2 ^ e
pow_step e =
    let next : e + 1 ≡ suc e = omega arith in
    let doubled = pow-suc 2 e in (ap (λ k. 2 ^ k) next ∙ omega arith)

pow_pos : (e : ℕ) → 0 < 2 ^ e
pow_pos zero = omega arith
pow_pos (suc e) = let doubled = pow-suc 2 e in let before = pow_pos e in omega arith

div_even_le : (a b c : ℕ) → 0 < b → a ≤ c * b → div_even a b ≤ c
unfolding div_even
div_even_le a b c pos le =
    bump b (a / b) (a % b) c pos (quotient b (a / b) (a % b) c a pos (div_any a b) le)

-- A quotient that is at most a whole number is rounded to at most that number.
to_double_from_le :
    (fuel a b e c : ℕ)
    → 0 < b
    → a ≤ (c * 2 ^ e) * b
    → (to_double_from fuel a b e).mantissa ≤ c * 2 ^ (to_double_from fuel a b e).exponent
unfolding to_double_from
to_double_from_le zero a b e c pos le = div_even_le a b (c * 2 ^ e) pos le
to_double_from_le (suc fuel) a b e c pos le = elim (Bool-cases (leb (b * 2 ^ 52) a)) [
  | inl long ↦ rw long (div_even_le a b (c * 2 ^ e) pos le)
  | inr short ↦ rw short (
      to_double_from_le fuel (2 * a) b (e + 1) c pos
        (double_up c (2 ^ e) (2 ^ (e + 1)) b a (pow_step e) le))
]

to_double_le :
    (a b c : ℕ) → 0 < b → a ≤ c * b → (to_double a b).mantissa ≤ c * 2 ^ (to_double a b).exponent
unfolding to_double
to_double_le a b c pos le = elim (Bool-cases (eqb a 0)) [
  | inl none_left ↦ rw none_left (omega arith)
  | inr some_left ↦ rw some_left (to_double_from_le 128 a b 0 c pos (omega arith))
]

rounded_le : (m p : ℕ) → 0 < p → m ≤ 100 * p → (2 * m + p) / (2 * p) ≤ 100
rounded_le m p pos le =
    let below =
      (div-lt_iff_lt-mul {k = 2 * p} {x = 2 * m + p} {y = 101} (omega arith)).1 (omega arith) in
    omega arith

-- The percentage of a part of a positive whole that is at most the whole is at most 100.
pub round_percent_le : (a b : ℕ) → 0 < b → a ≤ b → round_percent a b ≤ 100
unfolding round_percent
round_percent_le a b pos le =
    let q = to_double a b in
    let p = to_double (q.mantissa * 100) (2 ^ q.exponent) in
    rounded_le p.mantissa (2 ^ p.exponent) (pow_pos p.exponent) (
      to_double_le (q.mantissa * 100) (2 ^ q.exponent) 100 (pow_pos q.exponent)
        (let whole = to_double_le a b 1 pos (omega arith) in omega arith))
