-- ===== src/Util/Digits.antt =====
-- `digits10` and `sdigits10` (src/vr_util.c) count the digits of the decimal text.
use native.Mathlib.Nat.{pow-suc}
use myownproject.Base.{
  ℕ, zero, suc, ◌+◌, ◌*◌, ◌/◌, ◌^◌, ◌≤◌, ◌<◌, ◌≡◌, arith, length, length-append, ap, ◌∙◌, sym, ltb,
  Bool-cases, inl, inr,
}
use myownproject.Util.{digits10, digits10_fuel}
use myownproject.Util.Decimal.{decimal, decimal_small, decimal_step}

pub length-decimal_step : (v : ℕ) → 10 ≤ v → length (decimal v) ≡ length (decimal (v / 10)) + 1
length-decimal_step v h = ap length (decimal_step v h) ∙ length-append (decimal (v / 10)) _

pub length-decimal_small : (v : ℕ) → v < 10 → length (decimal v) ≡ 1
length-decimal_small v h = ap length (decimal_small v h)

pub length-decimal_pos : (v : ℕ) → 0 < length (decimal v)
length-decimal_pos v = elim (Bool-cases (ltb v 10)) [
  | inl e ↦ omega (arith, length-decimal_small v (ground arith))
  | inr e ↦ omega (arith, length-decimal_step v (ground arith))
]

-- A number from 10 ^ k up to 10 ^ (k + 1) has k + 1 digits.
length-decimal : (k v : ℕ) → 10 ^ k ≤ v → v < 10 ^ suc k → length (decimal v) ≡ suc k
length-decimal zero v h l = length-decimal_small v l
length-decimal (suc k) v h l =
    let low : 10 * 10 ^ k ≤ v = omega (arith, pow-suc 10 k) in
    let high : v < 10 * 10 ^ suc k = omega (arith, pow-suc 10 (suc k)) in
    let some_ten : 10 ≤ v = omega (arith, pow_pos k) in
    omega
      (arith, length-decimal_step v some_ten, length-decimal k (v / 10) (omega arith) (omega arith))
  where
    pow_pos : (n : ℕ) → 1 ≤ 10 ^ n
    pow_pos zero = omega arith
    pow_pos (suc n) = omega (arith, pow_pos n, pow-suc 10 n)

length-decimal_thousand : (v : ℕ) → 1000 ≤ v → length (decimal v) ≡ length (decimal (v / 1000)) + 3
length-decimal_thousand v h =
    let a : v / 10 / 10 ≡ v / 100 = omega arith in
    let b : v / 100 / 10 ≡ v / 1000 = omega arith in
    omega (
      arith,
      length-decimal_step v (omega arith),
      length-decimal_step (v / 10) (omega arith),
      length-decimal_step (v / 100) (omega arith),
      ap (λ n. length (decimal n)) a,
      ap (λ n. length (decimal n)) b,
    )

length-decimal_trillion :
    (v : ℕ)
    → 1_000_000_000_000 ≤ v
    → length (decimal v) ≡ length (decimal (v / 1_000_000_000_000)) + 12
length-decimal_trillion v h =
    let a : v / 1000 / 1000 ≡ v / 1_000_000 = omega arith in
    let b : v / 1_000_000 / 1000 ≡ v / 1_000_000_000 = omega arith in
    let c : v / 1_000_000_000 / 1000 ≡ v / 1_000_000_000_000 = omega arith in
    omega (
      arith,
      length-decimal_thousand v (omega arith),
      length-decimal_thousand (v / 1000) (omega arith),
      length-decimal_thousand (v / 1_000_000) (omega arith),
      length-decimal_thousand (v / 1_000_000_000) (omega arith),
      ap (λ n. length (decimal n)) a,
      ap (λ n. length (decimal n)) b,
      ap (λ n. length (decimal n)) c,
    )

digits10_fuel_lem :
    (fuel v : ℕ) → v < 1_000_000_000_000 ^ fuel → 0 < v → digits10_fuel fuel v ≡ length (decimal v)
unfolding digits10_fuel
digits10_fuel_lem zero v h full = absurd (omega arith)
digits10_fuel_lem (suc fuel) v h full = ground (
  arith,
  length-decimal 0 v,
  length-decimal 1 v,
  length-decimal 2 v,
  length-decimal 3 v,
  length-decimal 4 v,
  length-decimal 5 v,
  length-decimal 6 v,
  length-decimal 7 v,
  length-decimal 8 v,
  length-decimal 9 v,
  length-decimal 10 v,
  length-decimal 11 v,
  length-decimal_trillion v,
  digits10_fuel_lem fuel (v / 1_000_000_000_000) (omega (arith, pow-suc 1_000_000_000_000 fuel)),
)

-- For every unsigned 64-bit number the tests of `digits10` give the length of its decimal text.
pub digits10-decimal : (v : ℕ) → v < 2 ^ 64 → digits10 v ≡ length (decimal v)
unfolding digits10
digits10-decimal zero h = sym (length-decimal_small 0 (omega arith))
digits10-decimal (suc v) h = digits10_fuel_lem 2 (suc v) (omega arith) (omega arith)
