-- ===== src/Util/Decimal.antt =====
-- Decimal text as such: the digits of a number, the highest first.
use myownproject.Base.{
  ℕ, zero, suc, ◌+◌, ◌*◌, ◌/◌, ◌%◌, ◌≤◌, ◌<◌, ◌≡◌, refl, List, [], ◌∷◌, ◌++◌, arith, ltb,
  if◌then◌else◌, ◌∙◌,
}

unfoldable pub decimal_fuel : ℕ → ℕ → List ℕ
decimal_fuel zero v = (b'0' + v) ∷ []
decimal_fuel (suc n) v =
    let front = decimal_fuel n (v / 10) in
    if ltb v 10 then (b'0' + v) ∷ [] else front ++ ((b'0' + v % 10) ∷ [])

unfoldable pub decimal : ℕ → List ℕ
decimal v = decimal_fuel v v

decimal_fuel_irrelevant : (n m v : ℕ) → v ≤ n → v ≤ m → decimal_fuel n v ≡ decimal_fuel m v
unfolding decimal_fuel
decimal_fuel_irrelevant zero zero v h k = refl
decimal_fuel_irrelevant zero (suc m) v h k = ground arith
decimal_fuel_irrelevant (suc n) zero v h k = ground arith
decimal_fuel_irrelevant (suc n) (suc m) v h k = ground (arith, decimal_fuel_irrelevant n m (v / 10))

pub decimal_small : (v : ℕ) → v < 10 → decimal v ≡ (b'0' + v) ∷ []
unfolding decimal decimal_fuel
decimal_small zero h = refl
decimal_small (suc v) h = ground arith

pub decimal_step : (v : ℕ) → 10 ≤ v → decimal v ≡ decimal (v / 10) ++ ((b'0' + v % 10) ∷ [])
unfolding decimal decimal_fuel
decimal_step zero h = absurd (omega arith)
decimal_step (suc v) h = ground (arith, decimal_fuel_irrelevant v (suc v / 10) (suc v / 10))

pub decimal_digit :
    (v d : ℕ) → 0 < v → d < 10 → decimal (v * 10 + d) ≡ decimal v ++ ((b'0' + d) ∷ [])
decimal_digit v d h k =
    let q : (v * 10 + d) / 10 ≡ v = omega arith in
    let r : (v * 10 + d) % 10 ≡ d = omega arith in
    decimal_step (v * 10 + d) (omega arith) ∙ rw (q, r)
