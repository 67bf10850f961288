-- ===== src/Base/Bits.antt =====
-- A law of `bit_and` at variables.
use Prim.Native.Nat.{ℕ, zero, suc, ◌/◌, ◌≤◌, min, bit_and, digits, bit_and-bitwise}
use mathlib.Core.Path.{subst, sym}
use native.Mathlib.Omega.{arith}

-- Joining the binary digits of two numbers by the minimum stays below the second, whatever the
-- number of digits.
joined-le : (rounds x mask : ℕ) → digits (λ b. zero) min rounds x mask ≤ mask
joined-le zero x mask = omega arith
joined-le (suc rounds) zero mask = omega arith
joined-le (suc rounds) (suc x) mask = omega (arith, joined-le rounds (suc x / 2) (mask / 2))

-- A masked value is at most the mask.
pub bit_and-le : (x mask : ℕ) → bit_and x mask ≤ mask
bit_and-le x mask = subst (λ r. r ≤ mask) (sym (bit_and-bitwise x mask)) (joined-le x x mask)
