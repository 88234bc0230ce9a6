-- ===== src/Prelude/Powers.antt =====
-- Powers of two, for the exponential backoffs.
use Prim.Native.Nat.{ℕ, zero, suc, ◌*◌, ◌^◌, ◌≤◌, min}
use mathlib.Core.Path.{◌≡◌}
use native.Mathlib.Decide.{dec_le}
use native.Mathlib.Omega.{arith}
use native.Mathlib.Nat.{pow-suc, mul-le-mul_left, mul-le-mul_right}

pub pow_pos : (n : ℕ) → 1 ≤ 2 ^ n
pow_pos zero = omega arith
pow_pos (suc n) = omega (arith, pow_pos n, pow-suc 2 n)

pub pow_double : (n : ℕ) → 2 ^ suc n ≡ 2 * 2 ^ n
pow_double n = omega (arith, pow-suc 2 n)

-- Capping after each doubling is capping the product once.
pub min_doubling : (d p c : ℕ) → 1 ≤ p → min (min (d * 2) c * p) c ≡ min (d * (2 * p)) c
min_doubling d p c h = elim (dec_le (d * 2) c) [
  | yes small ↦ let e : min (d * 2) c ≡ d * 2 = omega arith in rw e (omega arith)
  | no large ↦
      let e : min (d * 2) c ≡ c = omega arith in
      let l : c * 1 ≤ c * p = mul-le-mul_left c h in
      let m : c * p ≤ d * 2 * p = mul-le-mul_right p (omega arith) in rw e (omega (arith))
]
