-- ===== src/Resilience/Backoff.antt =====
-- packages/resilient-client/src/backoff.ts: `computeJitteredDelay`. A JavaScript number is a natural
-- number below a limit, Infinity or NaN. A result, also of `Math.pow`, is the exact one rounded,
-- and overflows to Infinity where it reaches the limit; how a natural number is rounded is a
-- parameter. Negative timeouts and fractions are left out. A draw of the generator in [0, 1) is what its product with a cap is rounded down to.
pub mod Bounds
use nodejs_basics.Prelude.{
  ℕ, zero, suc, ◌+◌, ◌*◌, ◌^◌, ◌≤◌, min, Bool, true, false, not, ◌||◌, ltb, ◌==◌, if◌then◌else◌,
}
use nodejs_basics.Prelude.Int.{ℤ, pos, negsuc}

pub data Number : Type 0 where
  num : ℕ → Number
  infinity nan : Number

pub record BackoffSpec : Type 0 where
  pub min_timeout : Number
  pub max_timeout : Number
  pub factor : Number

pub record Draw : Type 0 where
  -- `Math.floor(rng * cap)`; a product with less than 1 is rounded to no more than the cap.
  pub floor_times : (cap : ℕ) → ℕ
  pub most : (cap : ℕ) → floor_times cap ≤ cap

module _ (limit : ℕ) (round : ℕ → ℕ) where
  unfoldable pub to_number : ℕ → Number
  to_number n = if ltb (round n) limit then num (round n) else infinity

  -- `Math.pow(x, n)`: 1 for n = 0, also of NaN.
  unfoldable pub pow : Number → ℕ → Number
  unfolding to_number
  pow (num a) n = to_number (a ^ n)
  pow x zero = num 1
  pow infinity (suc n) = infinity
  pow nan (suc n) = nan

  abbrev times_infinity : ℕ → Number
  times_infinity zero = nan
  times_infinity (suc _) = infinity

  -- `x * y`: 0 · Infinity is NaN.
  unfoldable pub mul : Number → Number → Number
  unfolding to_number
  mul (num a) (num b) = to_number (a * b)
  mul (num a) infinity = times_infinity a
  mul infinity (num b) = times_infinity b
  mul infinity infinity = infinity
  mul _ _ = nan

  -- `Number.isNaN(rawCap) ? 0 : Math.max(0, Math.min(rawCap, spec.maxTimeout))`, at a finite maximum.
  abbrev pub cap_of : Number → (max_timeout : ℕ) → ℕ
  cap_of (num a) m = min a m
  cap_of infinity m = m
  cap_of nan m = 0

  -- The guards on the timeouts, then the one on the attempt.
  unfoldable pub jittered : Number → Number → Number → ℤ → Draw → ℕ
  unfolding pow mul
  jittered (num a) (num m) factor (pos n) rng =
      rng.floor_times (cap_of (mul (num a) (pow factor n)) m)
  jittered _ _ factor _ rng = 0

  unfoldable pub compute_jittered_delay : BackoffSpec → ℤ → Draw → ℕ
  unfolding jittered
  compute_jittered_delay spec attempt rng =
      jittered spec.min_timeout spec.max_timeout spec.factor attempt rng
