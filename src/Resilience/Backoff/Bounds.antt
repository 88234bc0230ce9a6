-- ===== src/Resilience/Backoff/Bounds.antt =====
-- The jittered delay stays in its window, on every input, whatever is rounded.
use nodejs_basics.Prelude.{
  ℕ, zero, suc, ◌*◌, ◌^◌, ◌≤◌, ◌<◌, min, ltb, true, ◌≡◌, refl, ap, sym, subst, arith, Bool-cases,
  inl, inr,
}
use native.Mathlib.Nat.{mul-le-mul_right, le_trans}
use nodejs_basics.Prelude.Int.{ℤ, pos}
use nodejs_basics.Resilience.Backoff.{
  Number, num, infinity, nan, BackoffSpec, Draw, to_number, pow, mul, cap_of, jittered,
  compute_jittered_delay,
}

abbrev pub finite_part : Number → ℕ
finite_part (num a) = a
finite_part _ = 0

module _ (limit : ℕ) (round : ℕ → ℕ) where
  cap-le : (m : ℕ) (x : Number) → cap_of limit round x m ≤ m
  cap-le m (num b) = omega arith
  cap-le m infinity = omega arith
  cap-le m nan = omega arith

  jittered-le :
      (a m f : Number) (n : ℤ) (rng : Draw) → jittered limit round a m f n rng ≤ finite_part m
  unfolding jittered
  jittered-le (num a) (num m) f (pos n) rng =
      le_trans (rng.most _) (cap-le m (mul limit round (num a) (pow limit round f n)))
  jittered-le _ _ f _ rng = omega arith

  -- Whatever the spec, the attempt and the draw, also where the growth overflows: the delay is at most
  -- the maximal timeout, and 0 if that is not a finite number.
  pub compute_jittered_delay-le :
      (spec : BackoffSpec) (attempt : ℤ) (rng : Draw)
      → compute_jittered_delay limit round spec attempt rng ≤ finite_part spec.max_timeout
  unfolding compute_jittered_delay
  compute_jittered_delay-le spec attempt rng =
      jittered-le spec.min_timeout spec.max_timeout spec.factor attempt rng

  module _ (safe : ℕ) (below : safe < limit) (exact : (x : ℕ) → x ≤ safe → round x ≡ x)
      (monotone : (x y : ℕ) → x ≤ y → round x ≤ round y) where
    round-ge : (x : ℕ) → safe ≤ x → safe ≤ round x
    round-ge x h = omega (arith, exact safe (omega arith), monotone safe x h)

    -- A product that is as large as `safe`, or exact, is cut at `m` as if it were exact.
    cap_of-to_number :
        (m x y : ℕ)
        → m ≤ safe
        → min x safe ≡ min y safe
        → cap_of limit round (to_number limit round x) m ≡ min y m
    unfolding to_number
    cap_of-to_number m x y h q = elim (Bool-cases (ltb safe x)) [
      | inl large ↦ elim (Bool-cases (ltb (round x) limit)) [
        | inl finite ↦ rw finite (ground (arith, round-ge x (ground arith)))
        | inr over ↦ rw over (ground arith)
      ]
      | inr small ↦
          let same : round x ≡ x = exact x (ground arith) in
          let finite : ltb (round x) limit ≡ true = rw same (ground arith) in
          rw finite (ground (arith, same))
    ]

    product-min : (a p : ℕ) → min (a * round p) safe ≡ min (a * p) safe
    product-min zero p = ground arith
    product-min (suc a) p = elim (Bool-cases (ltb safe p)) [
      | inr small ↦ rw (exact p (ground arith)) refl
      | inl large ↦
          let there : safe ≤ p = ground arith in
          let still = round-ge p there in
          let grows : 1 * p ≤ suc a * p = mul-le-mul_right p (omega arith) in
          let rounded : 1 * round p ≤ suc a * round p = mul-le-mul_right (round p) (omega arith) in
          let one_side : safe ≤ suc a * p = omega (arith, grows, there) in
          let other_side : safe ≤ suc a * round p = omega (arith, rounded, still) in
          ground (arith, one_side, other_side)
    ]

    overflow-min :
        (a p m : ℕ)
        → m ≤ safe
        → safe ≤ p
        → cap_of limit round (mul limit round (num a) infinity) m ≡ min (a * p) m
    unfolding mul
    overflow-min zero p m h l = ground arith
    overflow-min (suc a) p m h l =
        let grows : 1 * p ≤ suc a * p = mul-le-mul_right p (omega arith) in ground (arith, grows)

    cap_of-mul :
        (a p m : ℕ)
        → m ≤ safe
        → cap_of limit round (mul limit round (num a) (to_number limit round p)) m ≡ min (a * p) m
    unfolding mul to_number
    cap_of-mul a p m h = elim (Bool-cases (ltb (round p) limit)) [
      | inl finite ↦ rw finite (cap_of-to_number m (a * round p) (a * p) h (product-min a p))
      | inr over ↦ elim (Bool-cases (ltb safe p)) [
        | inl large ↦ rw over (overflow-min a p m h (ground arith))
        | inr small ↦
            let same : round p ≡ p = exact p (ground arith) in absurd (ground (arith, same, over))
      ]
    ]

    pub compute_jittered_delay_exact :
        (a m f n : ℕ) (rng : Draw)
        → m ≤ safe
        → let delay =
            compute_jittered_delay limit round
              (record { min_timeout = num a; max_timeout = num m; factor = num f })
              (pos n)
              rng in
          (delay ≡ rng.floor_times (min (a * f ^ n) m)) × (delay ≤ min (a * f ^ n) m)
    unfolding compute_jittered_delay pow
    compute_jittered_delay_exact a m f n rng h =
        let cap = cap_of-mul a (f ^ n) m h in
        let same = ap rng.floor_times cap in
        (same, subst (λ d. d ≤ min (a * f ^ n) m) (sym same) (rng.most (min (a * f ^ n) m)))
