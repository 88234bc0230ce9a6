-- ===== src/Tests/Resilience.antt =====
-- Runs of the backoff and of the retry loop.
use nodejs_basics.Prelude.{
  ℕ, ◌*◌, ◌/◌, leb, if◌then◌else◌, zero, suc, ◌≤◌, true, some, ◌≡◌, arith, All,
}
use nodejs_basics.Prelude.Int.{pos}
use nodejs_basics.Resilience.Backoff.{num, Draw, compute_jittered_delay}
use nodejs_basics.Resilience.Backoff.Bounds.{compute_jittered_delay_exact}
use nodejs_basics.Resilience.Retry.{
  RetryPolicy, Outcome, resolved, rejected, Ended, World, with_retry,
}
use nodejs_basics.Resilience.Retry.Ends.{Reason, IsAllowed, with_retry_ends}

abbrev half : Draw
half = record { floor_times = λ cap. cap / 2; most = λ cap. omega arith }

-- Above 10000, numbers are rounded down to even ones.
unfoldable even : ℕ → ℕ
even x = if leb x 10000 then x else 2 * (x / 2)

even-exact : (x : ℕ) → x ≤ 10000 → even x ≡ x
unfolding even
even-exact x h = ground arith

even-monotone : (x y : ℕ) → x ≤ y → even x ≤ even y
unfolding even
even-monotone x y h = ground arith

compute_jittered_delay_exact_example :
    (compute_jittered_delay 100000 even
        (record { min_timeout = num 100; max_timeout = num 5000; factor = num 2 })
        (pos 3)
        half
      ≡ 400)
    × (compute_jittered_delay 100000 even
          (record { min_timeout = num 100; max_timeout = num 5000; factor = num 2 })
          (pos 3)
          half
        ≤ 800)
unfolding even
compute_jittered_delay_exact_example =
    compute_jittered_delay_exact 100000 even 10000 (omega arith) even-exact even-monotone 100 5000 2
      3 half (omega arith)

-- The second call succeeds.
abbrev answer : ℕ → Outcome ℕ ℕ
answer zero = rejected 7
answer (suc _) = resolved 1

abbrev world : World ℕ ℕ
world = record {
  operation = answer;
  took = λ i. 5;
  draw = λ i. half;
  late = λ i. 0;
  limit = 100000;
  round = even;
}

abbrev policy : RetryPolicy
policy = record { max_attempts = 3; base_delay_ms = 100; max_delay_ms = 5000; budget_ms = 30000 }

with_retry_ends_example :
    (e : Ended ℕ ℕ) × (with_retry world policy (λ x. true) 4 0 ≡ some e)
    × Reason world policy (λ x. true) 0 e
    × (e.calls ≤ 4)
    × All (IsAllowed world policy (λ x. true) 0) e.told
with_retry_ends_example = with_retry_ends world policy (λ x. true) 4 0 (omega arith)
