-- ===== src/Resilience/Retry.antt =====
-- packages/resilience/src/retry-policy.builder.ts: `withRetry`. What the operation does is a
-- sequence: the outcome of its call number `i` and how long it takes; so are the draws and how late
-- the timer of a sleep fires. Times are milliseconds. The loop takes fuel.
pub mod Ends
use nodejs_basics.Prelude.{
  ℕ, zero, suc, ◌+◌, ◌-◌, min, Bool, true, false, not, Option, none, some, List, [], ◌∷◌, ◌++◌,
  ◌||◌, leb, if◌then◌else◌,
}
use nodejs_basics.Prelude.Int.{pos}
use nodejs_basics.Resilience.Backoff.{num, Draw, compute_jittered_delay}

pub record RetryPolicy : Type 0 where
  pub max_attempts : ℕ
  pub base_delay_ms : ℕ
  pub max_delay_ms : ℕ
  pub budget_ms : ℕ

abbrev pub default_retry_policy : RetryPolicy
default_retry_policy = record {
  max_attempts = 3;
  base_delay_ms = 100;
  max_delay_ms = 5000;
  budget_ms = 30000;
}

-- One call of the operation.
pub data Outcome (T E : Type 0) : Type 0 where
  resolved : T → Outcome T E
  rejected : E → Outcome T E

-- What `onAttempt` is told.
pub record Failure (E : Type 0) : Type 0 where
  pub attempt : ℕ
  pub delay_ms : ℕ
  pub error : E

-- How the loop ends: its outcome, the calls that it made, when, and what it told `onAttempt`.
pub record Ended (T E : Type 0) : Type 0 where
  pub outcome : Outcome T E
  pub calls : ℕ
  pub ended : ℕ
  pub told : List (Failure E)

pub record World (T E : Type 0) : Type 0 where
  pub operation : ℕ → Outcome T E
  pub took : ℕ → ℕ
  pub draw : ℕ → Draw
  pub late : ℕ → ℕ
  pub limit : ℕ  -- where numbers overflow, and how they are rounded (Backoff)
  pub round : ℕ → ℕ

module _ {T E : Type 0} (w : World T E) (policy : RetryPolicy) (is_retryable : E → Bool)
    (started_at : ℕ) where
  -- `!retryable || attemptsExhausted || budgetExhausted`
  unfoldable pub gives_up : E → (attempt elapsed : ℕ) → Bool
  gives_up error attempt elapsed =
      not (is_retryable error) || leb policy.max_attempts attempt || leb policy.budget_ms elapsed

  -- The delay before the next call: the jittered one, at most what is left of the budget.
  unfoldable pub delay_of : (attempt elapsed : ℕ) → ℕ
  delay_of attempt elapsed =
      min
        (compute_jittered_delay w.limit w.round
          (record {
            min_timeout = num policy.base_delay_ms;
            max_timeout = num policy.max_delay_ms;
            factor = num 2;
          })
          (pos attempt) (w.draw attempt))
        (policy.budget_ms - elapsed)

  -- The `while (true)` from call number `attempt`, at the time `now`.
  unfoldable pub retry_loop : ℕ → (attempt now : ℕ) → List (Failure E) → Option (Ended T E)
  retry_loop zero attempt now told = none
  retry_loop (suc fuel) attempt now told =
      let later = now + w.took attempt in
      let elapsed = later - started_at in
      elim (w.operation attempt) [
        | resolved value ↦
            some
              (record { outcome = resolved value; calls = attempt + 1; ended = later; told = told })
        | rejected error ↦
            let delay = delay_of attempt elapsed in
            let rest =
              retry_loop fuel (attempt + 1) (later + (delay + w.late attempt))
                (told ++ record { attempt = attempt; delay_ms = delay; error = error } ∷ []) in
            if gives_up error attempt elapsed
            then some (record {
              outcome = rejected error;
              calls = attempt + 1;
              ended = later;
              told = told ++ record { attempt = attempt; delay_ms = 0; error = error } ∷ [];
            })
            else rest
      ]

unfoldable pub with_retry :
    {T E : Type 0}
    → World T E
    → RetryPolicy
    → (E → Bool)
    → (fuel started_at : ℕ) → Option (Ended T E)
with_retry w policy is_retryable fuel started_at =
    retry_loop w policy is_retryable started_at fuel 0 started_at []
