-- ===== src/Resilience/Retry/Ends.antt =====
-- The retry loop ends, for a reason, within its attempts and its budget.
use nodejs_basics.Prelude.{
  ℕ, zero, suc, ◌+◌, ◌-◌, ◌≤◌, ◌<◌, Bool, true, false, some, List, [], ◌∷◌, ◌++◌, ◌≡◌, ◌⊎◌, inl,
  inr, refl, arith, Bool-cases, All, All-append, length, length-append,
}
use nodejs_basics.Resilience.Backoff.Bounds.{compute_jittered_delay-le}
use nodejs_basics.Resilience.Backoff.{num}
use nodejs_basics.Prelude.Int.{pos}
use nodejs_basics.Resilience.Retry.{
  RetryPolicy, Outcome, resolved, rejected, Failure, Ended, World, gives_up, delay_of, retry_loop,
  with_retry,
}

told_one :
    {E : Type 0} (told : List (Failure E)) (f : Failure E) (n : ℕ)
    → length told ≡ n
    → length (told ++ f ∷ []) ≡ n + 1
told_one told f n h = omega (arith, length-append told (f ∷ []))

module _ {T E : Type 0} (w : World T E) (policy : RetryPolicy) (is_retryable : E → Bool)
    (started_at : ℕ) where
  -- The loop hands on its last call's outcome; an error of it was not retryable, or it was the last
  -- attempt, or the budget was spent.
  pub data Reason (e : Ended T E) : Type 0 where
    succeeded :
        (last : ℕ) (value : T)
        → e.calls ≡ last + 1
        → w.operation last ≡ resolved value
        → e.outcome ≡ resolved value
        → length e.told ≡ last
        → Reason e
    gave_up :
        (last : ℕ) (error : E)
        → e.calls ≡ last + 1
        → w.operation last ≡ rejected error
        → e.outcome ≡ rejected error
        → length e.told ≡ last + 1
        → (is_retryable error ≡ false)
          ⊎ ((policy.max_attempts ≤ last) ⊎ (policy.budget_ms ≤ e.ended - started_at))
        → Reason e

  -- Every delay keeps to the policy's cap and to its budget.
  abbrev pub IsAllowed : Failure E → Type 0
  IsAllowed f = (f.delay_ms ≤ policy.max_delay_ms) × (f.delay_ms ≤ policy.budget_ms)

  gives_up_cases :
      (error : E) (attempt elapsed : ℕ)
      → gives_up w policy is_retryable started_at error attempt elapsed ≡ true
      → (is_retryable error ≡ false)
        ⊎ ((policy.max_attempts ≤ attempt) ⊎ (policy.budget_ms ≤ elapsed))
  unfolding gives_up
  gives_up_cases error attempt elapsed h = ground arith

  goes_on :
      (error : E) (attempt elapsed : ℕ)
      → gives_up w policy is_retryable started_at error attempt elapsed ≡ false
      → attempt < policy.max_attempts
  unfolding gives_up
  goes_on error attempt elapsed h = ground arith

  delay-IsAllowed :
      (attempt elapsed : ℕ) (error : E)
      → IsAllowed (record {
        attempt = attempt;
        delay_ms = delay_of w policy is_retryable started_at attempt elapsed;
        error = error;
      })
  unfolding delay_of
  delay-IsAllowed attempt elapsed error = omega (
    arith,
    compute_jittered_delay-le w.limit w.round
        (record {
          min_timeout = num policy.base_delay_ms;
          max_timeout = num policy.max_delay_ms;
          factor = num 2;
        })
        (pos attempt) (w.draw attempt),
  )

  Outcome-cases : (o : Outcome T E) → ((v : T) × (o ≡ resolved v)) ⊎ ((x : E) × (o ≡ rejected x))
  Outcome-cases (resolved v) = inl (v, refl)
  Outcome-cases (rejected x) = inr (x, refl)

  retry_loop_ends :
      (fuel attempt now : ℕ) (told : List (Failure E))
      → length told ≡ attempt
      → All IsAllowed told
      → attempt ≤ policy.max_attempts
      → policy.max_attempts - attempt < fuel
      → (e : Ended T E) × (retry_loop w policy is_retryable started_at fuel attempt now told
          ≡ some e)
        × Reason e
        × (e.calls ≤ policy.max_attempts + 1)
        × All IsAllowed e.told
  unfolding retry_loop
  retry_loop_ends zero attempt now told l a m f = absurd (omega arith)
  retry_loop_ends (suc fuel) attempt now told l a m f =
      let later : ℕ = now + w.took attempt in
      let elapsed : ℕ = later - started_at in
      elim (Outcome-cases (w.operation attempt)) [
        | inl (v, o) ↦
            let e : Ended T E = record {
              outcome = resolved v;
              calls = attempt + 1;
              ended = later;
              told = told;
            } in
            (e, rw (o, retry_loop), succeeded attempt v refl o refl l, omega arith, a)
        | inr (x, o) ↦
            elim (Bool-cases (gives_up w policy is_retryable started_at x attempt elapsed)) [
              | inl g ↦
                  let last : Failure E = record { attempt = attempt; delay_ms = 0; error = x } in
                  let e : Ended T E = record {
                    outcome = rejected x;
                    calls = attempt + 1;
                    ended = later;
                    told = told ++ last ∷ [];
                  } in
                  (
                    e,
                    rw (o, retry_loop) (rw g),
                    gave_up attempt x refl o refl (told_one told last attempt l)
                        (gives_up_cases x attempt elapsed g),
                    omega arith,
                    All-append IsAllowed told (last ∷ []) a (omega arith),
                  )
              | inr g ↦
                  let delay : ℕ = delay_of w policy is_retryable started_at attempt elapsed in
                  let next : Failure E = record {
                    attempt = attempt;
                    delay_ms = delay;
                    error = x;
                  } in
                  let room = goes_on x attempt elapsed g in
                  let (e, q, r, c, t) =
                    retry_loop_ends fuel (attempt + 1) (later + (delay + w.late attempt))
                      (told ++ next ∷ []) (told_one told next attempt l)
                      (All-append IsAllowed told (next ∷ []) a
                        (delay-IsAllowed attempt elapsed x, tt))
                      (omega (arith, room)) (omega (arith, room)) in
                  (e, rw (o, retry_loop) (rw g q), r, c, t)
            ]
      ]

-- With fuel for `max_attempts + 1` calls the loop ends, after as many calls at most. It hands on
-- the outcome of its last call; an error only if it is not retryable, or the retries are used up,
-- or the budget is spent. `onAttempt` is told of each failure once, and no delay that it is told is
-- above the policy's maximal delay or its budget.
pub with_retry_ends :
    {T E : Type 0} (w : World T E) (policy : RetryPolicy) (is_retryable : E → Bool)
    (fuel started_at : ℕ)
    → policy.max_attempts < fuel
    → (e : Ended T E) × (with_retry w policy is_retryable fuel started_at ≡ some e)
      × Reason w policy is_retryable started_at e
      × (e.calls ≤ policy.max_attempts + 1)
      × All (IsAllowed w policy is_retryable started_at) e.told
unfolding with_retry
with_retry_ends w policy is_retryable fuel started_at h =
    retry_loop_ends w policy is_retryable started_at fuel 0 started_at [] refl tt (omega arith)
      (omega arith)
