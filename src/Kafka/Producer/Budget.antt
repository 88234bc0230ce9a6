-- ===== src/Kafka/Producer/Budget.antt =====
-- `sendWaiting` ends within its budget, for a reason.
use nodejs_basics.Prelude.{
  ℕ, zero, suc, ◌+◌, ◌-◌, ◌*◌, ◌≤◌, ◌<◌, min, true, false, Option, none, some, ◌≡◌, ◌⊎◌, inl, inr,
  refl, arith, Option-cases, Bool-cases,
}
use nodejs_basics.Prelude.Int.{ℤ}
use nodejs_basics.Kafka.Errors.{Thrown, to_kafka_send_error}
use nodejs_basics.Kafka.Producer.Waiting.{
  Try, waitable, budget, Sent, gives_up, send_loop, send_waiting,
}

module _ (attempt : ℕ → Try) (messages until : ℕ) where
  -- The loop's answer is that of its last attempt: acknowledged; or rejected by an error that is
  -- not waited out, with the time up, or under an aborted signal.
  pub data Ends (s : Sent) : Type 0 where
    acknowledged :
        (last : ℕ) → s.tries ≡ last + 1 → (attempt last).thrown ≡ none → s.error ≡ none → Ends s
    rejected :
        (last : ℕ) (e : Thrown)
        → s.tries ≡ last + 1
        → (attempt last).thrown ≡ some e
        → s.error ≡ some (to_kafka_send_error e)
        → (waitable (to_kafka_send_error e).kind messages ≡ false)
          ⊎ ((until ≤ s.ended) ⊎ ((attempt last).aborted ≡ true))
        → Ends s

  record Fits (now i : ℕ) (s : Sent) : Type 0 where
    few : 50 * s.tries ≤ 50 * i + (until - now) + 100
    one : (now < until) ⊎ (s.tries ≡ i + 1)

  gives_up_cases :
      (i : ℕ) (e : Thrown) (later : ℕ)
      → gives_up messages until (attempt i) (to_kafka_send_error e) later ≡ true
      → (waitable (to_kafka_send_error e).kind messages ≡ false)
        ⊎ ((until ≤ later) ⊎ ((attempt i).aborted ≡ true))
  unfolding gives_up
  gives_up_cases i e later h = ground arith

  waits_cases :
      (i : ℕ) (e : Thrown) (later : ℕ)
      → gives_up messages until (attempt i) (to_kafka_send_error e) later ≡ false
      → later < until
  unfolding gives_up
  waits_cases i e later h = ground arith

  send_loop-Ends :
      (fuel now delay i : ℕ)
      → 50 ≤ delay
      → until - now < fuel
      → (s : Sent) × (send_loop attempt messages until fuel now delay i ≡ some s)
        × Ends s
        × Fits now i s
  unfolding send_loop
  send_loop-Ends zero now delay i d f = absurd (omega arith)
  send_loop-Ends (suc fuel) now delay i d f = elim (Option-cases (attempt i).thrown) [
    | inl e ↦
        let s : Sent = record { error = none; tries = i + 1; ended = now + (attempt i).took } in
        (s, rw (e, send_loop), acknowledged i refl e refl, omega arith)
    | inr (t, e) ↦
        let later : ℕ = now + (attempt i).took in
        let next : ℕ = later + (min delay (until - later) + (attempt i).late) in
        elim (Bool-cases (gives_up messages until (attempt i) (to_kafka_send_error t) later)) [
          | inl g ↦
              let s : Sent = record {
                error = some (to_kafka_send_error t);
                tries = i + 1;
                ended = later;
              } in
              (
                s,
                rw (e, send_loop) (rw g),
                rejected i t refl e refl (gives_up_cases i t later g),
                omega arith,
              )
          | inr g ↦
              let w : later < until = waits_cases i t later g in
              let (s, q, ends, fits) =
                send_loop-Ends fuel next (min (delay * 2) 1000) (i + 1) (omega arith)
                  (omega arith) in
              (s, rw (e, send_loop) (rw g q), ends, omega (arith, fits.few, fits.one))
        ]
  ]

-- `sendWaiting` ends: with as much fuel as its budget has milliseconds, and one more, it gives an
-- answer. The answer is that of its last attempt; a rejection is returned only if it is no
-- back-pressure to wait out, or once the budget is spent, or under an aborted signal; and the
-- attempts are at most two more than the budget has times 50 ms.
pub send_waiting-Ends :
    (attempt : ℕ → Try) (messages fuel now : ℕ) (wait : Option ℕ) (left : Option ℤ)
    → budget wait left < fuel
    → (s : Sent) × (send_waiting attempt messages fuel now wait left ≡ some s)
      × Ends attempt messages (now + budget wait left) s
      × (50 * s.tries ≤ budget wait left + 100)
unfolding send_waiting
send_waiting-Ends attempt messages fuel now wait left h =
    let (s, q, ends, fits) =
      send_loop-Ends attempt messages (now + budget wait left) fuel now 50 0 (omega arith)
        (omega arith) in
    (s, q, ends, omega (arith, fits.few))
