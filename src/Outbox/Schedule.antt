-- ===== src/Outbox/Schedule.antt =====
-- When the next pass runs, and what the gauges say.
use nodejs_basics.Prelude.{
  ℕ, ◌+◌, ◌*◌, ◌^◌, min, Bool, true, false, none, some, List, ◌≡◌, ◌∙◌, arith, if◌then◌else◌, ◌==◌,
}
use nodejs_basics.Outbox.{
  Row, Relay, Env, Pass, published, failed, relay_batch, next_delay, tick, refresh_stats, schedule,
  max_backoff_ms,
}

-- The pass failed, or left rows behind that were refused.
abbrev pub is_troubled : Relay × List Row × Pass → Bool
is_troubled (r, rows, failed) = true
is_troubled (r, rows, published n) = r.partial

-- The pass published a full batch.
abbrev pub is_full : ℕ → Pass → Bool
is_full size failed = false
is_full size (published n) = n == size

relay_batch-config :
    (r : Relay) (env : Env) (rows : List Row)
    → let s = (relay_batch r env rows).0 in
      (s.failures ≡ r.failures)
      × (s.interval_ms ≡ r.interval_ms)
      × (s.stopping ≡ r.stopping)
      × (s.batch_size ≡ r.batch_size)
unfolding relay_batch
relay_batch-config r env rows = ground arith

tick_delay_of :
    (r : Relay) (env : Env) (rows : List Row) (out : Relay × List Row × Pass)
    → (out.0.failures ≡ r.failures)
      × (out.0.interval_ms ≡ r.interval_ms)
      × (out.0.stopping ≡ false)
      × (out.0.batch_size ≡ r.batch_size)
    → let (later, delay) = next_delay out.0 out.2 in
      let after = schedule (refresh_stats later env out.1) delay in
      (after.failures ≡ (if is_troubled out then r.failures + 1 else 0))
      × (after.timer
          ≡ some (
              if is_troubled out
              then min (r.interval_ms * 2 ^ (r.failures + 1)) max_backoff_ms
              else if is_full r.batch_size out.2
              then 0
              else r.interval_ms))
unfolding next_delay schedule refresh_stats
tick_delay_of r env rows (s, rows', failed) h = ground arith
tick_delay_of r env rows (s, rows', published n) h = ground arith

-- Unless the relay is stopping: after a pass that failed or left refused rows behind it counts one
-- failure more and waits interval · 2 ^ failures, at most 30 s; after any other it forgets the
-- failures and goes again at once if the batch was full, else after the interval.
pub tick_delay :
    (r : Relay) (env : Env) (rows : List Row)
    → r.stopping ≡ false
    → let out = relay_batch (record r { timer = none }) env rows in
      let after = (tick r env rows).0 in
      (after.failures ≡ (if is_troubled out then r.failures + 1 else 0))
      × (after.timer
          ≡ some (
              if is_troubled out
              then min (r.interval_ms * 2 ^ (r.failures + 1)) max_backoff_ms
              else if is_full r.batch_size out.2
              then 0
              else r.interval_ms))
unfolding tick
tick_delay r env rows go =
    let (f, i, s, b) = relay_batch-config (record r { timer = none }) env rows in
    tick_delay_of r env rows (relay_batch (record r { timer = none }) env rows) (f, i, s ∙ go, b)
