-- ===== src/Concurrency.antt =====
-- packages/resilient-client/src/resilient-client.ts: `AdaptiveConcurrencyLimiter`. The factors are
-- fractions, exact here where the code has doubles. A waiter that was resolved runs later: `woken`
-- counts those, `waiters` the queued ones.
pub mod Limit
use nodejs_basics.Prelude.{
  ℕ, zero, suc, ◌+◌, ◌-◌, ◌*◌, ◌/◌, ◌<◌, min, max, Bool, true, false, Option, none, some, List, [],
  ◌∷◌, leb, ltb, if◌then◌else◌,
}

pub record Fraction : Type 0 where
  pub part : ℕ
  pub whole : ℕ

pub record Limiter : Type 0 where
  pub limit : ℕ
  pub min_limit : ℕ
  pub max_limit : ℕ
  pub backoff_factor : Fraction
  pub target_rtt_factor : Fraction
  pub in_flight : ℕ
  pub min_rtt : Option ℕ  -- `none` is Infinity
  pub waiters : ℕ
  pub woken : ℕ

abbrev or_else : Option ℕ → ℕ → ℕ
or_else none d = d
or_else (some n) d = n

-- The constructor; a factor that is left out is 9/10, or 2.
unfoldable pub new : (initial min_limit max_limit : Option ℕ) → Fraction → Fraction → Limiter
new initial min_limit max_limit backoff target = record {
  limit = or_else initial 10;
  min_limit = or_else min_limit 1;
  max_limit = or_else max_limit 200;
  backoff_factor = backoff;
  target_rtt_factor = target;
  in_flight = 0;
  min_rtt = none;
  waiters = 0;
  woken = 0;
}

-- One round of the loop of `acquire`: a slot, or the queue.
unfoldable pub acquire : Limiter → Limiter
acquire l =
    if ltb l.in_flight l.limit
    then record l { in_flight = l.in_flight + 1 }
    else record l { waiters = l.waiters + 1 }

-- `#drainWaiters`: nothing that a resolved waiter does happens within the loop.
unfoldable pub drain_waiters : Limiter → Limiter
drain_waiters l =
    if ltb l.in_flight l.limit then record l { woken = l.woken + l.waiters; waiters = 0 } else l

-- `Math.ceil(a * factor)`
abbrev pub ceil_mul : ℕ → Fraction → ℕ
ceil_mul a f = (a * f.part + (f.whole - 1)) / f.whole

unfoldable pub decrease : Limiter → Limiter
decrease l = record l { limit = max (ceil_mul l.limit l.backoff_factor) l.min_limit }

-- `if (rttMs < this.#minRtt) this.#minRtt = rttMs`
abbrev pub lower_rtt : ℕ → Option ℕ → ℕ
lower_rtt rtt none = rtt
lower_rtt rtt (some best) = if ltb rtt best then rtt else best

-- `rttMs <= this.#minRtt * this.#targetRttFactor`
abbrev pub on_target : ℕ → ℕ → Fraction → Bool
on_target rtt best f = leb (rtt * f.whole) (best * f.part)

unfoldable pub release : Limiter → (rtt : ℕ) → (failed : Bool) → Limiter
unfolding decrease drain_waiters
release l rtt true = drain_waiters (decrease (record l { in_flight = l.in_flight - 1 }))
release l rtt false =
    let best = lower_rtt rtt l.min_rtt in
    let observed = record l { in_flight = l.in_flight - 1; min_rtt = some best } in
    drain_waiters (
      if on_target rtt best l.target_rtt_factor
      then record observed { limit = min (l.limit + 1) l.max_limit }
      else decrease observed)

unfoldable pub cancel : Limiter → Limiter
unfolding drain_waiters
cancel l = drain_waiters (record l { in_flight = l.in_flight - 1 })

-- Calls, and a resolved waiter that goes on with the loop of its `acquire`. A call that gives a
-- slot back without one in flight, or a waiter that goes on without one resolved, does not happen.
pub data Event : Type 0 where
  acquires goes_on cancels : Event
  releases : (rtt : ℕ) (failed : Bool) → Event

abbrev pub when_pos : ℕ → Limiter → Limiter → Limiter
when_pos zero l after = l
when_pos (suc n) l after = after

unfoldable pub step : Limiter → Event → Limiter
unfolding acquire release cancel
step l acquires = acquire l
step l goes_on = when_pos l.woken l (acquire (record l { woken = l.woken - 1 }))
step l cancels = when_pos l.in_flight l (cancel l)
step l (releases rtt failed) = when_pos l.in_flight l (release l rtt failed)

unfoldable pub run : Limiter → List Event → Limiter
run l [] = l
run l (e ∷ es) = run (step l e) es
