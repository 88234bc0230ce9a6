-- ===== src/Kafka/Reconnect/Laws.antt =====
-- The reconnect loop over any sequence of events: bounded delays, doubling, and a final stop.
use nodejs_basics.Prelude.{
  ℕ, zero, suc, ◌+◌, ◌*◌, ◌^◌, ◌≤◌, ◌≡◌, refl, ◌∙◌, true, false, List, [], ◌∷◌, min, arith, All,
}
use nodejs_basics.Prelude.Powers.{pow_pos, pow_double, min_doubling}
use nodejs_basics.Kafka.Reconnect.{
  Reconnect, base_ms, max_ms, new, begin_run, start, stop, attempt_resolved, attempt_threw,
  timer_fired, orphan_fired, Event, throws, fires, step, run,
}

reconnect : Unit {0}
unfolding step begin_run start stop attempt_resolved attempt_threw timer_fired orphan_fired
reconnect = tt

-- Every delay lies between the base and the cap, the next one and those reported.
pub record IsBounded (r : Reconnect) : Type 0 where
  pub low : base_ms ≤ r.delay
  pub high : r.delay ≤ max_ms
  pub reported : All (λ d. (base_ms ≤ d) × (d ≤ max_ms)) r.reported

step-IsBounded : (r : Reconnect) (e : Event) → IsBounded r → IsBounded (step r e)
unfolding reconnect
step-IsBounded r e h = ground arith

run-IsBounded : (r : Reconnect) (es : List Event) → IsBounded r → IsBounded (run r es)
unfolding run
run-IsBounded r [] h = h
run-IsBounded r (e ∷ es) h = run-IsBounded (step r e) es (step-IsBounded r e h)

-- From a new loop, after any events at all, every delay that was reported or that comes next is
-- at least 1 s and at most 30 s.
pub run-new-IsBounded : (es : List Event) → IsBounded (run new es)
unfolding new
run-new-IsBounded es = run-IsBounded new es (omega arith)

step_stopped :
    (r : Reconnect) (e : Event)
    → r.stopped ≡ true
    → ((step r e).stopped ≡ true)
      × ((step r e).begun ≡ r.begun)
      × ((step r e).reported ≡ r.reported)
unfolding reconnect
step_stopped r e h = ground arith

run_stopped :
    (r : Reconnect) (es : List Event)
    → r.stopped ≡ true
    → ((run r es).begun ≡ r.begun) × ((run r es).reported ≡ r.reported)
unfolding run
run_stopped r [] h = (refl, refl)
run_stopped r (e ∷ es) h =
    let (still, b, d) = step_stopped r e h in
    let (b', d') = run_stopped (step r e) es still in (b' ∙ b, d' ∙ d)

-- After `stop` no attempt begins and no retry is reported, whatever happens next: timers that
-- `stop` could not clear fire, attempts in flight end, `start` is called again.
pub run-stop :
    (r : Reconnect) (es : List Event)
    → ((run (stop r) es).begun ≡ r.begun) × ((run (stop r) es).reported ≡ r.reported)
unfolding stop
run-stop r es = run_stopped (stop r) es refl

-- `n` times: the attempt fails, and its timer fires.
pub failing : ℕ → List Event
failing zero = []
failing (suc n) = throws ∷ fires ∷ failing n

step_failing :
    (r : Reconnect)
    → r.stopped ≡ false
    → r.running ≡ 1
    → let s = step (step r throws) fires in
      (s.stopped ≡ false)
      × (s.running ≡ 1)
      × (s.delay ≡ min (r.delay * 2) max_ms)
      × (s.begun ≡ r.begun + 1)
unfolding reconnect
step_failing r h k = ground arith

-- While every attempt fails, a loop that is not stopped and has one attempt in flight goes on:
-- each failure begins one more attempt, and after `n` failures in a row the next delay is the
-- first one, itself at most 30 s, times 2 ^ n, at most 30 s.
pub run-failing :
    (n : ℕ) (r : Reconnect)
    → r.stopped ≡ false
    → r.running ≡ 1
    → r.delay ≤ max_ms
    → ((run r (failing n)).begun ≡ r.begun + n)
      × ((run r (failing n)).delay ≡ min (r.delay * 2 ^ n) max_ms)
unfolding run failing
run-failing zero r h k l = (omega arith, omega arith)
run-failing (suc n) r h k l =
    let (h', k', d, b) = step_failing r h k in
    let (more, last) = run-failing n (step (step r throws) fires) h' k' (omega arith) in
    (omega arith, last ∙ rw (d, pow_double n) (min_doubling r.delay (2 ^ n) max_ms (pow_pos n)))
