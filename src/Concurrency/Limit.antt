-- ===== src/Concurrency/Limit.antt =====
-- The limit keeps to its bounds, and no queued call is forgotten.
use nodejs_basics.Prelude.{ℕ, suc, ◌+◌, ◌-◌, ◌*◌, ◌≤◌, ◌<◌, List, [], ◌∷◌, ◌≡◌, ◌⊎◌, inl, arith}
use native.Mathlib.Nat.{div-lt_iff_lt-mul, mul-le-mul_left}
use nodejs_basics.Concurrency.{
  Fraction, Limiter, acquire, drain_waiters, ceil_mul, decrease, release, cancel, Event, acquires,
  goes_on, cancels, releases, step, run,
}

limiter : Unit {0}
unfolding step acquire release cancel decrease drain_waiters
limiter = tt

-- A backoff factor is at most 1; the limit lies between its bounds, which hold 1 at least.
pub record IsWithin (l : Limiter) : Type 0 where
  pub factor : l.backoff_factor.part ≤ l.backoff_factor.whole
  pub whole : 1 ≤ l.backoff_factor.whole
  pub low : l.min_limit ≤ l.limit
  pub high : l.limit ≤ l.max_limit
  pub one : 1 ≤ l.min_limit

ceil_mul-le : (a : ℕ) (f : Fraction) → f.part ≤ f.whole → 1 ≤ f.whole → ceil_mul a f ≤ a
ceil_mul-le a f h p =
    let grows : a * f.part ≤ a * f.whole = mul-le-mul_left a h in
    let less : a * f.part + (f.whole - 1) < suc a * f.whole = omega (arith, grows) in
    let under = (div-lt_iff_lt-mul p).1 less in omega (arith, under)

decrease-IsWithin : (l : Limiter) → IsWithin l → IsWithin (decrease l)
unfolding decrease
decrease-IsWithin l h =
    let c = ceil_mul-le l.limit l.backoff_factor h.factor h.whole in ground (arith, c)

step-IsWithin : (l : Limiter) (e : Event) → IsWithin l → IsWithin (step l e)
unfolding limiter
step-IsWithin l acquires h = ground arith
step-IsWithin l goes_on h = ground arith
step-IsWithin l cancels h = ground arith
step-IsWithin l (releases rtt failed) h =
    let c = ceil_mul-le l.limit l.backoff_factor h.factor h.whole in ground (arith, c)

run-IsWithin : (l : Limiter) (es : List Event) → IsWithin l → IsWithin (run l es)
unfolding run
run-IsWithin l [] h = h
run-IsWithin l (e ∷ es) h = run-IsWithin (step l e) es (step-IsWithin l e h)

-- Nobody queues beside a free slot, unless a resolved waiter is still to go on.
abbrev pub IsFair : Limiter → Type 0
IsFair l = (l.waiters ≡ 0) ⊎ (l.limit ≤ l.in_flight)

step-IsFair : (l : Limiter) (e : Event) → IsFair l → IsFair (step l e)
unfolding limiter
step-IsFair l e h = ground arith

run-IsFair : (l : Limiter) (es : List Event) → IsFair l → IsFair (run l es)
unfolding run
run-IsFair l [] h = h
run-IsFair l (e ∷ es) h = run-IsFair (step l e) es (step-IsFair l e h)

-- From a limiter with a backoff factor of at most 1, a limit within bounds of 1 or more and an
-- empty queue, whatever is acquired, released and cancelled: the limit stays between its bounds,
-- and no call is left in the queue while a slot is free; so none is when nothing is in flight.
pub run-limit :
    (l : Limiter) (es : List Event)
    → IsWithin l
    → l.waiters ≡ 0
    → let l' = run l es in
      (l'.min_limit ≤ l'.limit)
      × (l'.limit ≤ l'.max_limit)
      × ((l'.waiters ≡ 0) ⊎ (l'.limit ≤ l'.in_flight))
      × ((l'.in_flight ≡ 0) → (l'.waiters ≡ 0))
run-limit l es h w =
    let within = run-IsWithin l es h in
    let fair = run-IsFair l es (inl w) in
    (within.low, within.high, fair, λ z. ground (arith, within.low, within.one, fair))
