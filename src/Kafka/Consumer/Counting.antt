-- ===== src/Kafka/Consumer/Counting.antt =====
-- A message that cannot be parked is counted as failed once, however often it is retried.
use nodejs_basics.Prelude.{
  ℕ, suc, ◌+◌, ◌≤◌, true, false, some, List, [], ◌∷◌, ◌≡◌, lookup, lookup-insert_self, arith,
  if◌then◌else◌, Bool-cases, inl, inr,
}
use nodejs_basics.Kafka.Consumer.{
  partition_key, Payload, Failure, Effect, failed, counted, Runner, Env,
}
use nodejs_basics.Kafka.Consumer.Handle.{handle_message, same_attempt, stuck_of}

-- How often the calls count the message as failed for good.
abbrev pub failures_counted : List Effect → ℕ
failures_counted [] = 0
failures_counted (counted _ failed ∷ es) = suc (failures_counted es)
failures_counted (_ ∷ es) = failures_counted es

-- The calls for one message until one resolves, and the count over all of them.
pub counted_failed : Runner → Env → Payload → List Failure → ℕ
counted_failed r env p [] = 0
counted_failed r env p (err ∷ errs) =
    let h = handle_message r env p (some err) in
    let rest = counted_failed h.runner env p errs in
    failures_counted h.effects + (if h.threw then rest else 0)

abbrev stuck_so_far : Runner → Payload → ℕ
stuck_so_far r p =
    if stuck_of (same_attempt (lookup p.source r.attempts) p.message.offset) then 1 else 0

step_counted :
    (r : Runner) (env : Env) (p : Payload) (err : Failure)
    → let h = handle_message r env p (some err) in
      (h.threw ≡ true → failures_counted h.effects + stuck_so_far r p ≡ stuck_so_far h.runner p)
      × (h.threw ≡ false → failures_counted h.effects ≡ 0)
unfolding handle_message
step_counted r env p err = grind (arith, lookup-insert_self)

counted_failed-le :
    (r : Runner) (env : Env) (p : Payload) (errs : List Failure)
    → counted_failed r env p errs + stuck_so_far r p ≤ 1
unfolding counted_failed
counted_failed-le r env p [] = ground arith
counted_failed-le r env p (err ∷ errs) =
    let h = handle_message r env p (some err) in
    let rest = counted_failed-le h.runner env p errs in
    elim (Bool-cases h.threw) [
      | inl t ↦ rw t (omega (arith, (step_counted r env p err).0 t, rest))
      | inr t ↦ rw t (ground (arith, (step_counted r env p err).1 t))
    ]

-- However often one message is handled before a call resolves, whatever its handler throws, it is
-- counted as failed at most once.
pub counted_once :
    (r : Runner) (env : Env) (p : Payload) (errs : List Failure) → counted_failed r env p errs ≤ 1
counted_once r env p errs = omega (arith, counted_failed-le r env p errs)
