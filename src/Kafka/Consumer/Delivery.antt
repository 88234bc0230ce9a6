-- ===== src/Kafka/Consumer/Delivery.antt =====
-- One message delivered again and again: its retries are bounded, its backoff grows, and it is
-- counted as failed at most once.
use nodejs_basics.Prelude.{
  ℕ, ◌+◌, ◌*◌, ◌^◌, ◌≤◌, min, Bool, true, false, none, some, List, [], ◌∷◌, ◌&&◌, ◌≡◌, ◌≢◌, refl,
  ap, ◌∙◌, lookup, lookup-insert_self, arith, eq_iff, length, All,
}
use nodejs_basics.Kafka.Consumer.{
  Partition, partition_key, Payload, Failure, FailureKind, backpressure, permanent, other, Effect,
  observed, counted, committed, commit_failed, sent, paused, Runner, Env,
}
use nodejs_basics.Kafka.Consumer.Handle.{
  handle_message, same_attempt, failed_of, retry_base_ms, count_of, cap_of,
}

-- The failures of one message that count, in order: the runner after them, and whether each call
-- rejected.
unfoldable pub redeliver : Runner → Env → Payload → List Failure → Runner
redeliver r env p [] = r
redeliver r env p (err ∷ errs) = redeliver (handle_message r env p (some err)).runner env p errs

pub all_threw : Runner → Env → Payload → List Failure → Bool
all_threw r env p [] = true
all_threw r env p (err ∷ errs) =
    let h = handle_message r env p (some err) in h.threw && all_threw h.runner env p errs

abbrev pub counts : FailureKind → ℕ
counts (backpressure c) = 0
counts _ = 1

abbrev pub counted_failures : List Failure → ℕ
counted_failures [] = 0
counted_failures (err ∷ errs) = counts err.kind + counted_failures errs

-- The failures counted so far against the message of `p`.
abbrev pub failed_so_far : Runner → Payload → ℕ
failed_so_far r p = failed_of (same_attempt (lookup p.source r.attempts) p.message.offset)

abbrev pub SameConfig : Runner → Runner → Type 0
SameConfig r s =
    (s.max_retries ≡ r.max_retries)
    × (s.has_producer ≡ r.has_producer)
    × (s.dead_letter_topic ≡ r.dead_letter_topic)
    × (s.topics ≡ r.topics)

step_retry :
    (r : Runner) (env : Env) (p : Payload) (err : Failure)
    → err.kind ≢ permanent
    → failed_so_far r p + counts err.kind ≤ r.max_retries
    → let h = handle_message r env p (some err) in
      (h.threw ≡ true)
      × (failed_so_far h.runner p ≡ failed_so_far r p + counts err.kind)
      × SameConfig r h.runner
      × (count_of (lookup p.source h.runner.failures) ≡ count_of (lookup p.source r.failures) + 1)
unfolding handle_message
step_retry r env p err k h = grind (arith, lookup-insert_self)

redeliver_retry :
    (r : Runner) (env : Env) (p : Payload) (errs : List Failure)
    → All (λ err. err.kind ≢ permanent) errs
    → failed_so_far r p + counted_failures errs ≤ r.max_retries
    → let s = redeliver r env p errs in
      (all_threw r env p errs ≡ true)
      × (failed_so_far s p ≡ failed_so_far r p + counted_failures errs)
      × SameConfig r s
      × (count_of (lookup p.source s.failures)
          ≡ count_of (lookup p.source r.failures) + length errs)
unfolding redeliver all_threw
redeliver_retry r env p [] k h = (refl, omega arith, (refl, refl, refl, refl), omega arith)
redeliver_retry r env p (err ∷ errs) k h =
    let (t, f, c, n) = step_retry r env p err k.0 (omega arith) in
    let (t', f', c', n') =
      redeliver_retry (handle_message r env p (some err)).runner env p errs k.1
        (omega (arith, c.0)) in
    (rw t t', omega arith, (c'.0 ∙ c.0, c'.1 ∙ c.1, c'.2 ∙ c.2, c'.3 ∙ c.3), omega arith)

step_park :
    (r : Runner) (env : Env) (p : Payload) (err : Failure)
    → err.kind ≡ other
    → failed_so_far r p ≡ r.max_retries
    → r.has_producer ≡ true
    → r.dead_letter_topic ≢ "none"
    → env.send_ok ≡ true
    → (handle_message r env p (some err)).threw ≡ false
unfolding handle_message
step_park r env p err k f pr d s = ground (arith, eq_iff r.dead_letter_topic "none")

-- A poison message costs its retries, not the partition: with a producer and a dead-letter topic
-- that take the record, a message that has not failed yet is retried until `max_retries` failures
-- are counted (back-pressure in between is retried too and not counted), and the next failure is
-- the last: the call resolves.
pub retries_bounded :
    (r : Runner) (env : Env) (p : Payload) (errs : List Failure) (err : Failure)
    → All (λ e. e.kind ≢ permanent) errs
    → failed_so_far r p ≡ 0
    → counted_failures errs ≡ r.max_retries
    → err.kind ≡ other
    → r.has_producer ≡ true
    → r.dead_letter_topic ≢ "none"
    → env.send_ok ≡ true
    → (all_threw r env p errs ≡ true)
      × ((handle_message (redeliver r env p errs) env p (some err)).threw ≡ false)
retries_bounded r env p errs err k f n o pr d s =
    let (t, f', c, _) = redeliver_retry r env p errs k (omega arith) in
    (
      t,
      step_park (redeliver r env p errs) env p err o (omega (arith, c.0)) (c.1 ∙ pr) (rw (c.2) d) s,
    )

-- The pause of a call, if it pauses.
abbrev pub pauses : List Effect → List (Partition × ℕ)
pauses [] = []
pauses (paused p d ∷ es) = (p, d) ∷ pauses es
pauses (observed _ ∷ es) = pauses es
pauses (counted _ _ ∷ es) = pauses es
pauses (commit_failed ∷ es) = pauses es
pauses (sent _ ∷ es) = pauses es
pauses (committed _ _ ∷ es) = pauses es

-- A call that rejects pauses its partition, and no other, once.
step_pause :
    (r : Runner) (env : Env) (p : Payload) (err : Failure)
    → (handle_message r env p (some err)).threw ≡ true
    → pauses (handle_message r env p (some err)).effects
      ≡ (
        p.source,
        min (retry_base_ms * 2 ^ count_of (lookup p.source r.failures)) (cap_of err.kind),
      )
        ∷ []
unfolding handle_message
step_pause r env p err h = ground arith

-- The backoff doubles: after `n` failures for a partition that had none, none of them permanent
-- and no more of them counted than are retried, the next call that rejects pauses the partition,
-- and nothing else, for 2 ^ n seconds, capped at 60 s (5 s for back-pressure).
pub backoff_doubles :
    (r : Runner) (env : Env) (p : Payload) (errs : List Failure) (err : Failure)
    → All (λ e. e.kind ≢ permanent) errs
    → lookup p.source r.failures ≡ none
    → failed_so_far r p + counted_failures errs ≤ r.max_retries
    → (handle_message (redeliver r env p errs) env p (some err)).threw ≡ true
    → pauses (handle_message (redeliver r env p errs) env p (some err)).effects
      ≡ (p.source, min (retry_base_ms * 2 ^ length errs) (cap_of err.kind)) ∷ []
backoff_doubles r env p errs err k z f t =
    let (_, _, _, n) = redeliver_retry r env p errs k f in
    let e : count_of (lookup p.source (redeliver r env p errs).failures) ≡ length errs =
      omega (arith, n, ap count_of z) in
    rw (← e) (step_pause (redeliver r env p errs) env p err t)
