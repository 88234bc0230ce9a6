-- ===== src/Kafka/Consumer/Outcomes.antt =====
-- How one call of `handleMessage` ends: what it commits, when it parks, what back-pressure does.
use nodejs_basics.Prelude.{
  ℕ, ◌+◌, ◌*◌, ◌^◌, ◌≤◌, ◌<◌, min, Bool, true, false, Option, none, some, List, [], ◌∷◌, ◌≡◌, ◌≢◌,
  ◌↔◌, ◌⊎◌, lookup, arith, eq_iff, if◌then◌else◌,
}
use nodejs_basics.Kafka.Consumer.{
  Partition, partition_key, Payload, Failure, backpressure, permanent, other, Effect, observed,
  counted, committed, commit_failed, sent, paused, Runner, Env,
}
use nodejs_basics.Kafka.Consumer.Handle.{
  next_attempt, handle_message, retry_base_ms, backpressure_max_ms, count_of, topic_label,
}

-- The commits that a call sends.
abbrev pub commits : List Effect → List (Partition × ℕ)
commits [] = []
commits (committed p offset ∷ es) = (p, offset) ∷ commits es
commits (observed _ ∷ es) = commits es
commits (counted _ _ ∷ es) = commits es
commits (commit_failed ∷ es) = commits es
commits (sent _ ∷ es) = commits es
commits (paused _ _ ∷ es) = commits es

-- A call of a runner that has a consumer commits the message, once and at the next offset, exactly
-- if it resolves; a call that rejects commits nothing.
pub commits-handle_message :
    (r : Runner) (env : Env) (p : Payload) (o : Option Failure)
    → r.consumer ≡ true
    → let h = handle_message r env p o in
      commits h.effects ≡ (if h.threw then [] else (p.source, p.message.offset + 1) ∷ [])
unfolding handle_message
commits-handle_message r env p none h = ground arith
commits-handle_message r env p (some err) h = ground arith

-- When `giveUp` gives a message up and can park it.
abbrev pub IsGivenUp : Runner → Payload → Failure → Type 0
IsGivenUp r p err =
    (err.kind ≡ permanent) ⊎ ((err.kind ≡ other) × (r.max_retries < (next_attempt r p).failed))

abbrev pub CanPark : Runner → Env → Type 0
CanPark r env = (r.has_producer ≡ true) × (r.dead_letter_topic ≢ "none") × (env.send_ok ≡ true)

-- A failed message is done with (the call resolves) exactly if it is given up on, permanent or past
-- its retries, and the dead-letter record went out.
pub resolves_iff :
    (r : Runner) (env : Env) (p : Payload) (err : Failure)
    → ((handle_message r env p (some err)).threw ≡ false) ↔ (IsGivenUp r p err × CanPark r env)
unfolding handle_message
resolves_iff r env p err = ground (arith, eq_iff r.dead_letter_topic "none")

-- Back-pressure rejects the call, leaves the counted attempts of every partition as they are, sends
-- and commits nothing, and pauses the partition for at most 5 s.
pub backpressure_waits :
    (r : Runner) (env : Env) (p : Payload) (err : Failure) (c : Bool)
    → err.kind ≡ backpressure c
    → let h = handle_message r env p (some err) in
      (h.threw ≡ true)
      × (h.runner.attempts ≡ r.attempts)
      × ((d : ℕ) × (d ≤ backpressure_max_ms)
          × (h.effects ≡ observed (topic_label r p.source.topic) ∷ paused p.source d ∷ []))
unfolding handle_message
backpressure_waits r env p err c e =
    let d : ℕ =
      min (retry_base_ms * 2 ^ count_of (lookup p.source r.failures)) backpressure_max_ms in
    (ground arith, ground arith, (d, omega arith, ground arith))
