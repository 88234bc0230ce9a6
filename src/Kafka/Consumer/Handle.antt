-- ===== src/Kafka/Consumer/Handle.antt =====
-- packages/kafka/src/kafka-consumer.ts: `handleMessage` and what it calls. One call is one step: at
-- its `await`s other partitions' calls may run, which touch no entry of this partition (Isolation).
use nodejs_basics.Prelude.{
  ℕ, ◌+◌, ◌*◌, ◌^◌, min, String, Bool, true, false, not, Option, none, some, List, [], ◌∷◌, ◌++◌,
  any, ◌===◌, string_key, ◌==◌, insert, lookup, erase, leb, if◌then◌else◌, ◌||◌,
}
use nodejs_basics.Kafka.Consumer.{
  Partition, partition_key, Payload, Failure, FailureKind, backpressure, permanent, other, Attempt,
  Outcome, ok, retried, dead_lettered, failed, Effect, observed, counted, committed, commit_failed,
  sent, paused, Runner, Env,
}
use nodejs_basics.Kafka.Consumer.Parking.{dead_letter}

abbrev pub retry_base_ms : ℕ
retry_base_ms = 1000

abbrev pub retry_max_ms : ℕ
retry_max_ms = 60000

abbrev pub backpressure_max_ms : ℕ
backpressure_max_ms = 5000

unfoldable pub topic_label : Runner → String → String
topic_label r topic = if any (λ t. t === topic) r.topics then topic else "other"

-- `this.consumer?.commitOffsets(…)`: no call without a consumer, and a failure is only counted.
abbrev pub commit_effects : Bool → Bool → Partition → ℕ → List Effect
commit_effects false commit_ok p offset = []
commit_effects true true p offset = committed p (offset + 1) ∷ []
commit_effects true false p offset = committed p (offset + 1) ∷ commit_failed ∷ []

unfoldable pub commit : Runner → Env → Partition → ℕ → Runner × List Effect
commit r env p offset = (
  record r { failures = erase p r.failures; attempts = erase p r.attempts },
  commit_effects r.consumer env.commit_ok p offset,
)

pub data Verdict : Type 0 where
  parked retry stuck still_stuck : Verdict

abbrev pub mark_entry : Option Attempt → Verdict
mark_entry none = still_stuck
mark_entry (some a) = if a.stuck then still_stuck else stuck

abbrev pub mark_attempts :
    Partition → Option Attempt → List (Partition × Attempt) → List (Partition × Attempt)
mark_attempts p none m = m
mark_attempts p (some a) m = if a.stuck then m else insert p (record a { stuck = true }) m

unfoldable pub mark_stuck : Runner → Partition → Runner × Verdict
mark_stuck r p = (
  record r { attempts = mark_attempts p (lookup p r.attempts) r.attempts },
  mark_entry (lookup p r.attempts),
)

-- `previous?.offset === message.offset ? previous : undefined`
abbrev pub same_attempt : Option Attempt → ℕ → Option Attempt
same_attempt none offset = none
same_attempt (some a) offset = if a.offset == offset then some a else none

abbrev pub failed_of : Option Attempt → ℕ
failed_of none = 0
failed_of (some a) = a.failed

abbrev pub stuck_of : Option Attempt → Bool
stuck_of none = false
stuck_of (some a) = a.stuck

abbrev pub is_permanent : FailureKind → Bool
is_permanent permanent = true
is_permanent _ = false

-- The entry that `giveUp` writes for a failure that is no back-pressure.
unfoldable pub next_attempt : Runner → Payload → Attempt
next_attempt r p =
    let same = same_attempt (lookup p.source r.attempts) p.message.offset in
    record { offset = p.message.offset; failed = failed_of same + 1; stuck = stuck_of same }

-- `giveUp` once the message is given up on: a runner that has counted the attempt, its text.
unfoldable pub park : Runner → Env → Payload → Failure → ℕ → Runner × Verdict × List Effect
unfolding commit mark_stuck
park r env p err n =
    let record_sent = sent (dead_letter r.dead_letter_topic p err n) in
    let (kept, verdict) = mark_stuck r p.source in
    let (done, effects) = commit r env p.source p.message.offset in
    if not r.has_producer || (r.dead_letter_topic === "none")
    then (kept, verdict, [])
    else if env.send_ok
    then (done, parked, record_sent ∷ effects)
    else (kept, verdict, record_sent ∷ [])

-- `giveUp`, by the class of the error.
unfoldable pub give_up_as :
    FailureKind → Runner → Env → Payload → Failure → Runner × Verdict × List Effect
unfolding park next_attempt
give_up_as (backpressure c) r env p err = (r, retry, [])
give_up_as permanent r env p err =
    let attempt = next_attempt r p in
    park (record r { attempts = insert p.source attempt r.attempts }) env p err attempt.failed
give_up_as other r env p err =
    let attempt = next_attempt r p in
    let known = record r { attempts = insert p.source attempt r.attempts } in
    if leb attempt.failed r.max_retries
    then (known, retry, [])
    else park known env p err attempt.failed

unfoldable pub give_up : Runner → Env → Payload → Failure → Runner × Verdict × List Effect
unfolding give_up_as
give_up r env p err = give_up_as err.kind r env p err

abbrev pub count_of : Option ℕ → ℕ
count_of none = 0
count_of (some n) = n

abbrev pub cap_of : FailureKind → ℕ
cap_of (backpressure c) = backpressure_max_ms
cap_of _ = retry_max_ms

unfoldable pub retry_later : Runner → Payload → Failure → Runner × List Effect
retry_later r p err =
    let n = count_of (lookup p.source r.failures) in
    (
      record r { failures = insert p.source (n + 1) r.failures },
      paused p.source (min (retry_base_ms * 2 ^ n) (cap_of err.kind)) ∷ [],
    )

-- The runner afterwards, the effects in order, and whether the call rejected (with the handler's
-- error) or resolved.
pub record Handled : Type 0 where
  pub runner : Runner
  pub effects : List Effect
  pub threw : Bool

abbrev pub counted_if_stuck : Verdict → String → List Effect
counted_if_stuck stuck topic = counted topic failed ∷ []
counted_if_stuck _ topic = []

-- The `catch` block of `handleMessage`, after `giveUp`.
unfoldable pub after_give_up : String → Payload → Failure → Runner × Verdict × List Effect → Handled
unfolding retry_later
after_give_up topic p err (r, parked, effects) = record {
  runner = r;
  effects = observed topic ∷ (effects ++ counted topic dead_lettered ∷ []);
  threw = false;
}
after_give_up topic p err (r, verdict, effects) =
    let (later, pauses) = retry_later r p err in
    record {
      runner = later;
      effects = observed topic ∷ (effects ++ (counted_if_stuck verdict topic ++ pauses));
      threw = true;
    }

abbrev pub outcome_of : Option ℕ → Outcome
outcome_of none = ok
outcome_of (some _) = retried

-- `handleMessage` with what the handler does: it resolves (`none`) or throws.
unfoldable pub handle_message : Runner → Env → Payload → Option Failure → Handled
unfolding give_up after_give_up commit topic_label
handle_message r env p none =
    let topic = topic_label r p.source.topic in
    let (done, commits) = commit r env p.source p.message.offset in
    record {
      runner = done;
      effects = observed topic ∷ counted topic (outcome_of (lookup p.source r.failures)) ∷ commits;
      threw = false;
    }
handle_message r env p (some err) =
    after_give_up (topic_label r p.source.topic) p err (give_up r env p err)
