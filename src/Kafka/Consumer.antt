-- ===== src/Kafka/Consumer.antt =====
-- packages/kafka/src/kafka-consumer.ts: the state of `KafkaConsumerRunner` and the data that passes
-- through it. The key `topic:partition` of its two maps is the pair (a partition number holds no
-- colon); an offset, a decimal text there, is its number. Texts that the code cuts are lists of
-- UTF-16 code units. Logs, spans and the request id of the log context are not modelled.
pub mod Parking
pub mod Handle
pub mod Outcomes
pub mod Isolation
pub mod Delivery
pub mod Counting
pub mod Headers
pub mod Lifecycle
use nodejs_basics.Prelude.{
  ℕ, String, Bool, true, false, Option, none, some, List, [], ◌∷◌, any, Eq, ◌===◌, string_key,
  nat_key, ◌&&◌, ◌≡◌, ◌↔◌, refl, ap, arith, eq_iff, if◌then◌else◌, ◌==◌,
}

pub record Partition : Type 0 where
  pub topic : String
  pub partition : ℕ

abbrev pub partition_beq : Partition → Partition → Bool
partition_beq p q = (p.topic === q.topic) && (p.partition == q.partition)

pub partition_beq_iff : (p q : Partition) → (partition_beq p q ≡ true) ↔ (p ≡ q)
partition_beq_iff p q = ground (arith, eq_iff p.topic q.topic)

instance abbrev pub partition_key : Eq Partition
partition_key = record { beq = partition_beq; beq_iff = partition_beq_iff }

-- A header's value: bytes or text as consumed, a text that the runner writes, the start of an error
-- text, or a number in decimal.
pub data HeaderValue : Type 0 where
  given : List ℕ → HeaderValue
  written : String → HeaderValue
  units : List ℕ → HeaderValue
  decimal : ℕ → HeaderValue

-- `undefined` values are `none`.
pub record Message : Type 0 where
  pub key : Option (List ℕ)
  pub value : Option (List ℕ)
  pub headers : List (String × Option HeaderValue)
  pub offset : ℕ

-- `EachMessagePayload`
pub record Payload : Type 0 where
  pub source : Partition
  pub message : Message

pub record DeadLetter : Type 0 where
  pub topic : String
  pub key : Option (List ℕ)
  pub value : Option (List ℕ)
  pub headers : List (String × HeaderValue)

-- What a handler throws: `KafkaBackpressureError` (with a cause or not), `KafkaPermanentError`, or
-- anything else; with its text.
pub data FailureKind : Type 0 where
  backpressure : (has_cause : Bool) → FailureKind
  permanent : FailureKind
  other : FailureKind

pub record Failure : Type 0 where
  pub kind : FailureKind
  pub text : List ℕ

-- An entry of `attempts`.
pub record Attempt : Type 0 where
  pub offset : ℕ
  pub failed : ℕ
  pub stuck : Bool

-- The values of the `result` label of kafka_consumer_records_total.
pub data Outcome : Type 0 where
  ok retried dead_lettered failed : Outcome

-- What a call does to the world, in order: an observation of the handler's duration, a count of a
-- record, a commit sent to the broker, a failed commit counted, a record given to the producer, and
-- a partition paused until a timer of so many milliseconds resumes it.
pub data Effect : Type 0 where
  observed : (topic : String) → Effect
  counted : (topic : String) → Outcome → Effect
  committed : Partition → (offset : ℕ) → Effect
  commit_failed : Effect
  sent : DeadLetter → Effect
  paused : Partition → (delay_ms : ℕ) → Effect

pub record Runner : Type 0 where
  pub topics : List String
  pub max_retries : ℕ
  pub dead_letter_topic : String
  pub has_producer : Bool
  pub consumer : Bool  -- `this.consumer !== undefined`
  pub running : Bool
  pub joined : Bool
  pub failures : List (Partition × ℕ)
  pub attempts : List (Partition × Attempt)

-- The environment of one call: whether the dead-letter send and the commit succeed.
pub record Env : Type 0 where
  pub send_ok : Bool
  pub commit_ok : Bool
