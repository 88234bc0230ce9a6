-- ===== src/Kafka/Consumer/Parking.antt =====
-- packages/kafka/src/kafka-consumer.ts, the dead-letter record that `giveUp` builds.
use Prim.Native.String.{String}
use Prim.Native.String
use nodejs_basics.Prelude.{
  ℕ, zero, suc, Bool, Option, none, some, List, [], ◌∷◌, any, ◌===◌, string_key, insert, take,
  starts_with, if◌then◌else◌,
}
use nodejs_basics.Kafka.Consumer.{
  HeaderValue, written, units, decimal, Payload, DeadLetter, FailureKind, permanent, Failure,
}

abbrev pub max_dlq_error_chars : ℕ
max_dlq_error_chars = 1024

abbrev pub dlq_headers : List String
dlq_headers =
    "dlq_reason" ∷ "dlq_error" ∷ "dlq_source_topic" ∷ "dlq_source_partition" ∷ "dlq_source_offset"
    ∷ "dlq_attempts" ∷ []

-- `DLQ_HEADERS.has(name)`
unfoldable pub is_dlq_header : String → Bool
is_dlq_header name = any (λ h. h === name) dlq_headers

-- `replaceAll("{topic}", topic)`: at a match the text goes in and six more characters are skipped.
pub replace_from : ℕ → String → String → String
replace_from skip topic String.[] = String.[]
replace_from (suc skip) topic (String.◌∷◌ c s) = replace_from skip topic s
replace_from zero topic (String.◌∷◌ c s) =
    let hit = String.◌++◌ topic (replace_from 6 topic s) in
    let miss = String.◌∷◌ c (replace_from zero topic s) in
    if starts_with (String.◌∷◌ c s) "{topic}" then hit else miss

unfoldable pub dead_letter_topic_of : String → String → String
unfolding replace_from
dead_letter_topic_of pattern topic = replace_from zero topic pattern

-- The loop over the message's own headers.
unfoldable pub own_headers :
    List (String × Option HeaderValue) → List (String × HeaderValue) → List (String × HeaderValue)
own_headers [] out = out
own_headers ((name, none) ∷ rest) out = own_headers rest out
own_headers ((name, some value) ∷ rest) out =
    own_headers rest (if is_dlq_header name then out else insert name value out)

abbrev pub reason_of : FailureKind → String
reason_of permanent = "permanent"
reason_of _ = "retries_exhausted"

unfoldable pub with_dlq_headers :
    Payload → Failure → ℕ → List (String × HeaderValue) → List (String × HeaderValue)
with_dlq_headers p err failed headers =
    let h1 = insert "dlq_reason" (written (reason_of err.kind)) headers in
    let h2 = insert "dlq_error" (units (take max_dlq_error_chars err.text)) h1 in
    let h3 = insert "dlq_source_topic" (written p.source.topic) h2 in
    let h4 = insert "dlq_source_partition" (decimal p.source.partition) h3 in
    let h5 = insert "dlq_source_offset" (decimal p.message.offset) h4 in
    insert "dlq_attempts" (decimal failed) h5

unfoldable pub dead_letter : String → Payload → Failure → ℕ → DeadLetter
dead_letter pattern p err failed = record {
  topic = dead_letter_topic_of pattern p.source.topic;
  key = p.message.key;
  value = p.message.value;
  headers = with_dlq_headers p err failed (own_headers p.message.headers []);
}
