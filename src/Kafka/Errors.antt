-- ===== src/Kafka/Errors.antt =====
-- packages/kafka/src/kafka-errors.ts: the registry of send errors. A thrown value is what the
-- code reads of it: whether it is a `KafkaSendError` already, its `code` where that is a number,
-- and whether its `fatal` is `true`. The error's message and cause are not modelled.
mod Codes
pub mod Registry
use nodejs_basics.Prelude.{
  Bool, true, false, Option, none, some, List, [], ◌∷◌, ◌++◌, map, lookup, insert,
}
use nodejs_basics.Prelude.Int.{ℤ, int_key}
pub use Codes.*

-- The keys of the registry.
pub data Kind : Type 0 where
  not_connected queue_full unavailable not_provisioned fatal rejected unknown : Kind

pub record Spec : Type 0 where
  pub retryable : Bool
  pub codes : List Err

abbrev pub spec : Kind → Spec
spec not_connected = record { retryable = true; codes = [] }
spec queue_full = record { retryable = true; codes = local_queue_full ∷ [] }
spec unavailable = record {
  retryable = true;
  codes =
      local_msg_timed_out ∷ local_timed_out ∷ request_timed_out ∷ local_transport
      ∷ local_all_brokers_down ∷ leader_not_available ∷ not_leader_for_partition ∷ network_exception
      ∷ not_enough_replicas ∷ not_enough_replicas_after_append ∷ kafka_storage_error
      ∷ throttling_quota_exceeded ∷ [];
}
spec not_provisioned = record {
  retryable = true;
  codes =
      unknown_topic_or_part ∷ local_unknown_topic ∷ local_unknown_partition
      ∷ topic_authorization_failed ∷ cluster_authorization_failed ∷ local_authentication ∷ [];
}
spec fatal = record { retryable = true; codes = local_fatal ∷ [] }
spec rejected = record {
  retryable = false;
  codes =
      msg_size_too_large ∷ record_list_too_large ∷ invalid_msg ∷ invalid_record ∷ policy_violation
      ∷ local_bad_msg ∷ topic_exception ∷ [];
}
spec unknown = record { retryable = true; codes = [] }

-- `Object.entries(KAFKA_SEND_ERRORS)`, in the order of the source.
abbrev pub kinds : List Kind
kinds = not_connected ∷ queue_full ∷ unavailable ∷ not_provisioned ∷ fatal ∷ rejected ∷ unknown ∷ []

-- `new Map(entries.flatMap(…))`: a later pair replaces an earlier one of its code.
pub add_codes : Kind → List Err → List (ℤ × Kind) → List (ℤ × Kind)
add_codes kind [] m = m
add_codes kind (e ∷ es) m = add_codes kind es (insert (code e) kind m)

pub add_kinds : List Kind → List (ℤ × Kind) → List (ℤ × Kind)
add_kinds [] m = m
add_kinds (kind ∷ rest) m = add_kinds rest (add_codes kind (spec kind).codes m)

unfoldable pub kind_by_code : List (ℤ × Kind)
unfolding add_codes add_kinds insert
kind_by_code = add_kinds kinds []

pub record KafkaSendError : Type 0 where
  pub kind : Kind
  pub retryable : Bool
  pub code : Option ℤ

-- The constructor: `retryable` is read from the registry.
abbrev pub send_error : Kind → Option ℤ → KafkaSendError
send_error kind c = record { kind = kind; retryable = (spec kind).retryable; code = c }

pub data Thrown : Type 0 where
  a_send_error : KafkaSendError → Thrown
  other : (code : Option ℤ) (is_fatal : Bool) → Thrown

-- `KIND_BY_CODE.get(code) ?? "unknown"`
abbrev pub or_unknown : Option Kind → Kind
or_unknown none = unknown
or_unknown (some k) = k

abbrev pub kind_of_code : Option ℤ → Kind
kind_of_code none = unknown
kind_of_code (some c) = or_unknown (lookup c kind_by_code)

unfoldable pub to_kafka_send_error : Thrown → KafkaSendError
to_kafka_send_error (a_send_error e) = e
to_kafka_send_error (other c true) = send_error fatal c
to_kafka_send_error (other c false) = send_error (kind_of_code c) c
