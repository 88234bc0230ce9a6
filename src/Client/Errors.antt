-- ===== src/Client/Errors.antt =====
-- packages/resilient-client/src/resilient-client.errors.ts: `OutboundError` and `PostbackError`, and
-- `outcomeOf` of resilient-client.pool.ts. Messages are left out; a cause is kept where the client
-- looks at it.
use nodejs_basics.Prelude.{ℕ, ◌/◌, String, Option, none, some, ◌&&◌, leb, ltb, if◌then◌else◌}

pub data ErrorKind : Type 0 where
  transient fatal : ErrorKind

-- `errorType`
pub data ErrorType : Type 0 where
  circuit_open rate_limited network timeout deadline_exceeded retries_exhausted client_error :
      ErrorType
  no_matching_target shutting_down : ErrorType

pub record OutboundError : Type 0 where
  pub kind : ErrorKind
  pub error_type : ErrorType
  pub target : Option String
  pub status_code : Option ℕ

abbrev transient_error : ErrorType → Option String → Option ℕ → OutboundError
transient_error type target status = record {
  kind = transient;
  error_type = type;
  target = target;
  status_code = status;
}

abbrev fatal_error : ErrorType → Option String → Option ℕ → OutboundError
fatal_error type target status = record {
  kind = fatal;
  error_type = type;
  target = target;
  status_code = status;
}

-- The static constructors.
abbrev pub circuit_open_error : String → OutboundError
circuit_open_error target = transient_error circuit_open (some target) none

abbrev pub rate_limited_error : String → OutboundError
rate_limited_error target = transient_error rate_limited (some target) none

abbrev pub network_error : Option String → OutboundError
network_error target = transient_error network target none

abbrev pub timeout_error : String → OutboundError
timeout_error target = transient_error timeout (some target) none

abbrev pub deadline_error : String → OutboundError
deadline_error target = fatal_error deadline_exceeded (some target) none

abbrev pub exhausted_error : String → (last_status : ℕ) → OutboundError
exhausted_error target last_status =
    transient_error retries_exhausted (some target) (some last_status)

abbrev pub client_error_of : (status : ℕ) → String → OutboundError
client_error_of status target = fatal_error client_error (some target) (some status)

abbrev pub no_target_error : OutboundError
no_target_error = fatal_error no_matching_target none none

abbrev pub shutting_down_error : OutboundError
shutting_down_error = fatal_error shutting_down none none

pub data Routing : Type 0 where
  retry_topic dlq : Routing

-- `PostbackError.from`
abbrev pub routing_of : ErrorKind → Routing
routing_of transient = retry_topic
routing_of fatal = dlq

-- The outcome label: `1xx` … `5xx` by its first digit, or the error's type, or `unknown`.
pub data OutcomeLabel : Type 0 where
  status_class : ℕ → OutcomeLabel
  error_label : ErrorType → OutcomeLabel
  unknown_label : OutcomeLabel

abbrev label_of : Option OutboundError → OutcomeLabel
label_of none = unknown_label
label_of (some err) = error_label err.error_type

unfoldable pub outcome_of : Option ℕ → Option OutboundError → OutcomeLabel
outcome_of none err = label_of err
outcome_of (some status) err =
    if leb 100 status && ltb status 600 then status_class (status / 100) else label_of err
