-- ===== src/Kafka/Producer/Waiting.antt =====
-- packages/kafka/src/kafka.provider.ts, `sendWaiting`: the loop that waits out local back-pressure.
-- What the attempts do is a sequence: how long one takes, what it throws, whether the signal is
-- aborted afterwards, and how late the timer of the sleep after it fires. Times are milliseconds.
use nodejs_basics.Prelude.{
  ℕ, zero, suc, ◌+◌, ◌-◌, ◌*◌, min, Bool, true, false, not, Option, none, some, ◌||◌, ◌==◌,
  if◌then◌else◌,
}
use nodejs_basics.Prelude.Int.{ℤ, pos, negsuc}
use nodejs_basics.Kafka.Errors.{
  Kind, not_connected, queue_full, KafkaSendError, Thrown, to_kafka_send_error,
}

pub record Try : Type 0 where
  pub took : ℕ
  pub thrown : Option Thrown
  pub aborted : Bool
  pub late : ℕ

abbrev pub default_wait_ms : ℕ
default_wait_ms = 5000

abbrev or_default : Option ℕ → ℕ
or_default none = default_wait_ms
or_default (some w) = w

-- `Math.max(0, Math.min(options.waitMs ?? DEFAULT_WAIT_MS, remainingMs() ?? Infinity))`
unfoldable pub budget : Option ℕ → Option ℤ → ℕ
budget wait none = or_default wait
budget wait (some (pos left)) = min (or_default wait) left
budget wait (some (negsuc _)) = 0

abbrev pub waitable : Kind → (messages : ℕ) → Bool
waitable not_connected messages = true
waitable queue_full messages = messages == 1
waitable _ messages = false

-- How the loop ends, after how many attempts, and when.
pub record Sent : Type 0 where
  pub error : Option KafkaSendError
  pub tries : ℕ
  pub ended : ℕ

-- `!waitable || left <= 0 || signal.aborted`, at the time `later`.
unfoldable pub gives_up : (messages until : ℕ) → Try → KafkaSendError → (later : ℕ) → Bool
gives_up messages until t error later =
    not (waitable error.kind messages) || (until - later == 0) || t.aborted

module _ (attempt : ℕ → Try) (messages until : ℕ) where
  -- The loop from its attempt number `i`, at the time `now`; `none` means that the fuel ran out.
  unfoldable pub send_loop : ℕ → (now delay i : ℕ) → Option Sent
  unfolding gives_up
  send_loop zero now delay i = none
  send_loop (suc fuel) now delay i =
      let t = attempt i in
      let later = now + t.took in
      let left = until - later in
      let rest =
        send_loop fuel (later + (min delay left + t.late)) (min (delay * 2) 1000) (i + 1) in
      elim t.thrown [
        | none ↦ some (record { error = none; tries = i + 1; ended = later })
        | some e ↦
            let error = to_kafka_send_error e in
            if gives_up messages until t error later
            then some (record { error = some error; tries = i + 1; ended = later })
            else rest
      ]

-- `sendWaiting`, called at the time `now`.
unfoldable pub send_waiting :
    (ℕ → Try) → (messages fuel now : ℕ) → Option ℕ → Option ℤ → Option Sent
unfolding budget send_loop
send_waiting attempt messages fuel now wait left =
    send_loop attempt messages (now + budget wait left) fuel now 50 0
