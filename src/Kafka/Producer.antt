-- ===== src/Kafka/Producer.antt =====
-- packages/kafka/src/kafka.provider.ts: the state of `KafkaProducerService`, its connection and one
-- attempt of `send`. A producer of the client library is its number; a send and a
-- connect are cut at their awaits, a shutdown is one step. Metrics, spans and logs are not modelled.
pub mod Connection
pub mod Waiting
pub mod Budget
use nodejs_basics.Prelude.{
  ℕ, ◌+◌, Bool, true, false, Option, none, some, List, [], ◌∷◌, ◌&&◌, ◌||◌, not, ◌==◌,
  if◌then◌else◌,
}
use nodejs_basics.Prelude.Int.{ℤ}
use nodejs_basics.Kafka.Errors.{Thrown, a_send_error, other, send_error, not_connected}

-- `made` counts the producers created, `disconnected` lists those that were let go, the latest
-- first; `stopped` is `reconnect.stopped`, `closed` the aborted signal of that name.
pub record Service : Type 0 where
  pub producer : Option ℕ
  pub connected : Bool
  pub stopped : Bool
  pub closed : Bool
  pub made : ℕ
  pub disconnected : List ℕ

unfoldable pub new : Service
new = record {
  producer = none;
  connected = false;
  stopped = false;
  closed = false;
  made = 0;
  disconnected = [];
}

-- `connect`, up to `producer.connect()`: what `reconnect.start()` runs at once.
unfoldable pub begin_connect : Service → Service
begin_connect s = if s.stopped then s else record s { producer = some s.made; made = s.made + 1 }

-- `connect` once the producer `p` is connected.
unfoldable pub end_connect : Service → ℕ → Service
end_connect s p =
    if s.stopped
    then record s { disconnected = p ∷ s.disconnected }
    else record s { connected = true }

abbrev is_current : Option ℕ → ℕ → Bool
is_current none p = false
is_current (some q) p = q == p

-- Drops a producer that a fatal error broke; `reconnect.start()` makes the next one at once.
unfoldable pub replace : Service → ℕ → Service
unfolding begin_connect
replace s p =
    if not (is_current s.producer p) || s.stopped
    then s
    else begin_connect (record s { connected = false; disconnected = p ∷ s.disconnected })

abbrev let_go : Bool → Option ℕ → Service → Service
let_go true (some p) s = record s { connected = false; disconnected = p ∷ s.disconnected }
let_go _ _ s = s

-- `onApplicationShutdown`, whether or not the disconnect succeeds.
unfoldable pub shutdown : Service → Service
shutdown s =
    let stopped = record s { stopped = true } in
    record (let_go s.connected s.producer stopped) { closed = true }

-- `sendOnce` before its await: the producer that it sends with, or what it throws. `aborted` is the
-- caller's own signal.
abbrev sending : Bool → Option ℕ → Option ℕ
sending true (some p) = some p
sending _ _ = none

unfoldable pub begin_send : Service → (aborted : Bool) → Option ℕ
begin_send s aborted = if s.closed || aborted then none else sending s.connected s.producer

-- How a send under way ends: acknowledged, rejected by the client, or let go by an aborted signal.
pub data Reply : Type 0 where
  acknowledged let_go_by_signal : Reply
  failed : (code : Option ℤ) (is_fatal : Bool) → Reply

-- `sendOnce` after its await, for a send with the producer `p`.
unfoldable pub end_send : Service → ℕ → Reply → Service × Option Thrown
unfolding replace
end_send s p acknowledged = (s, none)
end_send s p let_go_by_signal = (s, some (a_send_error (send_error not_connected none)))
end_send s p (failed code true) = (replace s p, some (other code true))
end_send s p (failed code false) = (s, some (other code false))
