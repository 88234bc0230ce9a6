-- ===== src/Tests/Kafka.antt =====
-- Runs of the send-error registry, the reconnect loop and the producer service.
use nodejs_basics.Prelude.{ℕ, ◌*◌, ◌≤◌, true, false, none, some, [], ◌∷◌, ◌≡◌, refl, arith, lookup}
use nodejs_basics.Prelude.Int.{pos, neg}
use nodejs_basics.Kafka.Errors.{other, to_kafka_send_error, rejected, kind_by_code, queue_full}
use nodejs_basics.Kafka.Reconnect
use nodejs_basics.Kafka.Reconnect.Laws.{run-stop}
use nodejs_basics.Kafka.Producer
use nodejs_basics.Kafka.Producer.Connection
use nodejs_basics.Kafka.Producer.Connection.{run-shutdown, replace_once}
use nodejs_basics.Kafka.Producer.Waiting.{Try, Sent, budget, send_waiting}
use nodejs_basics.Kafka.Producer.Budget.{Ends, send_waiting-Ends}

abbrev waiting : Reconnect.Reconnect
waiting = record {
  delay = 2000;
  timer = some 1000;
  orphans = 1;
  stopped = false;
  running = 0;
  begun = 1;
  reported = 1000 ∷ [];
}

run-stop_example :
    ((Reconnect.run (Reconnect.stop waiting) (Reconnect.orphan_fires ∷ Reconnect.starts ∷ [])).begun
      ≡ 1)
    × ((Reconnect.run
          (Reconnect.stop waiting)
          (Reconnect.orphan_fires ∷ Reconnect.starts ∷ [])).reported
        ≡ 1000 ∷ [])
run-stop_example = run-stop waiting (Reconnect.orphan_fires ∷ Reconnect.starts ∷ [])

abbrev attempting : Reconnect.Reconnect
attempting = record waiting { timer = none; running = 1; delay = 1000 }

run-shutdown_example :
    let s =
      Producer.shutdown
        (Connection.run Producer.new (Connection.connects ∷ Connection.connected 0 ∷ [])) in
    let t = Connection.run s (Connection.connects ∷ []) in
    (t.made ≡ s.made) × (t.connected ≡ false) × (Producer.begin_send t false ≡ none)
run-shutdown_example =
    run-shutdown (Connection.connects ∷ Connection.connected 0 ∷ []) (Connection.connects ∷ [])
      false

-- The local queue is full for a while.
abbrev full_queue : ℕ → Try
full_queue i = record {
  took = 1;
  thrown = some (other (some (neg 184)) false);
  aborted = false;
  late = 0;
}

send_waiting-Ends_example :
    (s : Sent) × (send_waiting full_queue 1 200 0 (some 100) none ≡ some s)
    × Ends full_queue 1 100 s
    × (50 * s.tries ≤ 200)
unfolding budget
send_waiting-Ends_example = send_waiting-Ends full_queue 1 200 0 (some 100) none (omega arith)

-- Codes are looked up.
oversized : (to_kafka_send_error (other (some (pos 10)) false)).kind ≡ rejected
unfolding to_kafka_send_error lookup kind_by_code
oversized = refl

full : (to_kafka_send_error (other (some (neg 184)) false)).kind ≡ queue_full
unfolding to_kafka_send_error lookup kind_by_code
full = refl

abbrev online : Producer.Service
online = record {
  producer = some 0;
  connected = true;
  stopped = false;
  closed = false;
  made = 1;
  disconnected = [];
}

gone : Producer.begin_send online true ≡ none
unfolding Producer.begin_send
gone = refl
