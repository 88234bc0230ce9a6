-- ===== src/Tests/Consumer.antt =====
-- Runs of the consumer runner: a message that fails, is retried and is parked.
use nodejs_basics.Prelude.{
  true, false, none, some, List, [], ◌∷◌, ◌≡◌, ◌≢◌, ◌↔◌, refl, lookup, string_key, if◌then◌else◌,
}
use nodejs_basics.Kafka.Consumer.{
  Partition, partition_key, Payload, Failure, backpressure, permanent, other, Runner, Env, given,
}
use nodejs_basics.Kafka.Consumer.Parking.{dead_letter_topic_of}
use nodejs_basics.Kafka.Consumer.Handle.{handle_message}
use nodejs_basics.Kafka.Consumer.Outcomes.{
  commits, commits-handle_message, IsGivenUp, CanPark, resolves_iff,
}
use nodejs_basics.Kafka.Consumer.Isolation.{IsUntouched, handle_message-IsUntouched}
use nodejs_basics.Kafka.Consumer.Delivery.{redeliver, all_threw, retries_bounded}
use nodejs_basics.Kafka.Consumer.Lifecycle

abbrev orders : Partition
orders = record { topic = "orders"; partition = 0 }

abbrev refunds : Partition
refunds = record { topic = "refunds"; partition = 0 }

abbrev order : Payload
order = record {
  source = orders;
  message = record {
    key = none;
    value = some (123 ∷ 125 ∷ []);
    headers =
        ("trace", some (given (49 ∷ []))) ∷ ("dlq_reason", some (given [])) ∷ ("empty", none) ∷ [];
    offset = 41;
  };
}

abbrev runner : Runner
runner = record {
  topics = "orders" ∷ [];
  max_retries = 1;
  dead_letter_topic = "{topic}.dlq";
  has_producer = true;
  consumer = true;
  running = true;
  joined = true;
  failures = [];
  attempts = [];
}

abbrev env : Env
env = record { send_ok = true; commit_ok = true }

abbrev broken : Failure
broken = record { kind = other; text = 98 ∷ 97 ∷ 100 ∷ [] }

abbrev busy : Failure
busy = record { kind = backpressure false; text = [] }

commits-handle_message_example :
    commits (handle_message runner env order none).effects
    ≡ (if (handle_message runner env order none).threw then [] else (orders, 42) ∷ [])
commits-handle_message_example = commits-handle_message runner env order none refl

resolves_iff_example :
    ((handle_message runner env order (some broken)).threw ≡ false)
    ↔ (IsGivenUp runner order broken × CanPark runner env)
resolves_iff_example = resolves_iff runner env order broken

refunds_ne : refunds ≢ orders
refunds_ne e = cc

handle_message-IsUntouched_example :
    IsUntouched refunds runner (handle_message runner env order (some broken)).runner
handle_message-IsUntouched_example =
    handle_message-IsUntouched runner env order (some broken) refunds refunds_ne

broken_ne : broken.kind ≢ permanent
broken_ne e = cc

dlq_ne : runner.dead_letter_topic ≢ "none"
dlq_ne e = cc

retries_bounded_example :
    (all_threw runner env order (broken ∷ []) ≡ true)
    × ((handle_message (redeliver runner env order (broken ∷ [])) env order (some broken)).threw
        ≡ false)
unfolding lookup
retries_bounded_example =
    retries_bounded runner env order (broken ∷ []) broken (broken_ne, tt) refl refl refl refl dlq_ne
      refl

-- A busy handler, and then again.
busy_ne : busy.kind ≢ permanent
busy_ne e = cc

parked_topic : dead_letter_topic_of "{topic}.dlq" "orders" ≡ "orders.dlq"
unfolding dead_letter_topic_of
parked_topic = refl

abbrev joined : List Lifecycle.Event
joined = Lifecycle.begins ∷ Lifecycle.connected true ∷ Lifecycle.ran true ∷ Lifecycle.assigned ∷ []

abbrev subscribing : Lifecycle.Member
subscribing = record {
  phase = Lifecycle.subscribing;
  consumer = true;
  running = false;
  joined = false;
  stopped = false;
  disconnected = false;
}

stop_while_subscribing_example :
    let s =
      Lifecycle.run subscribing (Lifecycle.stops ∷ Lifecycle.ran true ∷ Lifecycle.assigned ∷ []) in
    (Lifecycle.assert_running s true ≡ none) × (s.stopped ≡ true) × (s.disconnected ≡ false)
stop_while_subscribing_example = Lifecycle.stop_while_subscribing subscribing refl refl refl refl
