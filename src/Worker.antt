-- ===== src/Worker.antt =====
-- apps/worker/src/tasks/task-events.consumer.ts: `TaskEventsConsumer.handle` with `ensureQueueRoom`, of
-- any number of events at once: partitions are handled side by side, so that a call is cut at its
-- awaits and others come between. The job queue (packages/jobs/src/job-queue.ts) is what it answers.
-- Times are milliseconds.
pub mod Handled
use nodejs_basics.Prelude.{
  ℕ, ◌+◌, ◌-◌, String, Bool, true, false, Option, none, some, List, [], ◌∷◌, ◌++◌, ltb, leb, ◌==◌,
  ◌===◌, string_key, if◌then◌else◌,
}

-- `QUEUE_DEPTH_TTL_MS`
abbrev pub queue_depth_ttl_ms : ℕ
queue_depth_ttl_ms = 1000

-- A parsed message: its `type`, and the task's id if it keeps the contract of a task.created event.
pub record Decoded : Type 0 where
  pub event_type : Option String
  pub contract_id : Option String

-- `queueDepth`
pub record QueueDepth : Type 0 where
  pub waiting : ℕ
  pub at : ℕ

-- `KafkaPermanentError` in its two uses, and the two kinds of backpressure.
pub data Failure : Type 0 where
  not_json breaks_contract : Failure
  queue_unavailable : Failure
  queue_full : (waiting : ℕ) → Failure

pub data Outcome : Type 0 where
  skipped enqueued : Outcome
  threw : Failure → Outcome

-- Where a call of `handle` stands: not called yet, at the `waiting()` or the `send` of the queue that it
-- awaits, or ended.
pub data Phase : Type 0 where
  idle : Phase
  reading : (id : String) → (now : ℕ) → Phase
  sending : (id : String) → Phase
  ended : Outcome → Phase

-- `sent` are the keys of the sends that the queue took, in order; the code keeps no such field.
pub record Worker : Type 0 where
  pub queue_depth : Option QueueDepth
  pub phase : ℕ → Phase
  pub sent : List String

-- What a step meets: the clock, the answer of `waiting()`, `none` if it rejects, and whether a `send`
-- resolves.
pub record World : Type 0 where
  pub now : ℕ
  pub waiting : Option ℕ
  pub send_ok : Bool

abbrev pub enter : ℕ → Phase → Worker → Worker
enter i p w = record {
  queue_depth = w.queue_depth;
  phase = λ j. if j == i then p else w.phase j;
  sent = w.sent;
}

abbrev pub is_stale : (now : ℕ) → Option QueueDepth → Bool
is_stale now none = true
is_stale now (some depth) = ltb queue_depth_ttl_ms (now - depth.at)

-- The second half of `ensureQueueRoom`; the depth is known there.
abbrev pub if_room : (max_waiting : ℕ) → Option QueueDepth → String → Phase
if_room max_waiting none id = sending id
if_room max_waiting (some depth) id =
    if leb max_waiting depth.waiting then ended (threw (queue_full depth.waiting)) else sending id

-- `ensureQueueRoom`, up to its `await`.
unfoldable pub ensure_queue_room :
    (max_waiting : ℕ) → (now : ℕ) → Option QueueDepth → String → Phase
ensure_queue_room max_waiting now depth id =
    if is_stale now depth then reading id now else if_room max_waiting depth id

abbrev pub is_ours : Option String → Bool
is_ours none = false
is_ours (some event_type) = event_type === "task.created"

abbrev pub if_contract : (max_waiting : ℕ) → (now : ℕ) → Option QueueDepth → Option String → Phase
if_contract max_waiting now depth none = ended (threw breaks_contract)
if_contract max_waiting now depth (some id) = ensure_queue_room max_waiting now depth id

-- `handle`, up to its first `await`, on what `JSON.parse` makes of the message; `none` where it throws.
unfoldable pub handle : (max_waiting : ℕ) → (now : ℕ) → Option QueueDepth → Option Decoded → Phase
unfolding ensure_queue_room
handle max_waiting now depth none = ended (threw not_json)
handle max_waiting now depth (some decoded) =
    if is_ours decoded.event_type
    then if_contract max_waiting now depth decoded.contract_id
    else ended skipped

-- What `ensureQueueRoom` does with the answer of `waiting()`.
abbrev pub after_waiting : (max_waiting i : ℕ) → String → ℕ → Option ℕ → Worker → Worker
after_waiting max_waiting i id now none w = enter i (ended (threw queue_unavailable)) w
after_waiting max_waiting i id now (some waiting) w =
    let depth = some (record { waiting = waiting; at = now }) in
    enter i (if_room max_waiting depth id)
      (record { queue_depth = depth; phase = w.phase; sent = w.sent })

abbrev pub counted : Option QueueDepth → Option QueueDepth
counted none = none
counted (some depth) = some (record { waiting = depth.waiting + 1; at = depth.at })

-- `queue.send(event, event.id)` and the count.
abbrev pub after_send : (i : ℕ) → String → (send_ok : Bool) → Worker → Worker
after_send i id false w = enter i (ended (threw queue_unavailable)) w
after_send i id true w =
    enter i (ended enqueued)
      (record { queue_depth = counted w.queue_depth; phase = w.phase; sent = w.sent ++ id ∷ [] })

abbrev pub step_at : (max_waiting : ℕ) → Option Decoded → ℕ → World → Phase → Worker → Worker
step_at max_waiting message i env idle w =
    enter i (handle max_waiting env.now w.queue_depth message) w
step_at max_waiting message i env (reading id now) w =
    after_waiting max_waiting i id now env.waiting w
step_at max_waiting message i env (sending id) w = after_send i id env.send_ok w
step_at max_waiting message i env (ended outcome) w = w

-- The next step of call `i`; `messages` gives what each call is called with.
unfoldable pub step :
    (max_waiting : ℕ) → (messages : ℕ → Option Decoded) → Worker → ℕ × World → Worker
step max_waiting messages w (i, env) = step_at max_waiting (messages i) i env (w.phase i) w

unfoldable pub run :
    (max_waiting : ℕ) → (messages : ℕ → Option Decoded) → Worker → List (ℕ × World) → Worker
unfolding step
run max_waiting messages w [] = w
run max_waiting messages w (e ∷ es) = run max_waiting messages (step max_waiting messages w e) es

-- No call yet.
unfoldable pub fresh : Worker
fresh = record { queue_depth = none; phase = λ i. idle; sent = [] }
