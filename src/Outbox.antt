-- ===== src/Outbox.antt =====
-- packages/outbox/src/outbox.relay.ts: `OutboxRelay`. The table is the list of its rows in the
-- order of their ids; the SQL statements of the file are functions on it, and a transaction that
-- rolls back leaves it as it was. Metrics, spans, logs and the release of the connection are not
-- modelled, nor a COMMIT whose answer is lost; a row's payload and headers are carried along as they are.
pub mod Table
pub mod Fate
pub mod Passes
pub mod Drain
pub mod Schedule
use nodejs_basics.Prelude.{
  ℕ, suc, ◌+◌, ◌-◌, ◌*◌, ◌^◌, min, max, String, Bool, true, false, not, Option, none, some, List,
  [], ◌∷◌, ◌&&◌, any, keep, take, length, ltb, ◌==◌, if◌then◌else◌,
}
use nodejs_basics.Kafka.Errors.{KafkaSendError}

pub record Row : Type 0 where
  pub id : ℕ
  pub topic : String
  pub key : Option String
  pub payload : List ℕ
  pub headers : List (String × String)
  pub attempts : ℕ
  pub last_error : Option (List ℕ)
  pub created_at : ℕ

-- What a send of a row rejects with; the message in UTF-16 code units.
pub record Refusal : Type 0 where
  pub error : KafkaSendError
  pub message : List ℕ

pub record Stats : Type 0 where
  pub pending : ℕ
  pub dead : ℕ
  pub oldest_age : ℕ

pub record Relay : Type 0 where
  pub interval_ms : ℕ
  pub batch_size : ℕ
  pub max_attempts : ℕ
  pub failures : ℕ
  pub partial : Bool
  pub stopping : Bool
  pub stats : Option Stats
  pub timer : Option ℕ  -- the delay of the pass that is scheduled

-- The environment of one pass: the rows that other relays have locked, what each send does (`none`
-- is acknowledged), whether the transaction gets as far as the sends, whether its writes and its
-- COMMIT succeed, and whether the query of the stats does.
pub record Env : Type 0 where
  pub locked : ℕ → Bool
  pub send : Row → Option Refusal
  pub reads_ok : Bool
  pub writes_ok : Bool
  pub stats_ok : Bool
  pub now : ℕ

-- `SELECT … WHERE attempts < $2 ORDER BY id LIMIT $1 FOR UPDATE SKIP LOCKED`
unfoldable pub select : Relay → (ℕ → Bool) → List Row → List Row
select r locked rows =
    take r.batch_size (keep (λ row. ltb row.attempts r.max_attempts && not (locked row.id)) rows)

abbrev pub is_sent : Option Refusal → Bool
is_sent none = true
is_sent (some _) = false

abbrev pub is_poison : Option Refusal → Bool
is_poison none = false
is_poison (some f) = not f.error.retryable

abbrev pub has_id : List Row → ℕ → Bool
has_id rows i = any (λ row. row.id == i) rows

-- `DELETE FROM outbox WHERE id = ANY($1)`
unfoldable pub delete_rows : List Row → List Row → List Row
delete_rows sent rows = keep (λ row. not (has_id sent row.id)) rows

abbrev pub message_of : Option Refusal → List ℕ
message_of none = []
message_of (some f) = take 1000 f.message

-- `UPDATE outbox SET attempts = attempts + 1, last_error = $2 WHERE id = $1`
unfoldable pub bump : ℕ → List ℕ → List Row → List Row
bump i message [] = []
bump i message (row ∷ rows) =
    (if row.id == i
      then record row { attempts = row.attempts + 1; last_error = some message }
      else row)
    ∷ bump i message rows

-- The loop over the poison rows.
unfoldable pub bump_all : (Row → Option Refusal) → List Row → List Row → List Row
bump_all send [] rows = rows
bump_all send (row ∷ poison) rows = bump_all send poison (bump row.id (message_of (send row)) rows)

-- How a pass ends: so many rows published, or an error.
pub data Pass : Type 0 where
  published : ℕ → Pass
  failed : Pass

abbrev pub is_empty {ℓ} : {A : Type ℓ} → List A → Bool
is_empty [] = true
is_empty (_ ∷ _) = false

-- The rows of a batch by what their sends did: acknowledged, refused, and refused for good.
unfoldable pub sent_of : Env → List Row → List Row
sent_of env batch = keep (λ row. is_sent (env.send row)) batch

unfoldable pub refused_of : Env → List Row → List Row
refused_of env batch = keep (λ row. not (is_sent (env.send row))) batch

unfoldable pub poison_of : Env → List Row → List Row
unfolding refused_of
poison_of env batch = keep (λ row. is_poison (env.send row)) (refused_of env batch)

-- Nothing went out and nothing is the rows' fault.
unfoldable pub is_outage : Env → List Row → Bool
unfolding sent_of refused_of poison_of
is_outage env batch =
    not (is_empty (refused_of env batch))
    && is_empty (sent_of env batch)
    && is_empty (poison_of env batch)

-- The table after the DELETE and the UPDATEs.
unfoldable pub written : Env → List Row → List Row → List Row
unfolding delete_rows bump_all sent_of poison_of
written env batch rows =
    bump_all env.send (poison_of env batch) (delete_rows (sent_of env batch) rows)

-- `relayBatch`: the relay and the table after it.
unfoldable pub relay_batch : Relay → Env → List Row → Relay × List Row × Pass
relay_batch r env rows =
    let batch = select r env.locked rows in
    if env.reads_ok && not (is_outage env batch) && env.writes_ok
    then (
      record r { partial = not (is_empty (refused_of env batch)) },
      written env batch rows,
      published (length (sent_of env batch)),
    )
    else (r, rows, failed)

abbrev pub max_backoff_ms : ℕ
max_backoff_ms = 30000

-- The query of `refreshStats`; ages are in the unit of the clock, 0 when nothing is pending.
abbrev pub oldest_of : ℕ → List Row → ℕ
oldest_of now [] = 0
oldest_of now (row ∷ rows) = max (now - row.created_at) (oldest_of now rows)

unfoldable pub read_stats : Relay → ℕ → List Row → Stats
read_stats r now rows = record {
  pending = length (keep (λ row. ltb row.attempts r.max_attempts) rows);
  dead = length (keep (λ row. not (ltb row.attempts r.max_attempts)) rows);
  oldest_age = oldest_of now (keep (λ row. ltb row.attempts r.max_attempts) rows);
}

-- A failed query keeps the previous numbers.
unfoldable pub refresh_stats : Relay → Env → List Row → Relay
unfolding read_stats
refresh_stats r env rows =
    if env.stats_ok then record r { stats = some (read_stats r env.now rows) } else r

unfoldable pub schedule : Relay → ℕ → Relay
schedule r delay = if r.stopping then r else record r { timer = some delay }

unfoldable pub back_off : Relay → Relay × ℕ
back_off r = (
  record r { failures = r.failures + 1 },
  min (r.interval_ms * 2 ^ (r.failures + 1)) max_backoff_ms,
)

-- `tick` after its pass: the relay and the delay of the next pass.
unfoldable pub next_delay : Relay → Pass → Relay × ℕ
unfolding back_off
next_delay r failed = back_off r
next_delay r (published n) =
    if r.partial
    then back_off r
    else (record r { failures = 0 }, if n == r.batch_size then 0 else r.interval_ms)

unfoldable pub tick : Relay → Env → List Row → Relay × List Row
unfolding next_delay refresh_stats schedule
tick r env rows =
    let (after, rows', pass) = relay_batch (record r { timer = none }) env rows in
    let (later, delay) = next_delay after pass in
    (schedule (refresh_stats later env rows') delay, rows')

-- `onApplicationBootstrap`, and `beforeApplicationShutdown` without its wait.
unfoldable pub bootstrap : Relay → Relay
unfolding schedule
bootstrap r = schedule r 0

unfoldable pub shut_down : Relay → Relay
shut_down r = record r { stopping = true; timer = none }
