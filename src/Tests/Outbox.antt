-- ===== src/Tests/Outbox.antt =====
-- Runs of the outbox relay on a small table.
use nodejs_basics.Prelude.{
  ℕ, true, false, none, some, List, [], ◌∷◌, ◌≡◌, ◌≢◌, refl, arith, length, ◌==◌, if◌then◌else◌,
}
use nodejs_basics.Kafka.Errors.{send_error, rejected, unavailable}
use nodejs_basics.Outbox.{
  Row, Relay, Env, Refusal, relay_batch, select, has_id, is_outage, written, bump,
}
use nodejs_basics.Outbox.Table.{Ascends, find}
use nodejs_basics.Outbox.Fate.{fate, find-relay_batch}
use nodejs_basics.Outbox.Passes.{IsCapped}
use nodejs_basics.Outbox.Drain.{IsCalm, pending, passes, backlog_drains}

abbrev row : ℕ → Row
row i = record {
  id = i;
  topic = "tasks";
  key = none;
  payload = [];
  headers = [];
  attempts = 0;
  last_error = none;
  created_at = 0;
}

abbrev rows : List Row
rows = row 1 ∷ row 2 ∷ row 3 ∷ []

abbrev relay : Relay
relay = record {
  interval_ms = 500;
  batch_size = 2;
  max_attempts = 3;
  failures = 0;
  partial = false;
  stopping = false;
  stats = none;
  timer = none;
}

-- Everything goes out.
abbrev calm : Env
calm = record {
  locked = λ i. false;
  send = λ r. none;
  reads_ok = true;
  writes_ok = true;
  stats_ok = true;
  now = 10;
}

abbrev poison : Refusal
poison = record { error = send_error rejected none; message = [] }

abbrev outage : Refusal
outage = record { error = send_error unavailable none; message = [] }

-- The second row is refused for good.
abbrev mixed : Env
mixed = record calm { send = λ r. if r.id == 2 then some poison else none }

abbrev down : Env
down = record calm { send = λ r. some outage }

abbrev broken : Env
broken = record calm { reads_ok = false }

ascending : Ascends 0 rows
ascending = (omega arith, (omega arith, (omega arith, tt)))

find-relay_batch_example :
    find 2 (relay_batch relay mixed rows).1
    ≡ fate mixed (has_id (select relay (λ i. false) rows) 2) (find 2 rows)
unfolding relay_batch is_outage select
find-relay_batch_example = find-relay_batch relay mixed 0 2 1 rows ascending refl

capped : IsCapped relay rows
unfolding find
capped i r h = ground arith

some_rows : select relay down.locked rows ≢ []
unfolding select
some_rows e = cc

calm-IsCalm : IsCalm calm
calm-IsCalm = record { reads = refl; writes = refl; acks = λ r. refl; free = λ i. refl }

backlog_drains_example : length (pending relay (passes relay (calm ∷ calm ∷ []) rows)) ≡ 0
backlog_drains_example =
    backlog_drains relay (calm ∷ calm ∷ []) 0 rows ascending (calm-IsCalm, (calm-IsCalm, tt))
      (omega arith)

abbrev map_ids : List Row → List ℕ
map_ids [] = []
map_ids (r ∷ rs) = r.id ∷ map_ids rs

-- The good rows of a mixed batch go out, the refused one stays with one attempt.
mixed_pass : map_ids (relay_batch relay mixed rows).1 ≡ 2 ∷ 3 ∷ []
unfolding relay_batch select is_outage written bump
mixed_pass = refl
