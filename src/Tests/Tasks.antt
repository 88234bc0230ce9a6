-- ===== src/Tests/Tasks.antt =====
-- Runs of the task use cases and of the idempotency store on Postgres.
use nodejs_basics.Prelude.{
  ◌≤◌, true, false, none, some, [], ◌∷◌, ◌≡◌, ◌↔◌, ◌⊎◌, refl, arith, ◌&&◌, ◌===◌, string_key,
  eq_iff, if◌then◌else◌,
}
use nodejs_basics.Tasks.{
  Database, World, committed, returned, UpdateTaskInput, new_task, create, update, archive,
  update_task, archive_task,
}
use nodejs_basics.Tasks.Atomic.{with_task, create-atomic}
use nodejs_basics.Tasks.Locking.{updates, archives, all_wins, wins, after, no_lost_update, IsKeyed}
use nodejs_basics.Idempotency.PgStore
use nodejs_basics.Idempotency.PgStore.Live.{until, get-set_nx}

abbrev world : World
world = record {
  begins = true;
  inserts = true;
  adds = true;
  updates = true;
  commit = committed;
  rolls_back = true;
  now = 5;
}

abbrev empty : Database
empty = record { tasks = λ k. none; outbox = [] }

create-atomic_example :
    let (db', answer, broken) = create world "t1" "Buy milk" none empty in
    ((db' ≡ empty) ⊎ (db' ≡ with_task (new_task world "t1" "Buy milk" none) empty))
    × ((answer ≡ returned (new_task world "t1" "Buy milk" none))
        → (db' ≡ with_task (new_task world "t1" "Buy milk" none) empty) × (empty.tasks "t1" ≡ none))
    × ((broken ≡ true) → (world.rolls_back ≡ false))
create-atomic_example = create-atomic world "t1" "Buy milk" none empty

abbrev stored : Database
stored = record {
  tasks = λ k. if k === "t1" then some (new_task world "t1" "Buy milk" none) else none;
  outbox = [];
}

abbrev rename : UpdateTaskInput
rename = record { title = some "Buy bread"; description = none }

stored-IsKeyed : IsKeyed stored
stored-IsKeyed id t e = ground (arith, eq_iff id "t1")

no_lost_update_example :
    all_wins "t1" 0 ((world, updates "t1" 0 rename) ∷ (world, archives "t1" 0) ∷ []) stored ≤ 1
no_lost_update_example =
    no_lost_update "t1" 0 ((world, updates "t1" 0 rename) ∷ (world, archives "t1" 0) ∷ []) stored
      stored-IsKeyed

-- The first of the two goes through.
first_wins :
    all_wins "t1" 0 ((world, updates "t1" 0 rename) ∷ (world, archives "t1" 0) ∷ []) stored ≡ 1
unfolding all_wins wins after update archive update_task archive_task
first_wins = refl

abbrev keys : PgStore.Table
keys k = if k === "a" then some (record { value = "old"; expires_at = 10 }) else none

get-set_nx_example :
    let (table', taken) = PgStore.set_nx (λ k. true) keys "a" "new" 30 20 in
    ((taken ≡ true) ↔ (PgStore.get keys "a" 20 ≡ none))
    × (PgStore.get table' "a" 25
        ≡ (if taken && true then until 50 25 "new" else PgStore.get keys "a" 25))
get-set_nx_example = get-set_nx (λ k. true) keys "a" "new" "a" 30 20 25 (omega arith)
