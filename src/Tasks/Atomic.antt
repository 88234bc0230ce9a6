-- ===== src/Tasks/Atomic.antt =====
-- A task and its event stand or fall together.
use nodejs_basics.Prelude.{
  String, true, false, Option, none, [], ◌∷◌, ◌++◌, ◌≡◌, ◌⊎◌, arith, string_key,
}
use nodejs_basics.Tasks.{Task, Database, returned, World, put, new_task, event_of, create}

-- The database with the task and its event.
abbrev pub with_task : Task → Database → Database
with_task t db = record (put t db) { outbox = db.outbox ++ event_of t ∷ [] }

-- Creating a task either leaves the database as it was, or writes both the task and its event.
-- The caller is told of a task only in the second case, and the connection goes back to the pool
-- unless a ROLLBACK failed.
pub create-atomic :
    (w : World) (id title : String) (description : Option String) (db : Database)
    → let t = new_task w id title description in
      let (db', answer, broken) = create w id title description db in
      ((db' ≡ db) ⊎ (db' ≡ with_task t db))
      × ((answer ≡ returned t) → (db' ≡ with_task t db) × (db.tasks id ≡ none))
      × ((broken ≡ true) → (w.rolls_back ≡ false))
unfolding create
create-atomic w id title description db = ground arith
