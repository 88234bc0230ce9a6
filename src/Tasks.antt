-- ===== src/Tasks.antt =====
-- The tasks module of apps/api: infrastructure/sql-task.repository.ts on the table of tasks,
-- application/task.use-case.ts, and the transaction of packages/database/src/pg-unit-of-work.service.ts
-- that they share. Transactions follow one another; a statement fails where its call says so.
-- SELECTs succeed; `list`, logs and the statement timeout are not modelled.
pub mod Locking
pub mod Atomic
use nodejs_basics.Prelude.{
  ℕ, ◌+◌, String, Bool, true, false, not, Option, none, some, List, [], ◌∷◌, ◌++◌, ◌===◌,
  string_key, ◌==◌, if◌then◌else◌,
}

pub data TaskStatus : Type 0 where
  active archived : TaskStatus

pub record Task : Type 0 where
  pub id : String
  pub title : String
  pub description : Option String
  pub status : TaskStatus
  pub created_at : ℕ
  pub updated_at : ℕ
  pub version : ℕ

-- `TaskCreatedEvent`, as the outbox keeps it.
pub record Event : Type 0 where
  pub id : String
  pub title : String
  pub created_at : ℕ

pub record Database : Type 0 where
  pub tasks : String → Option Task
  pub outbox : List Event

-- What a call returns or throws.
pub data Answer (A : Type 0) : Type 0 where
  returned : A → Answer A
  not_found already_archived conflict transaction_aborted database_error : Answer A

-- How COMMIT ends: as such, as a ROLLBACK, or with an error after which the writes may have stayed.
pub data Commit : Type 0 where
  committed rolled_back : Commit
  unknown : (stayed : Bool) → Commit

-- The environment of one call: whether the transaction begins, whether its INSERTs and UPDATEs
-- succeed, how COMMIT ends and whether a ROLLBACK succeeds; and the clock.
pub record World : Type 0 where
  pub begins : Bool
  pub inserts : Bool
  pub adds : Bool
  pub updates : Bool
  pub commit : Commit
  pub rolls_back : Bool
  pub now : ℕ

-- The database, the answer, and whether the connection is destroyed.
abbrev pub Ended : Type 0 → Type 0
Ended A = Database × Answer A × Bool

-- After the work: COMMIT, or the ROLLBACK of the `catch`.
abbrev pub end_transaction :
    {A : Type 0} → World → Database → Commit → Database × Answer A → Ended A
end_transaction w before committed (after, returned a) = (after, returned a, false)
end_transaction w before rolled_back (after, returned a) =
    (before, transaction_aborted, not w.rolls_back)
end_transaction w before (unknown stayed) (after, returned a) =
    (if stayed then after else before, database_error, not w.rolls_back)
end_transaction w before c (after, error) = (before, error, not w.rolls_back)

-- `runInTransaction`, and `withTx` of the repository: a nested one joins.
unfoldable pub transaction :
    {A : Type 0} → World → (nested : Bool) → (Database → Database × Answer A) → Database → Ended A
transaction w nested fn db =
    let (inner, answer) = fn db in
    if nested
    then (inner, answer, false)
    else if w.begins
    then end_transaction w db w.commit (inner, answer)
    else (db, database_error, not w.rolls_back)

abbrev pub put : Task → Database → Database
put t db = record db { tasks = λ k. if k === t.id then some t else db.tasks k }

-- Repository: `findById`, `create`, `update`, `archive`.
unfoldable pub find_by_id : Database → String → Option Task
find_by_id db id = db.tasks id

abbrev pub new_task : World → String → String → Option String → Task
new_task w id title description = record {
  id = id;
  title = title;
  description = description;
  status = active;
  created_at = w.now;
  updated_at = w.now;
  version = 0;
}

-- The INSERT; the id is the primary key.
abbrev pub insert_into : World → Task → Option Task → Database → Database × Answer Task
insert_into w t (some _) db = (db, database_error)
insert_into w t none db = if w.inserts then (put t db, returned t) else (db, database_error)

unfoldable pub insert_task :
    World → String → String → Option String → Database → Database × Answer Task
insert_task w id title description db =
    insert_into w (new_task w id title description) (db.tasks id) db

pub record UpdateTaskInput : Type 0 where
  pub title : Option String
  pub description : Option (Option String)  -- a description can be set to null

abbrev pub or_kept {ℓ} : {A : Type ℓ} → Option A → A → A
or_kept none a = a
or_kept (some b) a = b

abbrev pub patched : World → UpdateTaskInput → Task → Task
patched w patch t = record t {
  title = or_kept patch.title t.title;
  description = or_kept patch.description t.description;
  updated_at = w.now;
  version = t.version + 1;
}

abbrev pub archive_of : World → Task → Task
archive_of w t = record t { status = archived; updated_at = w.now; version = t.version + 1 }

-- `UPDATE … WHERE id = … AND version = …`, and the query that tells a missing row from a newer one.
abbrev pub update_where :
    World → (Task → Task) → ℕ → Option Task → Database → Database × Answer Task
update_where w f expected none db = (db, if w.updates then not_found else database_error)
update_where w f expected (some t) db =
    if w.updates
    then if t.version == expected then (put (f t) db, returned (f t)) else (db, conflict)
    else (db, database_error)

unfoldable pub update_task :
    World → String → ℕ → UpdateTaskInput → Database → Database × Answer Task
update_task w id expected patch db = update_where w (patched w patch) expected (db.tasks id) db

unfoldable pub archive_task : World → String → ℕ → Database → Database × Answer Task
archive_task w id expected db = update_where w (archive_of w) expected (db.tasks id) db

-- Use cases: `create`, whose event goes into the outbox of the same transaction.
abbrev pub event_of : Task → Event
event_of t = record { id = t.id; title = t.title; created_at = t.created_at }

abbrev pub add_event : World → Database × Answer Task → Database × Answer Task
add_event w (db, returned t) =
    if w.adds
    then (record db { outbox = db.outbox ++ event_of t ∷ [] }, returned t)
    else (db, database_error)
add_event w (db, error) = (db, error)

unfoldable pub create : World → String → String → Option String → Database → Ended Task
unfolding transaction insert_task
create w id title description db =
    transaction w false (λ d. add_event w (insert_task w id title description d)) db

abbrev pub update_found :
    World → String → ℕ → UpdateTaskInput → Option Task → Database → Database × Answer Task
update_found w id expected patch none db = (db, not_found)
update_found w id expected patch (some t) db = update_task w id expected patch db

unfoldable pub update : World → String → ℕ → UpdateTaskInput → Database → Ended Task
unfolding transaction find_by_id
update w id expected patch db =
    transaction w false (λ d. update_found w id expected patch (find_by_id d id) d) db

abbrev is_archived : TaskStatus → Bool
is_archived archived = true
is_archived active = false

abbrev pub archive_found : World → String → ℕ → Option Task → Database → Database × Answer Task
archive_found w id expected none db = (db, not_found)
archive_found w id expected (some t) db =
    if is_archived t.status then (db, already_archived) else archive_task w id expected db

unfoldable pub archive : World → String → ℕ → Database → Ended Task
unfolding transaction find_by_id
archive w id expected db =
    transaction w false (λ d. archive_found w id expected (find_by_id d id) d) db
