-- ===== src/Migrate.antt =====
-- apps/migrate/src/migrate.ts: `loadMigrations` and `migrate`. The directory is the list of its SQL
-- files in order, each with what the pattern of file names matches. The bookkeeping table is the list
-- of its rows; `ran` holds the versions whose SQL took effect, in order. Any statement on the
-- connection may fail; other runs, which the advisory lock keeps away, do not come between.
pub mod Again
pub mod Bookkeeping
pub mod Loading
use nodejs_basics.Prelude.{
  ℕ, String, Bool, true, false, not, Option, none, some, List, [], ◌∷◌, ◌++◌, ◌&&◌, any, ◌===◌,
  string_key, lookup, if◌then◌else◌,
}

pub record Migration : Type 0 where
  pub version : String
  pub name : String
  pub sql : String
  pub checksum : String
  pub transactional : Bool

-- A file whose name ends in `.sql`: the version and the name that are matched, if they are.
pub record File : Type 0 where
  pub matched : Option (String × String)
  pub sql : String

pub data Loaded : Type 0 where
  loaded : List Migration → Loaded
  bad_name shared_version : Loaded

abbrev pub has_version : String → List Migration → Bool
has_version version ms = any (λ m. m.version === version) ms

-- The loop over the files; `sha256` is the digest in hexadecimal, `no_transaction` the test for the
-- marker in the text's first line.
module _ (sha256 : String → String) (no_transaction : String → Bool) where
  abbrev pub migration_of : String → String → String → Migration
  migration_of version name sql = record {
    version = version;
    name = name;
    sql = sql;
    checksum = sha256 sql;
    transactional = not (no_transaction sql);
  }

  unfoldable pub load_from : List File → List Migration → Loaded
  load_from [] ms = loaded ms
  load_from (f ∷ files) ms = elim f.matched [
    | none ↦ bad_name
    | some (version, name) ↦
        let rest = load_from files (ms ++ migration_of version name f.sql ∷ []) in
        if has_version version ms then shared_version else rest
  ]

  unfoldable pub load_migrations : List File → Loaded
  unfolding load_from
  load_migrations files = load_from files []

pub record Database : Type 0 where
  pub applied : List (String × String)  -- version and checksum
  pub ran : List String

pub data Failure : Type 0 where
  invalid_table missing changed failed database_error : Failure

pub data Migrated : Type 0 where
  done : List String → Migrated
  threw : Failure → Migrated

-- The environment: whether the table's name is valid, and whether each statement succeeds: the
-- advisory lock, CREATE TABLE IF NOT EXISTS, the SELECT of the rows and the unlock, and of each migration
-- its BEGIN, its SQL, its record, its COMMIT and its ROLLBACK.
pub record World : Type 0 where
  pub table_ok : Bool
  pub lock_ok : Bool
  pub create_ok : Bool
  pub select_ok : Bool
  pub unlock_ok : Bool
  pub begin_ok : String → Bool
  pub sql_ok : String → Bool
  pub record_ok : String → Bool
  pub commit_ok : String → Bool
  pub rollback_ok : String → Bool

unfoldable pub find_migration : String → List Migration → Option Migration
find_migration version [] = none
find_migration version (m ∷ ms) =
    if m.version === version then some m else find_migration version ms

-- The check of one applied row.
abbrev pub verify_row : Option Migration → String → Option Failure
verify_row none checksum = some missing
verify_row (some m) checksum = if m.checksum === checksum then none else some changed

abbrev pub first_failure : Option Failure → Option Failure → Option Failure
first_failure none rest = rest
first_failure (some f) rest = some f

unfoldable pub verify : List (String × String) → List Migration → Option Failure
unfolding find_migration
verify [] ms = none
verify ((version, checksum) ∷ rows) ms =
    first_failure (verify_row (find_migration version ms) checksum) (verify rows ms)

abbrev pub is_applied : Option String → Bool
is_applied none = false
is_applied (some _) = true

-- The statements of one migration: the database and whether they went through.
abbrev pub recorded : Migration → Database → Database
recorded m db = record db { applied = db.applied ++ (m.version, m.checksum) ∷ [] }

abbrev pub ran_sql : Migration → Database → Database
ran_sql m db = record db { ran = db.ran ++ m.version ∷ [] }

unfoldable pub apply : World → Migration → Database → Database × Option Failure
apply w m db =
    if m.transactional
    then if not (w.begin_ok m.version)
      then (db, some database_error)
      else if w.sql_ok m.version && w.record_ok m.version && w.commit_ok m.version
      then (recorded m (ran_sql m db), none)
      else (db, some (if w.rollback_ok m.version then failed else database_error))
    else if not (w.sql_ok m.version)
    then (db, some database_error)
    else if w.record_ok m.version
    then (recorded m (ran_sql m db), none)
    else (ran_sql m db, some database_error)

-- The loop; `applied` is the map that was read before it.
abbrev pub cons_done : String → Database × Migrated → Database × Migrated
cons_done version (db, done versions) = (db, done (version ∷ versions))
cons_done version (db, threw f) = (db, threw f)

abbrev pub then_rest :
    String → Option Failure → Database → Database × Migrated → Database × Migrated
then_rest version none db rest = cons_done version rest
then_rest version (some f) db rest = (db, threw f)

unfoldable pub apply_all :
    World → List (String × String) → List Migration → Database → Database × Migrated
unfolding apply
apply_all w applied [] db = (db, done [])
apply_all w applied (m ∷ ms) db =
    let (after, failure) = apply w m db in
    let skipped = apply_all w applied ms db in
    let rest = apply_all w applied ms after in
    if is_applied (lookup m.version applied)
    then skipped
    else then_rest m.version failure after rest

abbrev pub unless_failed : Option Failure → Database → Database × Migrated → Database × Migrated
unless_failed none db rest = rest
unless_failed (some f) db rest = (db, threw f)

-- What the `try` runs.
abbrev pub under_lock : World → List Migration → Database → Database × Migrated
unfolding apply_all verify
under_lock w ms db =
    if w.create_ok && w.select_ok
    then unless_failed (verify db.applied ms) db (apply_all w db.applied ms db)
    else (db, threw database_error)

-- The `finally`: an unlock that fails throws in place of what the `try` gave.
abbrev pub unlock : World → Database × Migrated → Database × Migrated
unlock w (db, result) = if w.unlock_ok then (db, result) else (db, threw database_error)

unfoldable pub migrate : World → List Migration → Database → Database × Migrated
unfolding apply_all verify
migrate w ms db =
    if not w.table_ok
    then (db, threw invalid_table)
    else if not w.lock_ok
    then (db, threw database_error)
    else unlock w (under_lock w ms db)
