-- ===== src/Tests/Migrate.antt =====
-- Runs of the migrations.
use nodejs_basics.Prelude.{
  All, some, false, true, List, [], ◌∷◌, ◌≡◌, ◌≢◌, refl, arith, ◌===◌, string_key, eq_iff, lookup,
}
use nodejs_basics.Migrate.{
  File, migration_of, load_migrations, Migration, Database, done, World, find_migration, migrate,
  apply,
}
use nodejs_basics.Migrate.Bookkeeping.{IsRecorded, migrate-IsRecorded}
use nodejs_basics.Migrate.Loading.{load_migrations-IsOwn}
use nodejs_basics.Migrate.Again.{IsOwn, migrate_again}

abbrev init : Migration
init = record {
  version = "0001";
  name = "init";
  sql = "CREATE TABLE tasks ()";
  checksum = "c1";
  transactional = true;
}

abbrev next : Migration
next = record {
  version = "0002";
  name = "next";
  sql = "ALTER TABLE tasks";
  checksum = "c2";
  transactional = true;
}

abbrev migrations : List Migration
migrations = init ∷ next ∷ []

abbrev empty : Database
empty = record { applied = []; ran = [] }

abbrev world : World
world = record {
  table_ok = true;
  lock_ok = true;
  create_ok = true;
  select_ok = true;
  unlock_ok = true;
  begin_ok = λ v. true;
  sql_ok = λ v. true;
  record_ok = λ v. true;
  commit_ok = λ v. true;
  rollback_ok = λ v. true;
}

-- The second migration fails.
abbrev failing : World
failing = record world { sql_ok = λ v. v === "0001" }

migrate-IsRecorded_example : IsRecorded (migrate failing migrations empty).0
migrate-IsRecorded_example = migrate-IsRecorded failing migrations empty (refl, (refl, tt)) refl

abbrev edited : Database
edited = record { applied = ("0001", "c0") ∷ []; ran = "0001" ∷ [] }

c1_ne : init.checksum ≢ "c0"
c1_ne e = ground (arith, eq_iff "c1" "c0")

abbrev migrated : Database
migrated = record { applied = ("0001", "c1") ∷ ("0002", "c2") ∷ []; ran = "0001" ∷ "0002" ∷ [] }

migrate_again_example : migrate failing migrations migrated ≡ (migrated, done [])
unfolding migrate apply lookup find_migration
migrate_again_example =
    migrate_again world failing migrations empty migrated ("0001" ∷ "0002" ∷ []) (refl, (refl, tt))
      refl refl refl refl refl refl

abbrev files : List File
files =
    record { matched = some ("0001", "init"); sql = "CREATE TABLE tasks ()" }
    ∷ record { matched = some ("0002", "next"); sql = "ALTER TABLE tasks" }
    ∷ []

-- A digest that keeps its text, and files without the marker.
abbrev loads : List Migration
loads =
    migration_of (λ s. s) (λ s. false) "0001" "init" "CREATE TABLE tasks ()"
    ∷ migration_of (λ s. s) (λ s. false) "0002" "next" "ALTER TABLE tasks"
    ∷ []

load_migrations-IsOwn_example : All (IsOwn loads) loads
unfolding load_migrations
load_migrations-IsOwn_example = load_migrations-IsOwn (λ s. s) (λ s. false) files loads refl
