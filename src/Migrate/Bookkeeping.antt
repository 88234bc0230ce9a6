-- ===== src/Migrate/Bookkeeping.antt =====
-- What the bookkeeping table says of what ran, and when a run refuses.
use nodejs_basics.Prelude.{
  String, Memᴰ, true, Option, none, some, List, [], ◌∷◌, ◌++◌, ◌≡◌, ◌≢◌, ◌⊎◌, inl, inr, refl, subst,
  ap, string_key, lookup, arith, All, Option-cases, Bool-cases, eq_iff, ◌&&◌,
}
use nodejs_basics.Migrate.{
  Migration, Database, Failure, missing, changed, invalid_table, database_error, Migrated, done,
  threw, World, find_migration, verify_row, verify, is_applied, apply, then_rest, apply_all,
  migrate,
}

-- The versions of the rows.
abbrev pub versions : List (String × String) → List String
versions [] = []
versions ((version, _) ∷ rows) = version ∷ versions rows

versions-append :
    (xs ys : List (String × String)) → versions (xs ++ ys) ≡ versions xs ++ versions ys
versions-append [] ys = refl
versions-append (x ∷ xs) ys = ap (λ vs. x.0 ∷ vs) (versions-append xs ys)

-- The table records exactly what ran, in order.
abbrev pub IsRecorded : Database → Type 0
IsRecorded db = versions db.applied ≡ db.ran

apply-IsRecorded :
    (w : World) (m : Migration) (db : Database)
    → m.transactional ≡ true
    → IsRecorded db
    → IsRecorded (apply w m db).0
unfolding apply
apply-IsRecorded w m db t h =
    ground (arith, versions-append db.applied ((m.version, m.checksum) ∷ []))

then_rest-IsRecorded :
    (version : String) (failure : Option Failure) (db : Database) (rest : Database × Migrated)
    → IsRecorded db
    → IsRecorded rest.0
    → IsRecorded (then_rest version failure db rest).0
then_rest-IsRecorded version none db (after, done vs) h g = g
then_rest-IsRecorded version none db (after, threw f) h g = g
then_rest-IsRecorded version (some f) db rest h g = h

apply_all-IsRecorded :
    (w : World) (applied : List (String × String)) (ms : List Migration) (db : Database)
    → All (λ m. m.transactional ≡ true) ms
    → IsRecorded db
    → IsRecorded (apply_all w applied ms db).0
unfolding apply_all
apply_all-IsRecorded w applied [] db t h = h
apply_all-IsRecorded w applied (m ∷ ms) db t h =
    let after = apply-IsRecorded w m db t.0 h in
    elim (Bool-cases (is_applied (lookup m.version applied))) [
      | inl e ↦ rw e (apply_all-IsRecorded w applied ms db t.1 h)
      | inr e ↦ rw e (
          then_rest-IsRecorded m.version (apply w m db).1 (apply w m db).0 _ after
            (apply_all-IsRecorded w applied ms (apply w m db).0 t.1 after))
    ]

-- If the bookkeeping table lists exactly the migrations whose SQL took effect, in that order, then
-- so it does after a run of transactional migrations, however the run ends, on any failure of a
-- statement or a COMMIT.
pub migrate-IsRecorded :
    (w : World) (ms : List Migration) (db : Database)
    → All (λ m. m.transactional ≡ true) ms
    → IsRecorded db
    → IsRecorded (migrate w ms db).0
unfolding migrate
migrate-IsRecorded w ms db t h = ground (arith, apply_all-IsRecorded w db.applied ms db t h)

-- A row that no local migration matches, or one with another checksum.
abbrev pub IsStale : List Migration → String × String → Type 0
IsStale ms (version, checksum) =
    (find_migration version ms ≡ none)
    ⊎ ((m : Migration) × (find_migration version ms ≡ some m) × (m.checksum ≢ checksum))

verify_row_stale :
    (ms : List Migration) (row : String × String)
    → IsStale ms row
    → (f : Failure) × (verify_row (find_migration row.0 ms) row.1 ≡ some f)
verify_row_stale ms row (inl n) = (missing, rw n refl)
verify_row_stale ms row (inr (m, e, n)) = (changed, rw e (ground (arith, eq_iff m.checksum row.1)))

verify_stale :
    (ms : List Migration) (rows : List (String × String)) (row : String × String)
    → Memᴰ row rows
    → IsStale ms row
    → (f : Failure) × (verify rows ms ≡ some f)
unfolding verify
verify_stale ms [] row i s = elim i [ ]
verify_stale ms ((version, checksum) ∷ rows) row (Memᴰ.head e) s =
    let (f, q) = verify_row_stale ms (version, checksum) (subst (IsStale ms) e s) in (f, rw q refl)
verify_stale ms ((version, checksum) ∷ rows) row (Memᴰ.tail i) s =
    let (f, q) = verify_stale ms rows row i s in
    elim (Option-cases (verify_row (find_migration version ms) checksum)) [
      | inl n ↦ (f, rw (n, q) refl)
      | inr (g, e) ↦ (g, rw e refl)
    ]

-- A run whose applied migrations include one that is missing locally, or whose text has changed
-- since, throws and applies nothing.
pub migrate_refuses :
    (w : World) (ms : List Migration) (db : Database) (row : String × String)
    → Memᴰ row db.applied
    → IsStale ms row
    → (f : Failure) × (migrate w ms db ≡ (db, threw f))
unfolding migrate
migrate_refuses w ms db row i s =
    let (f, q) = verify_stale ms db.applied row i s in
    elim (Bool-cases w.table_ok) [
      | inr t ↦ (invalid_table, rw t refl)
      | inl t ↦ elim (Bool-cases w.lock_ok) [
        | inr l ↦ (database_error, rw (t, l) refl)
        | inl l ↦ elim (Bool-cases w.unlock_ok) [
          | inr u ↦ elim (Bool-cases (w.create_ok && w.select_ok)) [
            | inl c ↦ (database_error, rw (t, l, c, q, u) refl)
            | inr c ↦ (database_error, rw (t, l, c, u) refl)
          ]
          | inl u ↦ elim (Bool-cases (w.create_ok && w.select_ok)) [
            | inl c ↦ (f, rw (t, l, c, q, u) refl)
            | inr c ↦ (database_error, rw (t, l, c, u) refl)
          ]
        ]
      ]
    ]
