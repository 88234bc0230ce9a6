-- ===== src/Migrate/Again.antt =====
-- A second run finds nothing to do.
use nodejs_basics.Prelude.{
  String, true, Option, none, some, List, [], ◌∷◌, ◌++◌, ◌≡◌, ◌⊎◌, ◌&&◌, inl, inr, refl, ap,
  string_key, lookup, subst, arith, All, All-append, Bool-cases, eq_refl,
}
use nodejs_basics.Migrate.{
  Migration, Database, Failure, Migrated, done, threw, World, find_migration, verify_row, verify,
  is_applied, apply, then_rest, apply_all, unless_failed, under_lock, unlock, migrate,
}

-- Versions are distinct: each migration is the one that its version finds.
abbrev pub IsOwn : List Migration → Migration → Type 0
IsOwn ms m = find_migration m.version ms ≡ some m

abbrev Has : String → List (String × String) → Type 0
Has version rows = is_applied (lookup version rows) ≡ true

Has-append :
    (version : String) (xs ys : List (String × String))
    → Has version xs ⊎ Has version ys
    → Has version (xs ++ ys)
unfolding lookup
Has-append version [] ys (inl h) = absurd (cc)
Has-append version [] ys (inr h) = h
Has-append version (x ∷ xs) ys (inl h) = elim (Bool-cases (is_applied (lookup version xs))) [
  | inl g ↦ ground (arith, Has-append version xs ys (inl g))
  | inr g ↦ ground (arith, g)
]
Has-append version (x ∷ xs) ys (inr h) = ground (arith, Has-append version xs ys (inr h))

Has_self : (version checksum : String) → Has version ((version, checksum) ∷ [])
unfolding lookup
Has_self version checksum = ground (arith, eq_refl version)

-- The row is one of a local migration, unchanged.
abbrev IsFresh : List Migration → String × String → Type 0
IsFresh ms row = verify_row (find_migration row.0 ms) row.1 ≡ none

verify-All :
    (ms : List Migration) (rows : List (String × String))
    → verify rows ms ≡ none
    → All (IsFresh ms) rows
unfolding verify
verify-All ms [] h = tt
verify-All ms (row ∷ rows) h = ground (arith, verify-All ms rows)

All-verify :
    (ms : List Migration) (rows : List (String × String))
    → All (IsFresh ms) rows
    → verify rows ms ≡ none
unfolding verify
All-verify ms [] h = refl
All-verify ms (row ∷ rows) h = rw (h.0, All-verify ms rows h.1) refl

apply-none :
    (w : World) (m : Migration) (db : Database)
    → (apply w m db).1 ≡ none
    → (apply w m db).0.applied ≡ db.applied ++ (m.version, m.checksum) ∷ []
unfolding apply
apply-none w m db h = ground arith

then_rest-done :
    (version : String) (failure : Option Failure) (db db' : Database) (rest : Database × Migrated)
    (vs : List String)
    → then_rest version failure db rest ≡ (db', done vs)
    → (failure ≡ none) × ((us : List String) × (rest ≡ (db', done us)))
then_rest-done version none db db' (after, done us) vs h = (refl, (us, cc))
then_rest-done version none db db' (after, threw f) vs h = absurd (cc)
then_rest-done version (some f) db db' rest vs h = absurd (cc)

-- What a run that went through from `rows` has made of the table.
record Went (ms all : List Migration) (applied before after : List (String × String)) : Type 0 where
  fresh : All (IsFresh all) after
  kept : (version : String) → Has version before → Has version after
  covered : All (λ m. Has m.version applied ⊎ Has m.version after) ms

apply_all-Went :
    (w : World) (all : List Migration) (applied : List (String × String)) (ms : List Migration)
    (db db' : Database) (vs : List String)
    → All (IsOwn all) ms
    → All (IsFresh all) db.applied
    → apply_all w applied ms db ≡ (db', done vs)
    → Went ms all applied db.applied db'.applied
unfolding apply_all
apply_all-Went w all applied [] db db' vs own f h =
    let same : db ≡ db' = ap (λ x. x.0) h in
    subst (λ d. Went [] all applied db.applied d.applied) same
      (record { fresh = f; kept = λ v g. g; covered = tt })
apply_all-Went w all applied (m ∷ ms) db db' vs own f h =
    elim (Bool-cases (is_applied (lookup m.version applied))) [
      | inl e ↦
          let went = apply_all-Went w all applied ms db db' vs own.1 f (rw e at h) in
          record { fresh = went.fresh; kept = went.kept; covered = (inl e, went.covered) }
      | inr e ↦
          let (ok, (us, rest)) =
            then_rest-done m.version (apply w m db).1 (apply w m db).0 db'
              (apply_all w applied ms (apply w m db).0) vs (rw e at h) in
          let rows = apply-none w m db ok in
          let added : All (IsFresh all) (apply w m db).0.applied = rw rows (
            All-append (IsFresh all) db.applied ((m.version, m.checksum) ∷ []) f
              (rw own.0 (ground (arith, eq_refl m.checksum)), tt)) in
          let went = apply_all-Went w all applied ms (apply w m db).0 db' us own.1 added rest in
          record {
            fresh = went.fresh;
            kept = λ v g. went.kept v (rw rows (Has-append v db.applied _ (inl g)));
            covered = (
              inr (
                  went.kept m.version (
                    rw rows
                      (Has-append m.version db.applied _ (inr (Has_self m.version m.checksum))))),
              went.covered,
            );
          }
    ]

skips :
    (w : World) (applied : List (String × String)) (ms : List Migration) (db : Database)
    → All (λ m. Has m.version applied) ms
    → apply_all w applied ms db ≡ (db, done [])
unfolding apply_all
skips w applied [] db h = refl
skips w applied (m ∷ ms) db h = rw (h.0) (skips w applied ms db h.1)

covered_by :
    (before after : List (String × String)) (ms : List Migration)
    → ((version : String) → Has version before → Has version after)
    → All (λ m. Has m.version before ⊎ Has m.version after) ms
    → All (λ m. Has m.version after) ms
covered_by before after [] k c = tt
covered_by before after (m ∷ ms) k (inl b, c) = (k m.version b, covered_by before after ms k c)
covered_by before after (m ∷ ms) k (inr a, c) = (a, covered_by before after ms k c)

unless_failed-done :
    (o : Option Failure) (db db' : Database) (rest : Database × Migrated) (vs : List String)
    → unless_failed o db rest ≡ (db', done vs)
    → (o ≡ none) × (rest ≡ (db', done vs))
unless_failed-done none db db' rest vs h = (refl, h)
unless_failed-done (some f) db db' rest vs h = absurd (cc)

unlock-done :
    (w : World) (db' : Database) (vs : List String) (run : Database × Migrated)
    → unlock w run ≡ (db', done vs)
    → run ≡ (db', done vs)
unlock-done w db' vs (after, result) h = elim (Bool-cases w.unlock_ok) [
  | inl u ↦ rw u at h
  | inr u ↦ absurd (cc (rw u at h))
]

under_lock-done :
    (w : World) (ms : List Migration) (db db' : Database) (vs : List String)
    → under_lock w ms db ≡ (db', done vs)
    → (verify db.applied ms ≡ none) × (apply_all w db.applied ms db ≡ (db', done vs))
unfolding under_lock
under_lock-done w ms db db' vs h = elim (Bool-cases (w.create_ok && w.select_ok)) [
  | inl c ↦ unless_failed-done (verify db.applied ms) db db' _ vs (rw c at h)
  | inr c ↦ absurd (cc (rw c at h))
]

migrate-done :
    (w : World) (ms : List Migration) (db db' : Database) (vs : List String)
    → migrate w ms db ≡ (db', done vs)
    → under_lock w ms db ≡ (db', done vs)
unfolding migrate
migrate-done w ms db db' vs h = elim (Bool-cases w.table_ok) [
  | inr t ↦ absurd (cc (rw t at h))
  | inl t ↦ elim (Bool-cases w.lock_ok) [
    | inr l ↦ absurd (cc (rw (t, l) at h))
    | inl l ↦ unlock-done w db' vs (under_lock w ms db) (rw (t, l) at h)
  ]
]

-- Once a run has gone through, a further run of the same migrations, whose versions are distinct,
-- with a valid table name, whose lock, CREATE TABLE IF NOT EXISTS, SELECT and unlock succeed, goes
-- through, applies none and changes nothing: it runs no statement of a migration, so that none of these
-- can make it fail.
pub migrate_again :
    (w w' : World) (ms : List Migration) (db db' : Database) (vs : List String)
    → All (IsOwn ms) ms
    → w'.table_ok ≡ true
    → w'.lock_ok ≡ true
    → w'.create_ok ≡ true
    → w'.select_ok ≡ true
    → w'.unlock_ok ≡ true
    → migrate w ms db ≡ (db', done vs)
    → migrate w' ms db' ≡ (db', done [])
unfolding migrate
migrate_again w w' ms db db' vs own t l c s u h =
    let (checked, ran) = under_lock-done w ms db db' vs (migrate-done w ms db db' vs h) in
    let went =
      apply_all-Went w ms db.applied ms db db' vs own (verify-All ms db.applied checked) ran in
    let none_left = covered_by db.applied db'.applied ms went.kept went.covered in
    rw (t, l, c, s, All-verify ms db'.applied went.fresh, skips w' db'.applied ms db' none_left, u)
      refl
