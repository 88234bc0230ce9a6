-- ===== src/Migrate/Loading.antt =====
-- The migrations that are loaded have distinct versions.
use nodejs_basics.Prelude.{
  String, Bool, true, none, some, List, [], ◌∷◌, ◌++◌, ◌≡◌, inl, inr, refl, arith, ◌===◌,
  string_key, All, All-append, if◌then◌else◌, Option-cases, Bool-cases, eq_refl, subst,
}
use nodejs_basics.Migrate.{
  Migration, File, loaded, has_version, migration_of, load_from, load_migrations, find_migration,
}
use nodejs_basics.Migrate.Again.{IsOwn}

find_migration-append :
    (version : String) (ms : List Migration) (m : Migration)
    → find_migration version (ms ++ m ∷ []) ≡ (
        if has_version version ms
        then find_migration version ms
        else if m.version === version
        then some m
        else none)
unfolding find_migration
find_migration-append version [] m = refl
find_migration-append version (x ∷ ms) m = ground (arith, find_migration-append version ms m)

find_migration-some :
    (version : String) (ms : List Migration) (m : Migration)
    → find_migration version ms ≡ some m
    → has_version version ms ≡ true
unfolding find_migration
find_migration-some version [] m h = absurd (cc)
find_migration-some version (x ∷ ms) m h = ground (arith, find_migration-some version ms m)

append-IsOwn : (ms : List Migration) (m x : Migration) → IsOwn ms x → IsOwn (ms ++ m ∷ []) x
append-IsOwn ms m x h =
    ground (arith, find_migration-append x.version ms m, find_migration-some x.version ms x h)

All-append-IsOwn :
    (ms : List Migration) (m : Migration) (xs : List Migration)
    → All (IsOwn ms) xs
    → All (IsOwn (ms ++ m ∷ [])) xs
All-append-IsOwn ms m [] h = tt
All-append-IsOwn ms m (x ∷ xs) h = (append-IsOwn ms m x h.0, All-append-IsOwn ms m xs h.1)

loaded-injective : {xs ys : List Migration} → loaded xs ≡ loaded ys → xs ≡ ys
loaded-injective h = cc

module _ (sha256 : String → String) (no_transaction : String → Bool) where
  load_from-IsOwn :
      (files : List File) (before ms : List Migration)
      → All (IsOwn before) before
      → load_from sha256 no_transaction files before ≡ loaded ms
      → All (IsOwn ms) ms
  unfolding load_from
  load_from-IsOwn [] before ms own h = subst (λ l. All (IsOwn l) l) (loaded-injective h) own
  load_from-IsOwn (f ∷ files) before ms own h = elim (Option-cases f.matched) [
    | inl e ↦ absurd (cc (rw e at h))
    | inr ((version, name), e) ↦
        let m = migration_of sha256 no_transaction version name f.sql in
        elim (Bool-cases (has_version version before)) [
          | inl seen ↦ absurd (cc (rw (e, seen) at h))
          | inr new ↦
              load_from-IsOwn files (before ++ m ∷ []) ms
                (All-append (IsOwn (before ++ m ∷ [])) before (m ∷ [])
                  (All-append-IsOwn before m before own)
                  (ground (arith, find_migration-append version before m, eq_refl version), tt))
                (rw (e, new) at h)
        ]
  ]

-- Each migration of a directory that loads is the one that its version finds: no two share a
-- version, whatever the digest and the marker of a file are.
pub load_migrations-IsOwn :
    (sha256 : String → String) (no_transaction : String → Bool) (files : List File)
    (ms : List Migration)
    → load_migrations sha256 no_transaction files ≡ loaded ms
    → All (IsOwn ms) ms
unfolding load_migrations
load_migrations-IsOwn sha256 no_transaction files ms h =
    load_from-IsOwn sha256 no_transaction files [] ms tt h
