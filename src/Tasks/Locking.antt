-- ===== src/Tasks/Locking.antt =====
-- Optimistic locking: of all the writes that expect one version of a task, one goes through.
use nodejs_basics.Prelude.{
  ℕ, ◌+◌, ◌≤◌, ◌<◌, String, Option, none, some, List, [], ◌∷◌, ◌≡◌, ◌⊎◌, inl, inr, refl, arith,
  ◌===◌, ◌==◌, string_key, if◌then◌else◌, eq_iff, ◌&&◌,
}
use nodejs_basics.Tasks.{
  Task, Database, Answer, returned, World, UpdateTaskInput, update_task, archive_task, create,
  update, archive,
}

-- The calls of the use cases, one after another.
pub data Call : Type 0 where
  creates : (id title : String) (description : Option String) → Call
  updates : (id : String) (expected : ℕ) → UpdateTaskInput → Call
  archives : (id : String) (expected : ℕ) → Call

unfoldable pub after : World → Call → Database → Database
after w (creates id title description) db = (create w id title description db).0
after w (updates id expected patch) db = (update w id expected patch db).0
after w (archives id expected) db = (archive w id expected db).0

abbrev is_returned : Answer Task → ℕ
is_returned (returned t) = 1
is_returned _ = 0

-- 1 for a write to `id` that expects version `v` and is told to have gone through.
unfoldable pub wins : String → ℕ → World → Call → Database → ℕ
wins id v w (creates _ _ _) db = 0
wins id v w (updates i expected patch) db =
    if (i === id) && (expected == v) then is_returned (update w i expected patch db).1 else 0
wins id v w (archives i expected) db =
    if (i === id) && (expected == v) then is_returned (archive w i expected db).1 else 0

unfoldable pub all_wins : String → ℕ → List (World × Call) → Database → ℕ
all_wins id v [] db = 0
all_wins id v ((w, call) ∷ calls) db = wins id v w call db + all_wins id v calls (after w call db)

-- A task is found under its own id.
abbrev pub IsKeyed : Database → Type 0
IsKeyed db = (id : String) (t : Task) → db.tasks id ≡ some t → t.id ≡ id

-- The version of `id` is past `v`.
abbrev IsPast : ℕ → Option Task → Type 0
IsPast v none = ⊥
IsPast v (some t) = v < t.version

step-IsKeyed : (w : World) (call : Call) (db : Database) → IsKeyed db → IsKeyed (after w call db)
unfolding after create update archive update_task archive_task
step-IsKeyed w (creates i title description) db h id t e = ground (arith, h id t, eq_iff id i)
step-IsKeyed w (updates i expected patch) db h id t e = grind (arith, h, eq_iff id i)
step-IsKeyed w (archives i expected) db h id t e = grind (arith, h, eq_iff id i)

step-IsPast :
    (id : String) (v : ℕ) (w : World) (call : Call) (db : Database)
    → IsKeyed db
    → IsPast v (db.tasks id)
    → (wins id v w call db ≡ 0) × IsPast v ((after w call db).tasks id)
unfolding after wins create update archive update_task archive_task
step-IsPast id v w (creates i title description) db k h =
    ground (arith, k id, eq_iff id i, eq_iff i id)
step-IsPast id v w (updates i expected patch) db k h = grind (arith, k, eq_iff id i, eq_iff i id)
step-IsPast id v w (archives i expected) db k h = grind (arith, k, eq_iff id i, eq_iff i id)

step_win :
    (id : String) (v : ℕ) (w : World) (call : Call) (db : Database)
    → IsKeyed db
    → (wins id v w call db ≡ 0)
      ⊎ ((wins id v w call db ≡ 1) × IsPast v ((after w call db).tasks id))
unfolding after wins create update archive update_task archive_task
step_win id v w (creates i title description) db k = inl refl
step_win id v w (updates i expected patch) db k = grind (arith, k, eq_iff i id)
step_win id v w (archives i expected) db k = grind (arith, k, eq_iff i id)

all_wins_past :
    (id : String) (v : ℕ) (calls : List (World × Call)) (db : Database)
    → IsKeyed db
    → IsPast v (db.tasks id)
    → all_wins id v calls db ≡ 0
unfolding all_wins
all_wins_past id v [] db k h = refl
all_wins_past id v ((w, call) ∷ calls) db k h =
    let (z, past) = step-IsPast id v w call db k h in
    omega (arith, z, all_wins_past id v calls (after w call db) (step-IsKeyed w call db k) past)

-- No update is lost: from a database that keeps each task under its own id, of any sequence of
-- calls, failing ones and archivings included, at most one write to a task that expects a given
-- version is told to have gone through.
pub no_lost_update :
    (id : String) (v : ℕ) (calls : List (World × Call)) (db : Database)
    → IsKeyed db
    → all_wins id v calls db ≤ 1
unfolding all_wins
no_lost_update id v [] db k = omega arith
no_lost_update id v ((w, call) ∷ calls) db k =
    let k' = step-IsKeyed w call db k in
    elim (step_win id v w call db k) [
      | inl z ↦ omega (arith, z, no_lost_update id v calls (after w call db) k')
      | inr (one, past) ↦ omega (arith, one, all_wins_past id v calls (after w call db) k' past)
    ]
