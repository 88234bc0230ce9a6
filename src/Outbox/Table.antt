-- ===== src/Outbox/Table.antt =====
-- The outbox table as rows in ascending order of their ids: finding a row through the statements.
use nodejs_basics.Prelude.{
  ℕ, zero, suc, ◌+◌, ◌≤◌, ◌<◌, Bool, true, false, Option, none, some, List, [], ◌∷◌, ◌≡◌, refl,
  keep, take, arith, ◌==◌, if◌then◌else◌,
}
use nodejs_basics.Outbox.{Row, Refusal, message_of, has_id, bump, bump_all}

unfoldable pub find : ℕ → List Row → Option Row
find i [] = none
find i (row ∷ rows) = if row.id == i then some row else find i rows

-- Ids ascend strictly, from `b` on.
abbrev pub Ascends : ℕ → List Row → Type 0
Ascends b [] = Unit {0}
Ascends b (row ∷ rows) = (b ≤ row.id) × Ascends (suc row.id) rows

pub Ascends-mono : (a b : ℕ) (rows : List Row) → a ≤ b → Ascends b rows → Ascends a rows
Ascends-mono a b [] l h = tt
Ascends-mono a b (row ∷ rows) l h = (omega arith, h.1)

find_below : (i b : ℕ) (rows : List Row) → Ascends b rows → i < b → find i rows ≡ none
unfolding find
find_below i b [] h l = refl
find_below i b (row ∷ rows) h l = ground (arith, find_below i (suc row.id) rows h.1)

abbrev pub only : (Row → Bool) → Option Row → Option Row
only p none = none
only p (some row) = if p row then some row else none

pub only-some :
    (p : Row → Bool) (o : Option Row) (row : Row)
    → only p o ≡ some row
    → (o ≡ some row) × (p row ≡ true)
only-some p none row h = absurd (cc)
only-some p (some x) row h = ground arith

pub find-keep :
    (p : Row → Bool) (i b : ℕ) (rows : List Row)
    → Ascends b rows
    → find i (keep p rows) ≡ only p (find i rows)
unfolding find
find-keep p i b [] h = refl
find-keep p i b (row ∷ rows) h =
    ground (arith, find-keep p i (suc row.id) rows h.1, find_below i (suc row.id) rows h.1)

pub keep-Ascends :
    (p : Row → Bool) (b : ℕ) (rows : List Row) → Ascends b rows → Ascends b (keep p rows)
keep-Ascends p b [] h = tt
keep-Ascends p b (row ∷ rows) h = ground (
  arith,
  keep-Ascends p (suc row.id) rows h.1,
  Ascends-mono b (suc row.id) (keep p rows) (omega arith),
)

pub take-Ascends : (n b : ℕ) (rows : List Row) → Ascends b rows → Ascends b (take n rows)
take-Ascends zero b rows h = tt
take-Ascends (suc n) b [] h = tt
take-Ascends (suc n) b (row ∷ rows) h = (h.0, take-Ascends n (suc row.id) rows h.1)

-- A row that is found among the first is the row that is found.
pub find-take :
    (n i : ℕ) (rows : List Row) (row : Row)
    → find i (take n rows) ≡ some row
    → find i rows ≡ some row
unfolding find
find-take zero i rows row h = absurd (cc)
find-take (suc n) i [] row h = absurd (cc)
find-take (suc n) i (x ∷ rows) row h = ground (arith, find-take n i rows row)

pub find-id : (i : ℕ) (rows : List Row) (row : Row) → find i rows ≡ some row → row.id ≡ i
unfolding find
find-id i [] row h = absurd (cc)
find-id i (x ∷ rows) row h = ground (arith, find-id i rows row)

abbrev pub is_some {ℓ} : {A : Type ℓ} → Option A → Bool
is_some none = false
is_some (some _) = true

pub has_id-find : (i : ℕ) (rows : List Row) → has_id rows i ≡ is_some (find i rows)
unfolding find
has_id-find i [] = refl
has_id-find i (row ∷ rows) = ground (arith, has_id-find i rows)

-- The row as a poison pass leaves it.
abbrev pub bumped : List ℕ → Row → Row
bumped message row = record row { attempts = row.attempts + 1; last_error = some message }

abbrev pub map_row : (Row → Row) → Option Row → Option Row
map_row f none = none
map_row f (some row) = some (f row)

find-bump :
    (i j : ℕ) (message : List ℕ) (rows : List Row)
    → find i (bump j message rows)
      ≡ (if i == j then map_row (bumped message) (find i rows) else find i rows)
unfolding find bump
find-bump i j message [] = ground arith
find-bump i j message (row ∷ rows) = ground (arith, find-bump i j message rows)

pub bump-Ascends :
    (j b : ℕ) (message : List ℕ) (rows : List Row)
    → Ascends b rows
    → Ascends b (bump j message rows)
unfolding bump
bump-Ascends j b message [] h = tt
bump-Ascends j b message (row ∷ rows) h =
    ground (arith, bump-Ascends j (suc row.id) message rows h.1)

module _ (send : Row → Option Refusal) where
  abbrev pub poisoned : Option Row → Option Row → Option Row
  poisoned none o = o
  poisoned (some row) o = map_row (bumped (message_of (send row))) o

  pub find-bump_all :
      (i b : ℕ) (poison rows : List Row)
      → Ascends b poison
      → find i (bump_all send poison rows) ≡ poisoned (find i poison) (find i rows)
  unfolding find bump_all
  find-bump_all i b [] rows h = refl
  find-bump_all i b (row ∷ poison) rows h = ground (
    arith,
    find-bump_all i (suc row.id) poison (bump row.id (message_of (send row)) rows) h.1,
    find-bump i row.id (message_of (send row)) rows,
    find_below i (suc row.id) poison h.1,
  )

  pub bump_all-Ascends :
      (b : ℕ) (poison rows : List Row) → Ascends b rows → Ascends b (bump_all send poison rows)
  unfolding bump_all
  bump_all-Ascends b [] rows h = h
  bump_all-Ascends b (row ∷ poison) rows h =
      bump_all-Ascends b poison _ (bump-Ascends row.id b (message_of (send row)) rows h)
