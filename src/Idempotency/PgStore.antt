-- ===== src/Idempotency/PgStore.antt =====
-- packages/idempotency/src/pg-idempotency.store.ts: `PgIdempotencyStore`. The table maps a key to its
-- row; `now()` is the time of the statement, in seconds. Which expired rows an insert prunes is
-- PostgreSQL's choice, given with the call.
pub mod Live
use nodejs_basics.Prelude.{
  ℕ, ◌+◌, String, Bool, true, false, not, Option, none, some, ◌&&◌, leb, ltb, ◌===◌, string_key,
  if◌then◌else◌,
}

pub record Row : Type 0 where
  pub value : String
  pub expires_at : ℕ

abbrev pub Table : Type 0
Table = String → Option Row

-- `WHERE expires_at > now()`
abbrev pub live : ℕ → Option Row → Option String
live now none = none
live now (some row) = if ltb now row.expires_at then some row.value else none

unfoldable pub get : Table → (key : String) → (now : ℕ) → Option String
get table key now = live now (table key)

unfoldable pub set : Table → (key value : String) → (ttl now : ℕ) → Table
set table key value ttl now k =
    if k === key then some (record { value = value; expires_at = now + ttl }) else table k

-- `WITH pruned AS (DELETE …)`: rows that have expired, of other keys.
abbrev pub kept : Bool → ℕ → Option Row → Option Row
kept picked now none = none
kept picked now (some row) = if picked && leb row.expires_at now then none else some row

unfoldable pub prune : (String → Bool) → Table → (key : String) → (now : ℕ) → Table
prune picked table key now k = kept (picked k && not (k === key)) now (table k)

abbrev pub is_live : ℕ → Option Row → Bool
is_live now none = false
is_live now (some row) = ltb now row.expires_at

-- `setNx`: the table, and whether a row was inserted or replaced.
unfoldable pub set_nx :
    (String → Bool) → Table → (key value : String) → (ttl now : ℕ) → Table × Bool
unfolding prune set
set_nx picked table key value ttl now =
    let pruned = prune picked table key now in
    if is_live now (table key) then (pruned, false) else (set pruned key value ttl now, true)

unfoldable pub del : Table → (key : String) → Table
del table key k = if k === key then none else table k
