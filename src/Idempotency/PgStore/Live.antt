-- ===== src/Idempotency/PgStore/Live.antt =====
-- What the store promises of the live keys, whatever it prunes.
use nodejs_basics.Prelude.{
  ℕ, ◌+◌, ◌≤◌, String, Bool, true, false, not, Option, none, some, ◌≡◌, ◌↔◌, refl, arith, ◌&&◌, ltb,
  ◌===◌, string_key, if◌then◌else◌,
}
use nodejs_basics.Idempotency.PgStore.{Row, Table, live, get, set, kept, is_live, set_nx, del}

-- A live row's value: until `expires`.
abbrev pub until : ℕ → ℕ → String → Option String
until expires later value = if ltb later expires then some value else none

live-kept :
    (b : Bool) (now later : ℕ) (o : Option Row)
    → now ≤ later
    → live later (kept b now o) ≡ live later o
live-kept b now later none h = refl
live-kept b now later (some row) h = ground arith

live_iff : (now : ℕ) (o : Option Row) → (is_live now o ≡ false) ↔ (live now o ≡ none)
live_iff now none = (λ h. refl, λ h. refl)
live_iff now (some row) = ground arith

-- `setNx` succeeds exactly if the key has no live row. From then on, if it does, the key reads as
-- the value until its time to live has passed; every other key, and the key itself if it fails,
-- reads as it would have, whatever was pruned.
pub get-set_nx :
    (picked : String → Bool) (table : Table) (key value k : String) (ttl now later : ℕ)
    → now ≤ later
    → let (table', taken) = set_nx picked table key value ttl now in
      ((taken ≡ true) ↔ (get table key now ≡ none))
      × (get table' k later
          ≡ (if taken && (k === key) then until (now + ttl) later value else get table k later))
unfolding set_nx get
get-set_nx picked table key value k ttl now later h = (
  ground (arith, live_iff now (table key)),
  ground (arith, live-kept (picked k && not (k === key)) now later (table k) h),
)

-- `set` makes the key read as the value until its time to live has passed, `del` makes it absent,
-- and neither changes another key.
pub get-set-del :
    (table : Table) (key value k : String) (ttl now later : ℕ)
    → (get (set table key value ttl now) k later
        ≡ (if k === key then until (now + ttl) later value else get table k later))
      × (get (del table key) k later ≡ (if k === key then none else get table k later))
unfolding get set del
get-set-del table key value k ttl now later = (ground arith, ground arith)
