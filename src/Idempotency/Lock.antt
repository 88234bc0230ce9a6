-- ===== src/Idempotency/Lock.antt =====
-- The lock of a key: what holds of every state while the store answers, by the phases of `execute`.
use nodejs_basics.Prelude.{
  ℕ, ◌+◌, ◌≤◌, String, Bool, true, false, Option, none, some, ◌≡◌, ◌≢◌, inl, inr, refl, subst,
  arith, Bool-cases,
}
use nodejs_basics.Idempotency.Protocol.{
  Stored, processing, object, garbage, is_cached_entry, Request, Phase, reading, evicting, locking,
  running, unguarded, storing, releasing, replayed, in_flight, other_request, answered, threw,
  State, Handler, returns, throws, enter, after_get, after_set_nx, after_handler, entry_of, step_at,
}

abbrev pub holds : Phase → Bool
holds running = true
holds (storing _) = true
holds releasing = true
holds _ = false

-- Not met while the store is well: phases of a failing store and of an entry to evict.
abbrev pub is_astray : Phase → Bool
is_astray evicting = true
is_astray unguarded = true
is_astray _ = false

abbrev pub is_storing : Phase → Bool
is_storing (storing _) = true
is_storing _ = false

abbrev pub IsSane : Option Stored → Type 0
IsSane none = Unit
IsSane (some processing) = Unit
IsSane (some garbage) = ⊥
IsSane (some (object e)) = is_cached_entry e ≡ true

-- The requests' statuses are HTTP statuses.
abbrev pub HasStatus : Request → Type 0
HasStatus q = is_cached_entry (entry_of q "") ≡ true

-- Only the holder is past the lock; while one holds it the store has the sentinel; and a completed
-- handler has its entry stored, or is about to store it, or has left the sentinel behind.
pub record Inv (s : State) : Type 0 where
  pub sane : IsSane s.store
  pub held : (i : ℕ) → holds (s.phase i) ≡ true → s.holder ≡ some i
  pub holding : (i : ℕ) → s.holder ≡ some i → holds (s.phase i) ≡ true
  pub on_path : (i : ℕ) → is_astray (s.phase i) ≡ false
  pub locked : s.holder ≢ none → s.store ≡ some processing
  pub executing : (i : ℕ) → s.holder ≡ some i → is_storing (s.phase i) ≡ false → s.executions ≡ 0
  pub absent : s.store ≡ none → s.executions ≡ 0
  pub once : s.executions ≤ 1

-- A request that holds no lock goes on to a phase that holds none.
quiet :
    (s : State) (i : ℕ) (p : Phase)
    → Inv s
    → holds p ≡ false
    → is_astray p ≡ false
    → holds (s.phase i) ≡ false
    → Inv (enter i p s)
quiet s i p inv h a n = record {
  sane = inv.sane;
  held = λ j e. ground (arith, inv.held j);
  holding = λ j e. ground (arith, inv.holding j);
  on_path = λ j. ground (arith, inv.on_path j);
  locked = inv.locked;
  executing = λ j e f. ground (arith, inv.executing j, inv.holding j);
  absent = inv.absent;
  once = inv.once;
}

-- Nobody holds the lock of a key that is absent.
free : (s : State) → Inv s → s.store ≡ none → (j : ℕ) → holds (s.phase j) ≡ false
free s inv e j = elim (Bool-cases (holds (s.phase j))) [
  | inl h ↦
      let held = inv.held j h in
      let z : s.store ≡ some processing = inv.locked (λ n. cc (n, held)) in absurd (cc (z, e))
  | inr h ↦ h
]

-- The lock is taken.
taken :
    (s : State) (i : ℕ)
    → Inv s
    → s.store ≡ none
    → Inv (enter i running (record s { store = some processing; holder = some i }))
taken s i inv e = record {
  sane = tt;
  held = λ j h. ground (arith, free s inv e j);
  holding = λ j h. ground arith;
  on_path = λ j. ground (arith, inv.on_path j);
  locked = λ h. refl;
  executing = λ j h f. inv.absent e;
  absent = λ h. absurd (cc);
  once = inv.once;
}

-- The holder's handler completes: it is the first to.
completed :
    (s : State) (i : ℕ) (body : String)
    → Inv s
    → s.phase i ≡ running
    → Inv (enter i (storing body) (record s { executions = s.executions + 1 }))
completed s i body inv e =
    let mine : s.holder ≡ some i = inv.held i (rw e refl) in
    let first : s.executions ≡ 0 = inv.executing i mine (rw e refl) in
    let here : s.store ≡ some processing = inv.locked (λ n. cc (n, mine)) in
    record {
      sane = inv.sane;
      held = λ j h. ground (arith, inv.held j);
      holding = λ j h. ground (arith, inv.holding j);
      on_path = λ j. ground (arith, inv.on_path j);
      locked = inv.locked;
      executing = λ j h f. ground (arith, mine);
      absent = λ h. absurd (cc (h, here));
      once = omega arith;
    }

failed_handler : (s : State) (i : ℕ) → Inv s → s.phase i ≡ running → Inv (enter i releasing s)
failed_handler s i inv e =
    let mine : s.holder ≡ some i = inv.held i (rw e refl) in
    let first : s.executions ≡ 0 = inv.executing i mine (rw e refl) in
    record {
      sane = inv.sane;
      held = λ j h. ground (arith, inv.held j);
      holding = λ j h. ground (arith, inv.holding j);
      on_path = λ j. ground (arith, inv.on_path j);
      locked = inv.locked;
      executing = λ j h f. first;
      absent = inv.absent;
      once = inv.once;
    }

-- The lock is given back, for an entry or for nothing.
given_back :
    (s : State) (i : ℕ) (p : Phase) (stored : Option Stored)
    → Inv s
    → s.holder ≡ some i
    → holds p ≡ false
    → is_astray p ≡ false
    → IsSane stored
    → (stored ≡ none → s.executions ≡ 0)
    → Inv (enter i p (record s { store = stored; holder = none }))
given_back s i p stored inv mine h a ok z = record {
  sane = ok;
  held = λ j k. ground (arith, inv.held j, mine);
  holding = λ j k. absurd (cc);
  on_path = λ j. ground (arith, inv.on_path j);
  locked = λ k. absurd (k refl);
  executing = λ j k f. absurd (cc);
  absent = z;
  once = inv.once;
}

read_ok :
    (q : Request) (s : State) (i : ℕ) (o : Option Stored)
    → s.store ≡ o
    → Inv s
    → (holds (after_get q o) ≡ false) × (is_astray (after_get q o) ≡ false)
read_ok q s i none e inv = (refl, refl)
read_ok q s i (some processing) e inv = (refl, refl)
read_ok q s i (some garbage) e inv = absurd (subst IsSane e inv.sane)
read_ok q s i (some (object x)) e inv =
    let good : is_cached_entry x ≡ true = subst IsSane e inv.sane in ground (arith, good)

lock_ok :
    (s : State) (i : ℕ) (o : Option Stored)
    → s.store ≡ o
    → s.phase i ≡ locking
    → Inv s
    → Inv (after_set_nx i o s)
lock_ok s i none e p inv = taken s i inv e
lock_ok s i (some v) e p inv = quiet s i in_flight inv refl refl (rw p refl)

handled :
    (s : State) (i : ℕ) (h : Handler) → s.phase i ≡ running → Inv s → Inv (after_handler i h s)
handled s i (returns body) p inv = completed s i body inv p
handled s i throws p inv = failed_handler s i inv p

-- By the phase of the request, with the store's call done.
pub step_at-Inv :
    (q : Request) (s : State) (i : ℕ) (h : Handler) (p : Phase)
    → HasStatus q
    → s.phase i ≡ p
    → Inv s
    → Inv (step_at q i (record { store_ok = true; handler = h }) p s)
step_at-Inv q s i h reading hs e inv =
    let (n, a) = read_ok q s i s.store refl inv in
    quiet s i (after_get q s.store) inv n a (rw e refl)
step_at-Inv q s i h evicting hs e inv = absurd (
    let z : is_astray evicting ≡ false = subst (λ x. is_astray x ≡ false) e (inv.on_path i) in cc z)
step_at-Inv q s i h locking hs e inv = lock_ok s i s.store refl e inv
step_at-Inv q s i h running hs e inv = handled s i h e inv
step_at-Inv q s i h unguarded hs e inv = absurd (
    let z : is_astray unguarded ≡ false = subst (λ x. is_astray x ≡ false) e (inv.on_path i) in
    cc z)
step_at-Inv q s i h (storing body) hs e inv =
    given_back s i (answered body) (some (object (entry_of q body))) inv (inv.held i (rw e refl))
      refl refl hs (λ k. absurd (cc))
step_at-Inv q s i h releasing hs e inv =
    let mine : s.holder ≡ some i = inv.held i (rw e refl) in
    given_back s i threw none inv mine refl refl tt (λ k. inv.executing i mine (rw e refl))
step_at-Inv q s i h (replayed x) hs e inv = inv
step_at-Inv q s i h in_flight hs e inv = inv
step_at-Inv q s i h other_request hs e inv = inv
step_at-Inv q s i h (answered body) hs e inv = inv
step_at-Inv q s i h threw hs e inv = inv
