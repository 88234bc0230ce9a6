-- ===== src/Idempotency/Protocol.antt =====
-- packages/idempotency/src/idempotency.interceptor.ts: `execute`, for all the requests that share
-- one storage key. A request is cut at its awaits, so that others come between; each step is one
-- call of the store or the handler. A stored text is what the code reads of it: the sentinel, an
-- object with a status, a body and a fingerprint, or anything else. Bodies and fingerprints are
-- opaque texts. `null` bodies count as a body.
use nodejs_basics.Prelude.{
  ℕ, ◌+◌, String, Bool, Option, none, some, List, [], ◌∷◌, ◌&&◌, leb, ltb, ◌==◌, ◌===◌, string_key,
  if◌then◌else◌,
}

pub record Entry : Type 0 where
  pub status : ℕ
  pub body : String
  pub fingerprint : String

pub data Stored : Type 0 where
  processing : Stored
  object : Entry → Stored
  garbage : Stored

-- `isCachedEntry` on what was parsed.
abbrev pub is_cached_entry : Entry → Bool
is_cached_entry e = leb 100 e.status && ltb e.status 600

-- What a request is: its fingerprint and the status that its handler answers with.
pub record Request : Type 0 where
  pub fingerprint : String
  pub status : ℕ

-- Where a request stands. `unguarded` runs the handler without the lock (the store is down);
-- `storing` and `releasing` hold the lock until the call of the store that is awaited.
pub data Phase : Type 0 where
  reading evicting locking running unguarded : Phase
  storing : (body : String) → Phase
  releasing : Phase
  replayed : Entry → Phase
  in_flight other_request : Phase  -- the two 409 answers
  answered : (body : String) → Phase
  threw : Phase  -- the handler's error

-- `executions` counts the handlers that ran to a result under the lock. `holder` is the request
-- that took the lock and has not given it back; the code keeps no such field.
pub record State : Type 0 where
  pub store : Option Stored
  pub phase : ℕ → Phase
  pub executions : ℕ
  pub holder : Option ℕ

-- What the world does at a step: the store's call succeeds or fails, and the handler's outcome.
pub data Handler : Type 0 where
  returns : (body : String) → Handler
  throws : Handler

pub record World : Type 0 where
  pub store_ok : Bool
  pub handler : Handler

abbrev pub enter : ℕ → Phase → State → State
enter i p s = record s { phase = λ j. if j == i then p else s.phase j }

-- Step 1: what was read from the store.
abbrev pub after_get : Request → Option Stored → Phase
after_get q none = locking
after_get q (some processing) = in_flight
after_get q (some garbage) = evicting
after_get q (some (object e)) =
    if is_cached_entry e
    then if e.fingerprint === q.fingerprint then replayed e else other_request
    else evicting

-- Step 2: SET NX of the sentinel.
abbrev pub after_set_nx : ℕ → Option Stored → State → State
after_set_nx i none s = enter i running (record s { store = some processing; holder = some i })
after_set_nx i (some v) s = enter i in_flight s

-- Step 3, under the lock.
abbrev pub after_handler : ℕ → Handler → State → State
after_handler i (returns body) s =
    enter i (storing body) (record s { executions = s.executions + 1 })
after_handler i throws s = enter i releasing s

abbrev pub after_unguarded : ℕ → Handler → State → State
after_unguarded i (returns body) s = enter i (answered body) s
after_unguarded i throws s = enter i threw s

abbrev pub entry_of : Request → String → Entry
entry_of q body = record { status = q.status; body = body; fingerprint = q.fingerprint }

abbrev pub step_at : Request → ℕ → World → Phase → State → State
step_at q i w reading s =
    if w.store_ok then enter i (after_get q s.store) s else enter i unguarded s
step_at q i w evicting s = enter i locking (if w.store_ok then record s { store = none } else s)
step_at q i w locking s = if w.store_ok then after_set_nx i s.store s else enter i unguarded s
step_at q i w running s = after_handler i w.handler s
step_at q i w unguarded s = after_unguarded i w.handler s
step_at q i w (storing body) s =
    let given_back = record s { holder = none } in
    enter i (answered body) (
      if w.store_ok
      then record given_back { store = some (object (entry_of q body)) }
      else given_back)
step_at q i w releasing s =
    let given_back = record s { holder = none } in
    enter i threw (if w.store_ok then record given_back { store = none } else given_back)
step_at q i w _ s = s

-- The next step of request `i`; `requests` gives what each request is.
unfoldable pub step : (ℕ → Request) → State → ℕ × World → State
step requests s (i, w) = step_at (requests i) i w (s.phase i) s

unfoldable pub run : (ℕ → Request) → State → List (ℕ × World) → State
run requests s [] = s
run requests s (e ∷ es) = run requests (step requests s e) es

unfoldable pub fresh : Option Stored → State
fresh stored = record { store = stored; phase = λ i. reading; executions = 0; holder = none }
