-- ===== src/Idempotency/Replay.antt =====
-- A key with a stored answer is answered from it, and no handler runs.
use nodejs_basics.Prelude.{
  ℕ, true, Option, none, some, List, [], ◌∷◌, ◌≡◌, ◌⊎◌, inl, inr, refl, All, ◌==◌, ==_iff, ◌===◌,
  string_key, if◌then◌else◌, Bool-cases,
}
use nodejs_basics.Idempotency.Protocol.{
  Entry, object, is_cached_entry, Request, Phase, reading, evicting, locking, running, unguarded,
  storing, releasing, replayed, in_flight, other_request, answered, threw, State, World, enter,
  Stored, after_get, after_set_nx, step_at, step, run,
}
use nodejs_basics.Idempotency.AtMostOnce.{IsWell}

-- What the stored answer is for a request: its own, or the refusal of another request's key.
abbrev pub answer_of : Entry → Request → Phase
answer_of e q = if e.fingerprint === q.fingerprint then replayed e else other_request

-- A request that is answered is done with, and one that waits for its SET NX will find the key taken.
abbrev pub IsHarmless : Phase → Type 0
IsHarmless reading = Unit
IsHarmless locking = Unit
IsHarmless (replayed e) = Unit
IsHarmless in_flight = Unit
IsHarmless other_request = Unit
IsHarmless (answered body) = Unit
IsHarmless threw = Unit
IsHarmless evicting = ⊥
IsHarmless running = ⊥
IsHarmless unguarded = ⊥
IsHarmless (storing body) = ⊥
IsHarmless releasing = ⊥

-- What a request comes to from where it stood when the answer was there.
abbrev pub IsReplay : Entry → Request → (before after : Phase) → Type 0
IsReplay e q reading after = (after ≡ reading) ⊎ (after ≡ answer_of e q)
IsReplay e q locking after = (after ≡ locking) ⊎ (after ≡ in_flight)
IsReplay e q before after = after ≡ before

record IsSettled (requests : ℕ → Request) (e : Entry) (start s : State) : Type 0 where
  kept : s.store ≡ some (object e)
  none_ran : s.executions ≡ start.executions
  answers : (i : ℕ) → IsReplay e (requests i) (start.phase i) (s.phase i)

moves :
    (requests : ℕ → Request) (e : Entry) (start s : State) (i : ℕ) (p : Phase)
    → IsReplay e (requests i) (start.phase i) p
    → IsSettled requests e start s
    → IsSettled requests e start (enter i p s)
moves requests e start s i p new h = record {
  kept = h.kept;
  none_ran = h.none_ran;
  answers = λ j. elim (Bool-cases (j == i)) [
    | inl b ↦ rw (b, (==_iff j i).0 b) new
    | inr b ↦ rw b (h.answers j)
  ];
}

stays_answered :
    (requests : ℕ → Request) (e : Entry) (q : Request) (s : State) (i : ℕ) (w : World)
    → step_at (requests i) i w (answer_of e q) s ≡ s
stays_answered requests e q s i w = elim (Bool-cases (e.fingerprint === q.fingerprint)) [
  | inl b ↦ rw b refl
  | inr b ↦ rw b refl
]

set_nx_taken :
    (i : ℕ) (v : Stored) (o : Option Stored) (s : State)
    → o ≡ some v
    → after_set_nx i o s ≡ enter i in_flight s
set_nx_taken i v none s q = absurd (cc)
set_nx_taken i v (some u) s q = refl

-- The step of a request, by where it stood at the start.
step_from :
    (requests : ℕ → Request) (e : Entry) (start s : State) (i : ℕ) (w : World) (before : Phase)
    → is_cached_entry e ≡ true
    → w.store_ok ≡ true
    → start.phase i ≡ before
    → IsHarmless before
    → IsReplay e (requests i) before (s.phase i)
    → IsSettled requests e start s
    → IsSettled requests e start (step_at (requests i) i w (s.phase i) s)
step_from requests e start s i w reading ok well at safe (inl r) h =
    rw (r, well)
      (moves requests e start s i (after_get (requests i) s.store)
        (rw at (inr (rw (h.kept, ok) refl))) h)
step_from requests e start s i w reading ok well at safe (inr a) h =
    rw (a, stays_answered requests e (requests i) s i w) h
step_from requests e start s i w locking ok well at safe (inl r) h =
    rw (r, well, set_nx_taken i (object e) s.store s h.kept)
      (moves requests e start s i in_flight (rw at (inr refl)) h)
step_from requests e start s i w locking ok well at safe (inr a) h = rw a h
step_from requests e start s i w (replayed f) ok well at safe a h = rw a h
step_from requests e start s i w in_flight ok well at safe a h = rw a h
step_from requests e start s i w other_request ok well at safe a h = rw a h
step_from requests e start s i w (answered body) ok well at safe a h = rw a h
step_from requests e start s i w threw ok well at safe a h = rw a h
step_from requests e start s i w evicting ok well at safe a h = absurd safe
step_from requests e start s i w running ok well at safe a h = absurd safe
step_from requests e start s i w unguarded ok well at safe a h = absurd safe
step_from requests e start s i w (storing body) ok well at safe a h = absurd safe
step_from requests e start s i w releasing ok well at safe a h = absurd safe

run-IsSettled :
    (requests : ℕ → Request) (e : Entry) (start s : State) (es : List (ℕ × World))
    → is_cached_entry e ≡ true
    → ((j : ℕ) → IsHarmless (start.phase j))
    → All IsWell es
    → IsSettled requests e start s
    → IsSettled requests e start (run requests s es)
unfolding run step
run-IsSettled requests e start s [] ok safe well h = h
run-IsSettled requests e start s ((i, w) ∷ es) ok safe well h =
    run-IsSettled requests e start (step requests s (i, w)) es ok safe well.1
      (step_from requests e start s i w (start.phase i) ok well.0 refl (safe i) (h.answers i) h)

starts : (e : Entry) (q : Request) (p : Phase) → IsReplay e q p p
starts e q reading = inl refl
starts e q locking = inl refl
starts e q evicting = refl
starts e q running = refl
starts e q unguarded = refl
starts e q (storing body) = refl
starts e q releasing = refl
starts e q (replayed f) = refl
starts e q in_flight = refl
starts e q other_request = refl
starts e q (answered body) = refl
starts e q threw = refl

-- From any state in which an answer with an HTTP status is stored for the key, and no request runs its
-- handler, is to store or to release, or is to evict a text that it read before: while the store
-- answers and the answer has not expired, however the steps of any number of requests come, no handler
-- runs and the answer stays stored. A request that has yet to read gets it if it is the same
-- request, and the conflict of another request's key if not; one that read before the answer was
-- stored, and waits to take the lock, gets the conflict of a request in flight; and one with its answer
-- keeps it.
pub run-replays :
    (requests : ℕ → Request) (e : Entry) (s : State) (es : List (ℕ × World)) (i : ℕ)
    → is_cached_entry e ≡ true
    → s.store ≡ some (object e)
    → ((j : ℕ) → IsHarmless (s.phase j))
    → All IsWell es
    → let t = run requests s es in
      (t.executions ≡ s.executions)
      × (t.store ≡ some (object e))
      × IsReplay e (requests i) (s.phase i) (t.phase i)
run-replays requests e s es i ok stored safe well =
    let h = run-IsSettled requests e s s es ok safe well (record {
      kept = stored;
      none_ran = refl;
      answers = λ j. starts e (requests j) (s.phase j);
    }) in
    (h.none_ran, h.kept, h.answers i)
