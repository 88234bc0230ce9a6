-- ===== src/Tests/Idempotency.antt =====
-- Runs of the idempotency protocol with two requests of one key.
use nodejs_basics.Prelude.{some, ℕ, zero, suc, ◌≤◌, true, none, List, [], ◌∷◌, ◌≡◌, refl}
use nodejs_basics.Idempotency.Protocol
use nodejs_basics.Idempotency.Protocol.{Entry, object, Request, World, returns, fresh}
use nodejs_basics.Idempotency.Replay.{IsHarmless, IsReplay, run-replays}
use nodejs_basics.Idempotency.AtMostOnce.{at_most_once, one_holder}

abbrev request : ℕ → Request
request i = record { fingerprint = "POST /tasks"; status = 201 }

abbrev well : World
well = record { store_ok = true; handler = returns "task" }

-- Both requests read, the first one takes the lock, the second one does not.
abbrev schedule : List (ℕ × World)
schedule = (0, well) ∷ (1, well) ∷ (0, well) ∷ (1, well) ∷ []

at_most_once_example : (Protocol.run request (fresh none) schedule).executions ≤ 1
at_most_once_example = at_most_once request schedule (λ k. refl) (refl, (refl, (refl, (refl, tt))))

one_holder_example : zero ≡ zero
unfolding Protocol.run Protocol.step fresh
one_holder_example =
    one_holder request schedule 0 0 (λ k. refl) (refl, (refl, (refl, (refl, tt)))) refl refl

abbrev answer : Entry
answer = record { status = 201; body = "task"; fingerprint = "POST /tasks" }

-- The first request read the key before the answer was stored; the others have yet to read it.
abbrev late : ℕ → Protocol.Phase
late zero = Protocol.locking
late (suc i) = Protocol.reading

late-IsHarmless : (j : ℕ) → IsHarmless (late j)
late-IsHarmless zero = tt
late-IsHarmless (suc j) = tt

abbrev stored : Protocol.State
stored = record { store = some (object answer); phase = late; executions = 1; holder = none }

run-replays_example :
    let s = Protocol.run request stored schedule in
    (s.executions ≡ 1)
    × (s.store ≡ some (object answer))
    × IsReplay answer (request 1) (late 1) (s.phase 1)
run-replays_example =
    run-replays request answer stored schedule 1 refl refl late-IsHarmless
      (refl, (refl, (refl, (refl, tt))))
