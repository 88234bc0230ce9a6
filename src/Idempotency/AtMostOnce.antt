-- ===== src/Idempotency/AtMostOnce.antt =====
-- The handler of a key completes at most once, while the store answers and the lock does not expire.
use nodejs_basics.Prelude.{
  ℕ, ◌≤◌, Bool, true, none, List, [], ◌∷◌, ◌≡◌, refl, sym, subst, arith, All,
}
use nodejs_basics.Idempotency.Protocol.{Request, World, State, step_at, step, run, fresh}
use nodejs_basics.Idempotency.Lock.{holds, HasStatus, Inv, step_at-Inv}

-- An event whose call of the store succeeds.
abbrev pub IsWell : ℕ × World → Type 0
IsWell (i, w) = w.store_ok ≡ true

step-Inv :
    (requests : ℕ → Request) (s : State) (e : ℕ × World)
    → ((j : ℕ) → HasStatus (requests j))
    → IsWell e
    → Inv s
    → Inv (step requests s e)
unfolding step
step-Inv requests s (i, w) hs ok inv =
    subst (λ (b : Bool). Inv (step_at (requests i) i (record w { store_ok = b }) (s.phase i) s))
      (sym ok) (step_at-Inv (requests i) s i w.handler (s.phase i) (hs i) refl inv)

run-Inv :
    (requests : ℕ → Request) (s : State) (es : List (ℕ × World))
    → ((j : ℕ) → HasStatus (requests j))
    → All IsWell es
    → Inv s
    → Inv (run requests s es)
unfolding run
run-Inv requests s [] hs ok inv = inv
run-Inv requests s (e ∷ es) hs ok inv =
    run-Inv requests (step requests s e) es hs ok.1 (step-Inv requests s e hs ok.0 inv)

fresh-Inv : Inv (fresh none)
unfolding fresh
fresh-Inv = record {
  sane = tt;
  held = λ k h. absurd (cc);
  holding = λ k h. absurd (cc);
  on_path = λ k. refl;
  locked = λ h. absurd (h refl);
  executing = λ k h f. refl;
  absent = λ h. refl;
  once = omega arith;
}

-- Of any number of requests with one key, in any interleaving of their steps, at most one handler
-- runs to a result under the lock, provided that the key starts absent, the handlers answer with
-- statuses that the cache accepts, the store answers, and no lock or entry expires meanwhile.
pub at_most_once :
    (requests : ℕ → Request) (es : List (ℕ × World))
    → ((k : ℕ) → HasStatus (requests k))
    → All IsWell es
    → (run requests (fresh none) es).executions ≤ 1
at_most_once requests es hs ok = (run-Inv requests (fresh none) es hs ok fresh-Inv).once

-- Under the same conditions no two requests are past the lock at the same time.
pub one_holder :
    (requests : ℕ → Request) (es : List (ℕ × World)) (i j : ℕ)
    → ((k : ℕ) → HasStatus (requests k))
    → All IsWell es
    → holds ((run requests (fresh none) es).phase i) ≡ true
    → holds ((run requests (fresh none) es).phase j) ≡ true
    → i ≡ j
one_holder requests es i j hs ok hi hj =
    let inv = run-Inv requests (fresh none) es hs ok fresh-Inv in
    ground (arith, inv.held i hi, inv.held j hj)
