-- ===== src/Outbox/Passes.antt =====
-- Relay passes one after the other: bounded attempts, outages, and a backlog that drains.
use nodejs_basics.Prelude.{
  ℕ, ◌≤◌, ◌<◌, Bool, true, false, not, some, List, [], ◌∷◌, ◌≡◌, ◌≢◌, ◌⊎◌, refl, sym, ◌∙◌, arith,
  Option-cases, inl, inr,
}
use nodejs_basics.Outbox.{
  Row, Refusal, Relay, Env, select, has_id, delete_rows, Pass, published, failed, relay_batch,
  sent_of, refused_of, poison_of, written, is_outage,
}
use nodejs_basics.Outbox.Table.{find, Ascends, keep-Ascends, bump_all-Ascends, has_id-find}
use nodejs_basics.Outbox.Fate.{fate, find-relay_batch, selected-find, relay_batch_failed}

-- No row has been counted against more often than `max_attempts`.
abbrev pub IsCapped : Relay → List Row → Type 0
IsCapped r rows = (i : ℕ) (row : Row) → find i rows ≡ some row → row.attempts ≤ r.max_attempts

pub relay_batch-Ascends :
    (r : Relay) (env : Env) (b : ℕ) (rows : List Row)
    → Ascends b rows
    → Ascends b (relay_batch r env rows).1
unfolding relay_batch written delete_rows
relay_batch-Ascends r env b rows asc = ground (
  arith,
  bump_all-Ascends env.send b (poison_of env (select r env.locked rows)) _ (
      keep-Ascends (λ row. not (has_id (sent_of env (select r env.locked rows)) row.id)) b rows
        asc),
)

selected-attempts :
    (r : Relay) (env : Env) (b i : ℕ) (rows : List Row) (row : Row)
    → Ascends b rows
    → find i rows ≡ some row
    → has_id (select r env.locked rows) i ≡ true
    → row.attempts < r.max_attempts
selected-attempts r env b i rows row asc f h =
    elim (Option-cases (find i (select r env.locked rows))) [
      | inl e ↦ absurd (ground (arith, has_id-find i (select r env.locked rows)))
      | inr (x, e) ↦ let (g, l, _) = selected-find r env b i rows x asc e in ground (arith, g, l)
    ]

fate-capped :
    (env : Env) (m : ℕ) (chosen : Bool) (x row : Row)
    → fate env chosen (some x) ≡ some row
    → x.attempts ≤ m
    → (chosen ≡ true → x.attempts < m)
    → row.attempts ≤ m
fate-capped env m false x row h l c = ground arith
fate-capped env m true x row h l c = ground (arith, c refl)

Pass-cases : (p : Pass) → ((n : ℕ) × (p ≡ published n)) ⊎ (p ≡ failed)
Pass-cases (published n) = inl (n, refl)
Pass-cases failed = inr refl

relay_batch-IsCapped' :
    (r : Relay) (env : Env) (b n : ℕ) (rows : List Row)
    → Ascends b rows
    → IsCapped r rows
    → (relay_batch r env rows).2 ≡ published n
    → IsCapped r (relay_batch r env rows).1
relay_batch-IsCapped' r env b n rows asc cap h i row e =
    let fated = sym (find-relay_batch r env b i n rows asc h) ∙ e in
    elim (Option-cases (find i rows)) [
      | inl z ↦ absurd (cc (fated, z))
      | inr (x, f) ↦
          fate-capped env r.max_attempts (has_id (select r env.locked rows) i) x row (rw f at fated)
            (cap i x f) (selected-attempts r env b i rows x asc f)
    ]

-- Poison rows are left alone after `max_attempts` refusals: a pass over a table whose ids ascend
-- keeps that order, and keeps every attempt count at `max_attempts` or below if it was.
pub relay_batch-IsCapped :
    (r : Relay) (env : Env) (b : ℕ) (rows : List Row)
    → Ascends b rows
    → IsCapped r rows
    → Ascends b (relay_batch r env rows).1 × IsCapped r (relay_batch r env rows).1
relay_batch-IsCapped r env b rows asc cap = (
  relay_batch-Ascends r env b rows asc,
  elim (Pass-cases (relay_batch r env rows).2) [
    | inl (n, h) ↦ relay_batch-IsCapped' r env b n rows asc cap h
    | inr h ↦ rw (relay_batch_failed r env rows h) cap
  ],
)

-- Every send is refused in a retryable way.
abbrev pub RefusesAll : Env → Type 0
RefusesAll env = (row : Row) → (f : Refusal) × (env.send row ≡ some f) × (f.error.retryable ≡ true)

outage_rows :
    (env : Env) (batch : List Row)
    → RefusesAll env
    → (sent_of env batch ≡ []) × (poison_of env batch ≡ []) × (refused_of env batch ≡ batch)
unfolding sent_of poison_of refused_of
outage_rows env [] h = (refl, refl, refl)
outage_rows env (row ∷ batch) h =
    let (f, e, k) = h row in let (s, p, q) = outage_rows env batch h in ground (arith, s, p, q)

is_outage_of_refused :
    (env : Env) (batch : List Row) → RefusesAll env → batch ≢ [] → is_outage env batch ≡ true
unfolding is_outage
is_outage_of_refused env batch h z = ground (arith, outage_rows env batch h)

-- In an outage, when there are rows to send and every send is refused in a retryable way, nothing
-- changes: no attempt is counted, however long it lasts.
pub outage_counts_nothing :
    (r : Relay) (env : Env) (rows : List Row)
    → select r env.locked rows ≢ []
    → RefusesAll env
    → relay_batch r env rows ≡ (r, rows, failed)
unfolding relay_batch
outage_counts_nothing r env rows some_rows refused =
    ground (arith, is_outage_of_refused env (select r env.locked rows) refused some_rows)
