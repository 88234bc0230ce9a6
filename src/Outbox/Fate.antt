-- ===== src/Outbox/Fate.antt =====
-- What a relay pass does to each row of the table.
use nodejs_basics.Prelude.{
  ℕ, ◌<◌, Bool, false, not, Option, none, some, List, ◌≡◌, refl, sym, ap, ◌∙◌, arith, ltb, ◌&&◌,
  if◌then◌else◌, Option-cases, inl, inr,
}
use nodejs_basics.Outbox.{
  Row, Refusal, Relay, Env, select, is_sent, is_poison, message_of, has_id, delete_rows, sent_of,
  refused_of, poison_of, written, published, failed, relay_batch,
}
use nodejs_basics.Outbox.Table.{
  find, Ascends, find-keep, keep-Ascends, take-Ascends, find-take, find-id, is_some, has_id-find,
  bumped, only, only-some, poisoned, find-bump_all,
}

-- A row that was sent is gone if it was acknowledged, as it was if it may go out later, and counted
-- against if it was refused for good.
abbrev pub after_send : Row → Option Refusal → Option Row
after_send row none = none
after_send row (some f) =
    if f.error.retryable then some row else some (bumped (message_of (some f)) row)

abbrev pub fate : Env → (selected : Bool) → Option Row → Option Row
fate env selected none = none
fate env selected (some row) = if selected then after_send row (env.send row) else some row

module _ (env : Env) (b : ℕ) (batch rows : List Row) (asc : Ascends b rows)
    (asc' : Ascends b batch) where
  find-poison :
      (i : ℕ)
      → find i (poison_of env batch)
        ≡ only
            (λ row. is_poison (env.send row))
            (only (λ row. not (is_sent (env.send row))) (find i batch))
  unfolding poison_of refused_of
  find-poison i =
      find-keep _ i b _ (keep-Ascends _ b batch asc')
      ∙ ap (only (λ row. is_poison (env.send row))) (find-keep _ i b batch asc')

  find-sent :
      (i : ℕ) → find i (sent_of env batch) ≡ only (λ row. is_sent (env.send row)) (find i batch)
  unfolding sent_of
  find-sent i = find-keep _ i b batch asc'

  find-delete :
      (i : ℕ)
      → find i (delete_rows (sent_of env batch) rows)
        ≡ only (λ row. not (has_id (sent_of env batch) row.id)) (find i rows)
  unfolding delete_rows
  find-delete i = find-keep _ i b rows asc

  find-written :
      (i : ℕ)
      → find i (written env batch rows)
        ≡ poisoned env.send
            (find i (poison_of env batch))
            (find i (delete_rows (sent_of env batch) rows))
  unfolding written
  find-written i =
      find-bump_all env.send i b (poison_of env batch) _
        (unfold poison_of refused_of in keep-Ascends _ b _ (keep-Ascends _ b batch asc'))

  -- The rows that were sent and acknowledged are those of the batch.
  kept :
      (i : ℕ) (row : Row)
      → find i rows ≡ some row
      → has_id (sent_of env batch) row.id ≡ is_some (find i (sent_of env batch))
  kept i row f = rw (find-id i rows row f) (has_id-find i (sent_of env batch))

  find-written-none : (i : ℕ) → find i batch ≡ none → find i (written env batch rows) ≡ find i rows
  find-written-none i e = elim (Option-cases (find i rows)) [
    | inl f ↦ ground (arith, find-written i, find-poison i, find-delete i, find-sent i)
    | inr (row, f) ↦
        ground (arith, find-written i, find-poison i, find-delete i, find-sent i, kept i row f)
  ]

  find-written-some :
      (i : ℕ) (row : Row)
      → find i batch ≡ some row
      → find i rows ≡ some row
      → find i (written env batch rows) ≡ after_send row (env.send row)
  find-written-some i row e f =
      ground (arith, find-written i, find-poison i, find-delete i, find-sent i, kept i row f)

pub selected-find :
    (r : Relay) (env : Env) (b i : ℕ) (rows : List Row) (row : Row)
    → Ascends b rows
    → find i (select r env.locked rows) ≡ some row
    → (find i rows ≡ some row) × (row.attempts < r.max_attempts) × (env.locked row.id ≡ false)
unfolding select
selected-find r env b i rows row asc e =
    let f = find-take r.batch_size i _ row e in
    let g = find-keep (λ x. ltb x.attempts r.max_attempts && not (env.locked x.id)) i b rows asc in
    let (found, open_row) = only-some _ (find i rows) row (sym g ∙ f) in
    (found, ground arith, ground arith)

select-Ascends :
    (r : Relay) (locked : ℕ → Bool) (b : ℕ) (rows : List Row)
    → Ascends b rows
    → Ascends b (select r locked rows)
unfolding select
select-Ascends r locked b rows asc = take-Ascends r.batch_size b _ (keep-Ascends _ b rows asc)

relay_batch-rows :
    (r : Relay) (env : Env) (n : ℕ) (rows : List Row)
    → (relay_batch r env rows).2 ≡ published n
    → (relay_batch r env rows).1 ≡ written env (select r env.locked rows) rows
unfolding relay_batch
relay_batch-rows r env n rows h = ground arith

fate-out : (env : Env) (o : Option Row) → o ≡ fate env false o
fate-out env none = refl
fate-out env (some row) = refl

-- In a table whose ids ascend, after a pass that went through, a row that was not in the batch is
-- as it was; a row of the batch is gone if Kafka acknowledged it, as it was if its refusal is
-- retryable, and otherwise has one attempt more and the text of the error.
pub find-relay_batch :
    (r : Relay) (env : Env) (b i n : ℕ) (rows : List Row)
    → Ascends b rows
    → (relay_batch r env rows).2 ≡ published n
    → find i (relay_batch r env rows).1
      ≡ fate env (has_id (select r env.locked rows) i) (find i rows)
find-relay_batch r env b i n rows asc h =
    let batch = select r env.locked rows in
    let asc' = select-Ascends r env.locked b rows asc in
    elim (Option-cases (find i batch)) [
      | inl out ↦
          rw
            (
              relay_batch-rows r env n rows h,
              find-written-none env b batch rows asc asc' i out,
              has_id-find i batch,
              out,
            )
            (fate-out env (find i rows))
      | inr (row, e) ↦
          let (f, _, _) = selected-find r env b i rows row asc e in
          rw
            (
              relay_batch-rows r env n rows h,
              find-written-some env b batch rows asc asc' i row e f,
              has_id-find i batch,
              e,
              f,
            )
            refl
    ]

-- A pass that fails leaves the table as it was.
pub relay_batch_failed :
    (r : Relay) (env : Env) (rows : List Row)
    → (relay_batch r env rows).2 ≡ failed
    → relay_batch r env rows ≡ (r, rows, failed)
unfolding relay_batch
relay_batch_failed r env rows h = ground arith
