-- ===== src/Outbox/Drain.antt =====
-- While Kafka acknowledges and no other relay holds rows, the backlog drains.
use nodejs_basics.Prelude.{
  ℕ, zero, suc, ◌-◌, ◌*◌, ◌≤◌, Bool, true, false, not, none, List, [], ◌∷◌, ◌≡◌, refl, sym, ap, ◌∙◌,
  keep, take, length, arith, ltb, ◌&&◌, if◌then◌else◌, Bool-cases, inl, inr, All, drop, length-drop,
}
use nodejs_basics.Outbox.{
  Row, Relay, Env, select, has_id, delete_rows, bump_all, is_sent, published, relay_batch, sent_of,
  refused_of, poison_of, written, is_outage,
}
use nodejs_basics.Outbox.Table.{Ascends, Ascends-mono}
use nodejs_basics.Outbox.Passes.{relay_batch-Ascends}

-- The rows that a relay has still to publish.
abbrev pub pending : Relay → List Row → List Row
pending r rows = keep (λ row. ltb row.attempts r.max_attempts) rows

-- The transaction goes through, every send is acknowledged, and no row is locked.
pub record IsCalm (env : Env) : Type 0 where
  pub reads : env.reads_ok ≡ true
  pub writes : env.writes_ok ≡ true
  pub acks : (row : Row) → env.send row ≡ none
  pub free : (i : ℕ) → env.locked i ≡ false

keep-cong :
    (p q : Row → Bool) (rows : List Row) → All (λ x. p x ≡ q x) rows → keep p rows ≡ keep q rows
keep-cong p q [] h = refl
keep-cong p q (x ∷ rows) h = ground (arith, h.0, keep-cong p q rows h.1)

keep-all : (p : Row → Bool) (rows : List Row) → ((x : Row) → p x ≡ true) → keep p rows ≡ rows
keep-all p [] h = refl
keep-all p (x ∷ rows) h = ground (arith, h x, keep-all p rows h)

keep-none : (p : Row → Bool) (rows : List Row) → ((x : Row) → p x ≡ false) → keep p rows ≡ []
keep-none p [] h = refl
keep-none p (x ∷ rows) h = ground (arith, h x, keep-none p rows h)

-- Ids above `i` are not `i`.
All-above :
    (i : ℕ) (ids rows : List Row)
    → Ascends (suc i) rows
    → (head : Row) → head.id ≡ i
    → All (λ x. not (has_id ids x.id) ≡ not (has_id (head ∷ ids) x.id)) rows
All-above i ids [] h head e = tt
All-above i ids (x ∷ rows) h head e = (
  ground arith,
  All-above i ids rows (Ascends-mono (suc i) (suc x.id) rows (omega arith) h.1) head e,
)

delete_rows-head :
    (rows ids : List Row) (head : Row)
    → Ascends (suc head.id) rows
    → delete_rows (head ∷ ids) rows ≡ delete_rows ids rows
unfolding delete_rows
delete_rows-head rows ids head h = sym (keep-cong _ _ rows (All-above head.id ids rows h head refl))

delete_rows-nil : (rows : List Row) → delete_rows [] rows ≡ rows
unfolding delete_rows
delete_rows-nil rows = keep-all (λ x. true) rows (λ x. refl)

delete_rows-cons :
    (ids rows : List Row) (x : Row)
    → delete_rows ids (x ∷ rows)
      ≡ (if has_id ids x.id then delete_rows ids rows else x ∷ delete_rows ids rows)
unfolding delete_rows
delete_rows-cons ids rows x = ground arith

-- Deleting the first `n` rows that pass a test leaves the others that pass it.
keep-delete_rows :
    (p : Row → Bool) (n b : ℕ) (rows : List Row)
    → Ascends b rows
    → keep p (delete_rows (take n (keep p rows)) rows) ≡ drop n (keep p rows)
keep-delete_rows p zero b rows asc = rw (delete_rows-nil rows) refl
keep-delete_rows p (suc n) b [] asc = rw (delete_rows-nil []) refl
keep-delete_rows p (suc n) b (x ∷ rows) asc = elim (Bool-cases (p x)) [
  | inl hit ↦ rw hit (
      ground (
        arith,
        delete_rows-cons (x ∷ take n (keep p rows)) rows x,
        delete_rows-head rows (take n (keep p rows)) x asc.1,
        keep-delete_rows p n (suc x.id) rows asc.1,
      ))
  | inr miss ↦ rw miss (
      ground (
        arith,
        delete_rows-cons (take (suc n) (keep p rows)) rows x,
        keep-delete_rows p (suc n) (suc x.id) rows asc.1,
      ))
]

select_calm :
    (r : Relay) (env : Env) (rows : List Row)
    → IsCalm env
    → select r env.locked rows ≡ take r.batch_size (pending r rows)
unfolding select
select_calm r env rows calm = ap (take r.batch_size) (keep-cong _ _ rows (All-free rows))
  where
    All-free :
        (xs : List Row)
        → All
            (λ x.
              (ltb x.attempts r.max_attempts && not (env.locked x.id))
              ≡ ltb x.attempts r.max_attempts)
            xs
    All-free [] = tt
    All-free (x ∷ xs) = (ground (arith, calm.free x.id), All-free xs)

calm_rows :
    (env : Env) (batch : List Row)
    → IsCalm env
    → (sent_of env batch ≡ batch) × (refused_of env batch ≡ []) × (poison_of env batch ≡ [])
unfolding sent_of refused_of poison_of
calm_rows env batch calm =
    let none_refused : keep (λ row. not (is_sent (env.send row))) batch ≡ [] =
      keep-none _ batch (λ x. rw (calm.acks x) refl) in
    (keep-all _ batch (λ x. rw (calm.acks x) refl), none_refused, rw none_refused refl)

-- A calm pass publishes the first `batch_size` pending rows and no other; it goes through, says how
-- many it published, and changes nothing else of what the next one reads.
pub calm_pass :
    (r : Relay) (env : Env) (b : ℕ) (rows : List Row)
    → Ascends b rows
    → IsCalm env
    → let (r', rows', pass) = relay_batch r env rows in
      (pending r rows' ≡ drop r.batch_size (pending r rows))
      × (pass ≡ published (length (take r.batch_size (pending r rows))))
      × (r' ≡ record r { partial = false })
unfolding relay_batch written is_outage bump_all
calm_pass r env b rows asc calm =
    let batch = select r env.locked rows in
    let (s, f, p) = calm_rows env batch calm in
    let chosen = select_calm r env rows calm in
    let gone = keep-delete_rows (λ row. ltb row.attempts r.max_attempts) r.batch_size b rows asc in
    ground (arith, s, f, p, chosen, gone, calm.reads, calm.writes)

-- `n` passes in a row, each in its own environment.
pub passes : Relay → List Env → List Row → List Row
passes r [] rows = rows
passes r (env ∷ envs) rows = let (r', rows', pass) = relay_batch r env rows in passes r' envs rows'

passes_pending :
    (r : Relay) (envs : List Env) (b : ℕ) (rows : List Row)
    → Ascends b rows
    → All IsCalm envs
    → length (pending r (passes r envs rows)) ≡ length (pending r rows) - length envs * r.batch_size
unfolding passes
passes_pending r [] b rows asc calm = omega arith
passes_pending r (env ∷ envs) b rows asc calm =
    let (gone, _, same) = calm_pass r env b rows asc calm.0 in
    let rows' = (relay_batch r env rows).1 in
    let rest =
      passes_pending (record r { partial = false }) envs b rows'
        (relay_batch-Ascends r env b rows asc) calm.1 in
    let fewer : length (pending r rows') ≡ length (pending r rows) - r.batch_size =
      rw gone (length-drop r.batch_size (pending r rows)) in
    rw same (rest ∙ omega (arith, fewer))

-- The backlog drains: in a table whose ids ascend, once as many calm passes (all reads, writes and
-- sends succeed and no row is locked) as can hold the pending rows have run, no row is pending.
pub backlog_drains :
    (r : Relay) (envs : List Env) (b : ℕ) (rows : List Row)
    → Ascends b rows
    → All IsCalm envs
    → length (pending r rows) ≤ length envs * r.batch_size
    → length (pending r (passes r envs rows)) ≡ 0
backlog_drains r envs b rows asc calm enough = omega (arith, passes_pending r envs b rows asc calm)
