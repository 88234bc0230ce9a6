-- ===== src/Client/Attempts/Ends.antt =====
-- The attempts of a call always end with an answer, for a reason, and give back every slot.
use nodejs_basics.Prelude.{
  ℕ, zero, suc, ◌+◌, ◌-◌, ◌≤◌, ◌<◌, true, false, Option, none, some, List, [], ◌≡◌, ◌⊎◌, inl, inr,
  refl, ap, ◌∙◌, ◌==◌, ==_iff, arith, Bool-cases,
}
use nodejs_basics.Client.Attempts.{
  Settings, Attempt, Effect, Answer, Ended, answer, again, one_attempt, then_rest, attempts_from,
  execute_with_retry,
}
use nodejs_basics.Client.Attempts.Outcomes.{
  is_acquired, is_given_back, is_sent, is_retried, total, total-append, is_transient, last_answer,
  round_lem,
}

module _ (c : Settings) where
  -- How a call ends whose rounds go from `first` to `first + left`.
  record EndsFrom (world : ℕ → Attempt) (left first : ℕ) (r : List Effect × Option Answer)
      : Type 0 where
    last : ℕ
    from : first ≤ last
    within : last ≤ first + left
    answered : r.1 ≡ some (last_answer c (world last))
    before : (i : ℕ) → first ≤ i → i < last → is_transient c (world i) ≡ true
    settled : (last ≡ first + left) ⊎ (is_transient c (world last) ≡ false)
    balanced : total is_acquired r.0 ≡ total is_given_back r.0
    sends : total is_sent r.0 ≤ suc last - first
    retries : total is_retried r.0 + first ≡ last

  finishes :
      (world : ℕ → Attempt) (left first : ℕ) (effects : List Effect)
      (rest : List Effect × Option Answer) (a : Answer)
      → a ≡ last_answer c (world first)
      → (left ≡ 0) ⊎ (is_transient c (world first) ≡ false)
      → total is_acquired effects ≡ total is_given_back effects
      → total is_sent effects ≤ 1
      → total is_retried effects ≡ 0
      → EndsFrom world left first (then_rest c (effects, answer a) rest)
  finishes world left first effects rest a q e b s r = record {
    last = first;
    from = omega arith;
    within = omega arith;
    answered = ap some q;
    before = λ i l h. absurd (omega arith);
    settled = ground arith;
    balanced = b;
    sends = omega arith;
    retries = omega arith;
  }

  goes_on :
      (world : ℕ → Attempt) (left first : ℕ) (effects : List Effect)
      (rest : List Effect × Option Answer)
      → is_transient c (world first) ≡ true
      → total is_acquired effects ≡ total is_given_back effects
      → total is_sent effects ≤ 1
      → total is_retried effects ≡ 1
      → EndsFrom world left (first + 1) rest
      → EndsFrom world (suc left) first (then_rest c (effects, again) rest)
  goes_on world left first effects rest t b s r e = record {
    last = e.last;
    from = omega (arith, e.from);
    within = omega (arith, e.within);
    answered = e.answered;
    before = λ i l h. elim (Bool-cases (i == first)) [
      | inl same ↦ rw ((==_iff i first).0 same) t
      | inr later ↦ e.before i (ground (arith, later)) h
    ];
    settled = ground (arith, e.settled);
    balanced = omega (
      arith,
      e.balanced,
      total-append is_acquired effects rest.0,
      total-append is_given_back effects rest.0,
    );
    sends = omega (arith, e.sends, e.from, total-append is_sent effects rest.0);
    retries = omega (arith, e.retries, total-append is_retried effects rest.0);
  }

  stops :
      (world : ℕ → Attempt) (left first : ℕ) (r : List Effect × Ended)
      (rest : List Effect × Option Answer)
      → r.1 ≡ answer (last_answer c (world first))
      → (left ≡ 0) ⊎ (is_transient c (world first) ≡ false)
      → total is_acquired r.0 ≡ total is_given_back r.0
      → total is_sent r.0 ≤ 1
      → total is_retried r.0 ≡ 0
      → EndsFrom world left first (then_rest c r rest)
  stops world left first (effects, answer a) rest q = finishes world left first effects rest a (cc)
  stops world left first (effects, again) rest q = absurd (cc)

  continues :
      (world : ℕ → Attempt) (left first : ℕ) (r : List Effect × Ended)
      (rest : List Effect × Option Answer)
      → r.1 ≡ again
      → is_transient c (world first) ≡ true
      → total is_acquired r.0 ≡ total is_given_back r.0
      → total is_sent r.0 ≤ 1
      → total is_retried r.0 ≡ 1
      → EndsFrom world left (first + 1) rest
      → EndsFrom world (suc left) first (then_rest c r rest)
  continues world left first (effects, answer a) rest q = absurd (cc)
  continues world left first (effects, again) rest q = goes_on world left first effects rest

  attempts_from-EndsFrom :
      (world : ℕ → Attempt) (left first : ℕ)
      → EndsFrom world left first (attempts_from c world left first)
  unfolding attempts_from
  attempts_from-EndsFrom world zero first =
      let (ended, balanced, sends, retries) = round_lem c false (world first) in
      stops world 0 first (one_attempt c false (world first)) ([], none) ended (inl refl) balanced
        (ground (arith, sends)) retries
  attempts_from-EndsFrom world (suc left) first =
      let (ended, balanced, sends, retries) = round_lem c true (world first) in
      let rest = attempts_from c world left (first + 1) in
      elim (Bool-cases (is_transient c (world first))) [
        | inl t ↦
            continues world left first (one_attempt c true (world first)) rest (ended ∙ rw t refl) t
              balanced (ground (arith, sends)) (retries ∙ rw t refl)
              (attempts_from-EndsFrom world left (first + 1))
        | inr t ↦
            stops world (suc left) first (one_attempt c true (world first)) rest (ended ∙ rw t refl)
              (inr t) balanced (ground (arith, sends)) (retries ∙ rw t refl)
      ]

-- However the attempts of a call go, it ends with an answer: that of its last attempt, which is the
-- last one allowed or met nothing worth a retry, while each one before it did. It sends at most one
-- request per attempt and never more than `maxRetries` + 1, counts as many retries as attempts came
-- before the last, and gives every slot of the limiter that it took back, once.
pub execute_with_retry_ends :
    (c : Settings) (world : ℕ → Attempt)
    → let (effects, ended) = execute_with_retry c world in
      (last : ℕ) × (last ≤ c.max_retries)
      × (ended ≡ some (last_answer c (world last)))
      × ((i : ℕ) → i < last → is_transient c (world i) ≡ true)
      × ((last ≡ c.max_retries) ⊎ (is_transient c (world last) ≡ false))
      × (total is_acquired effects ≡ total is_given_back effects)
      × (total is_sent effects ≤ last + 1)
      × (total is_retried effects ≡ last)
unfolding execute_with_retry
execute_with_retry_ends c world =
    let e = attempts_from-EndsFrom c world c.max_retries 0 in
    (
      e.last,
      omega (arith, e.within),
      e.answered,
      λ i h. e.before i (omega arith) h,
      ground (arith, e.settled),
      e.balanced,
      omega (arith, e.sends),
      omega (arith, e.retries),
    )
