-- ===== src/Worker/Handled.antt =====
-- What the outcome of an event says about it and about its job.
use nodejs_basics.Prelude.{
  ℕ, String, Bool, true, false, Option, none, some, List, [], ◌∷◌, ◌++◌, ◌≡◌, ◌≢◌, subst,
  if◌then◌else◌, refl, arith, any, ◌==◌, ==_iff, ◌===◌, string_key, beq_refl, Bool-cases,
  Option-cases, inl, inr, leb, All, All-append,
}
use nodejs_basics.Worker.{
  Worker, QueueDepth, World, Decoded, not_json, breaks_contract, queue_unavailable, queue_full,
  skipped, enqueued, threw, Phase, idle, reading, sending, ended, enter, is_stale, if_room,
  ensure_queue_room, is_ours, handle, after_send, step_at, step, run, fresh,
}

abbrev pub has_key : String → List String → Bool
has_key id sent = any (λ key. key === id) sent

has_key-snoc : (id : String) (sent : List String) → has_key id (sent ++ id ∷ []) ≡ true
has_key-snoc id [] = rw (beq_refl id) refl
has_key-snoc id (key ∷ sent) = ground (arith, has_key-snoc id sent)

has_key_later :
    (id new : String) (sent : List String)
    → has_key id sent ≡ true
    → has_key id (sent ++ new ∷ []) ≡ true
has_key_later id new [] h = absurd (cc)
has_key_later id new (key ∷ sent) h = elim (Bool-cases (string_key.beq key id)) [
  | inl hit ↦ ground (arith, hit)
  | inr miss ↦ ground (arith, miss, has_key_later id new sent (ground (arith, miss, h)))
]

-- The message is a task.created event that keeps its contract, with this id.
abbrev pub IsTask : Option Decoded → String → Type 0
IsTask message id =
    (d : Decoded) × (message ≡ some d) × (is_ours d.event_type ≡ true) × (d.contract_id ≡ some id)

-- What the phase of a call says of its message, and of the sends that were taken.
abbrev pub IsJustified : (max_waiting : ℕ) → Option Decoded → List String → Phase → Type 0
IsJustified max_waiting message sent idle = Unit
IsJustified max_waiting message sent (reading id now) = IsTask message id
IsJustified max_waiting message sent (sending id) = IsTask message id
IsJustified max_waiting message sent (ended skipped) =
    (d : Decoded) × (message ≡ some d) × (is_ours d.event_type ≡ false)
IsJustified max_waiting message sent (ended enqueued) =
    (id : String) × IsTask message id × (has_key id sent ≡ true)
IsJustified max_waiting message sent (ended (threw not_json)) = message ≡ none
IsJustified max_waiting message sent (ended (threw breaks_contract)) =
    (d : Decoded) × (message ≡ some d) × (is_ours d.event_type ≡ true) × (d.contract_id ≡ none)
IsJustified max_waiting message sent (ended (threw queue_unavailable)) =
    (id : String) × IsTask message id
IsJustified max_waiting message sent (ended (threw (queue_full waiting))) =
    (id : String) × IsTask message id × (leb max_waiting waiting ≡ true)

later-IsJustified :
    (max_waiting : ℕ) (message : Option Decoded) (sent : List String) (new : String) (p : Phase)
    → IsJustified max_waiting message sent p
    → IsJustified max_waiting message (sent ++ new ∷ []) p
later-IsJustified max_waiting message sent new idle h = tt
later-IsJustified max_waiting message sent new (reading id now) h = h
later-IsJustified max_waiting message sent new (sending id) h = h
later-IsJustified max_waiting message sent new (ended skipped) h = h
later-IsJustified max_waiting message sent new (ended enqueued) (id, task, there) =
    (id, task, has_key_later id new sent there)
later-IsJustified max_waiting message sent new (ended (threw not_json)) h = h
later-IsJustified max_waiting message sent new (ended (threw breaks_contract)) h = h
later-IsJustified max_waiting message sent new (ended (threw queue_unavailable)) h = h
later-IsJustified max_waiting message sent new (ended (threw (queue_full waiting))) h = h

if_room-IsJustified :
    (max_waiting : ℕ) (message : Option Decoded) (sent : List String) (o : Option QueueDepth)
    (id : String)
    → IsTask message id
    → IsJustified max_waiting message sent (if_room max_waiting o id)
if_room-IsJustified max_waiting message sent none id task = task
if_room-IsJustified max_waiting message sent (some depth) id task =
    elim (Bool-cases (leb max_waiting depth.waiting)) [
      | inl full ↦ rw full (id, task, full)
      | inr room ↦ rw room task
    ]

handle-IsJustified :
    (max_waiting now : ℕ) (message : Option Decoded) (sent : List String) (o : Option QueueDepth)
    → IsJustified max_waiting message sent (handle max_waiting now o message)
unfolding handle ensure_queue_room
handle-IsJustified max_waiting now none sent o = refl
handle-IsJustified max_waiting now (some d) sent o = elim (Bool-cases (is_ours d.event_type)) [
  | inr other ↦ simp other (d, refl, other)
  | inl ours ↦ elim (Option-cases d.contract_id) [
    | inl broken ↦ simp (ours, broken) (d, refl, ours, broken)
    | inr (id, kept) ↦ elim (Bool-cases (is_stale now o)) [
      | inl stale ↦ simp (ours, kept, stale) (d, refl, ours, kept)
      | inr known ↦
          simp (ours, kept, known)
            (if_room-IsJustified max_waiting (some d) sent o id (d, refl, ours, kept))
    ]
  ]
]

module _ (max_waiting : ℕ) (messages : ℕ → Option Decoded) where
  -- Each send that was taken is one of a call that ended with it.
  abbrev pub IsSent : (ℕ → Phase) → String → Type 0
  IsSent phase id = (i : ℕ) × IsTask (messages i) id × (phase i ≡ ended enqueued)

  record IsFaithful (w : Worker) : Type 0 where
    each : (i : ℕ) → IsJustified max_waiting (messages i) w.sent (w.phase i)
    all_sent : All (IsSent w.phase) w.sent

  keeps-IsSent :
      (i : ℕ) (p : Phase) (phase : ℕ → Phase) (sent : List String)
      → phase i ≢ ended enqueued
      → All (IsSent phase) sent
      → All (IsSent (λ j. if j == i then p else phase j)) sent
  keeps-IsSent i p phase [] live h = tt
  keeps-IsSent i p phase (id ∷ sent) live ((j, task, done), h) = elim (Bool-cases (j == i)) [
    | inl same ↦ absurd (live (subst (λ k. phase k ≡ ended enqueued) ((==_iff j i).0 same) done))
    | inr other ↦ ((j, task, rw other done), keeps-IsSent i p phase sent live h)
  ]

  moves :
      (i : ℕ) (p : Phase) (w : Worker)
      → w.phase i ≢ ended enqueued
      → IsJustified max_waiting (messages i) w.sent p
      → IsFaithful w
      → IsFaithful (enter i p w)
  moves i p w live new h = record {
    each = λ j. elim (Bool-cases (j == i)) [
      | inl b ↦ rw (b, (==_iff j i).0 b) new
      | inr b ↦ rw b (h.each j)
    ];
    all_sent = keeps-IsSent i p w.phase w.sent live h.all_sent;
  }

  sends :
      (i : ℕ) (id : String) (w : Worker)
      → w.phase i ≢ ended enqueued
      → IsTask (messages i) id
      → IsFaithful w
      → IsFaithful (after_send i id true w)
  sends i id w live task h = record {
    each = λ j. elim (Bool-cases (j == i)) [
      | inl b ↦ rw (b, (==_iff j i).0 b) (id, task, has_key-snoc id w.sent)
      | inr b ↦ rw b (later-IsJustified max_waiting (messages j) w.sent id (w.phase j) (h.each j))
    ];
    all_sent =
        All-append (IsSent (λ j. if j == i then ended enqueued else w.phase j)) w.sent (id ∷ [])
          (keeps-IsSent i (ended enqueued) w.phase w.sent live h.all_sent)
          ((i, task, rw ((==_iff i i).1 refl) refl), tt);
  }

  step_from :
      (i : ℕ) (env : World) (w : Worker) (p : Phase)
      → w.phase i ≡ p
      → IsFaithful w
      → IsFaithful (step_at max_waiting (messages i) i env p w)
  step_from i env w idle q h =
      moves i (handle max_waiting env.now w.queue_depth (messages i)) w (λ e. absurd (cc))
        (handle-IsJustified max_waiting env.now (messages i) w.sent w.queue_depth) h
  step_from i env w (reading id now) q h =
      let task : IsTask (messages i) id =
        subst (IsJustified max_waiting (messages i) w.sent) q (h.each i) in
      elim (Option-cases env.waiting) [
        | inl rejected ↦
            rw rejected
              (moves i (ended (threw queue_unavailable)) w (λ e. absurd (cc)) (id, task) h)
        | inr (waiting, read) ↦
            let depth : Option QueueDepth = some (record { waiting = waiting; at = now }) in
            rw read (
              moves i (if_room max_waiting depth id)
                (record { queue_depth = depth; phase = w.phase; sent = w.sent }) (λ e. absurd (cc))
                (if_room-IsJustified max_waiting (messages i) w.sent depth id task)
                (record { each = h.each; all_sent = h.all_sent }))
      ]
  step_from i env w (sending id) q h =
      let task : IsTask (messages i) id =
        subst (IsJustified max_waiting (messages i) w.sent) q (h.each i) in
      elim (Bool-cases env.send_ok) [
        | inl taken ↦ rw taken (sends i id w (λ e. absurd (cc)) task h)
        | inr rejected ↦
            rw rejected
              (moves i (ended (threw queue_unavailable)) w (λ e. absurd (cc)) (id, task) h)
      ]
  step_from i env w (ended outcome) q h = h

  run-IsFaithful :
      (w : Worker) (es : List (ℕ × World))
      → IsFaithful w
      → IsFaithful (run max_waiting messages w es)
  unfolding run step
  run-IsFaithful w [] h = h
  run-IsFaithful w ((i, env) ∷ es) h =
      run-IsFaithful (step max_waiting messages w (i, env)) es
        (step_from i env w (w.phase i) refl h)

  pub run-IsJustified :
      (es : List (ℕ × World)) (i : ℕ)
      → let w = run max_waiting messages fresh es in
        IsJustified max_waiting (messages i) w.sent (w.phase i) × All (IsSent w.phase) w.sent
  unfolding fresh
  run-IsJustified es i =
      let h = run-IsFaithful fresh es (record { each = λ j. tt; all_sent = tt }) in
      (h.each i, h.all_sent)
