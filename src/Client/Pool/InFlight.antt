-- ===== src/Client/Pool/InFlight.antt =====
-- The count of the calls in flight and the labels of the metrics, whatever happens.
use nodejs_basics.Prelude.{
  ℕ, zero, suc, ◌-◌, ◌≤◌, String, Bool, true, Option, none, some, List, [], ◌∷◌, ◌≡◌, inl, inr,
  refl, sym, subst, arith, All, All-append, any, length, ◌===◌, string_key, Bool-cases,
  Option-cases, ◌||◌, lookup,
}
use nodejs_basics.Prelude.Texts.{Text}
use nodejs_basics.Client.Errors.{shutting_down_error}
use nodejs_basics.Client.Selector.{matches_selector}
use nodejs_basics.Client.Pool.{
  Target, Pool, World, Call, Event, sends, ends, shuts_down, closes, refused, Ending, send,
  send_ended, step, run, nth_call, without_nth, after_send, after_end, standard_methods,
  method_label, resolve_target, resolve_in, send_to, recorded,
}

abbrev pub is_target : List Target → String → Bool
is_target targets name = any (λ t. t.name === name) targets

abbrev pub is_method_label : String → Bool
is_method_label label = any (λ m. m === label) standard_methods || (label === "_OTHER")

-- The calls under way are counted, and every label of a metric is one of a fixed set.
record IsSound (targets : List Target) (w : World) : Type 0 where
  selectors : w.pool.selectors ≡ targets
  counted : w.pool.in_flight ≡ length w.calls
  aimed : All (λ c. is_target targets c.target ≡ true) w.calls
  labelled :
      All
        (λ r. (is_target targets r.target ≡ true) × (is_method_label r.method ≡ true))
        w.pool.metrics

resolve_in-is_target :
    (clients : List (String × Text)) (targets : List Target) (url : Text) (name : String)
    (client : Text)
    → resolve_in clients targets url ≡ some (name, client)
    → is_target targets name ≡ true
unfolding resolve_in
resolve_in-is_target clients [] url name client q = absurd (cc)
resolve_in-is_target clients (t ∷ targets) url name client q =
    let rest = resolve_in-is_target clients targets url name client in
    elim (Bool-cases (matches_selector url t.selector)) [
      | inr miss ↦ ground (arith, rest (rw miss at q))
      | inl hit ↦ elim (Option-cases (lookup t.name clients)) [
        | inl gone ↦ ground (arith, rest (rw (hit, gone) at q))
        | inr (found, there) ↦
            let same = rw (hit, there) at q in
            let own : t.name ≡ name = cc in
            let here = (string_key.beq_iff t.name name).1 own in ground (arith, here)
      ]
    ]

method_label-is_label : (raw : String) → is_method_label (method_label raw) ≡ true
method_label-is_label raw = elim (Bool-cases (any (λ m. m === raw) standard_methods)) [
  | inl known ↦ rw known (rw known refl)
  | inr other ↦ rw other refl
]

nth_call-aimed :
    (targets : List Target) (n : ℕ) (calls : List Call) (call : Call)
    → All (λ c. is_target targets c.target ≡ true) calls
    → nth_call n calls ≡ some call
    → (is_target targets call.target ≡ true)
      × All (λ c. is_target targets c.target ≡ true) (without_nth n calls)
      × (length (without_nth n calls) ≡ length calls - 1)
      × (1 ≤ length calls)
nth_call-aimed targets n [] call h q = absurd (cc)
nth_call-aimed targets zero (c ∷ calls) call h q =
    let same : c ≡ call = cc in (rw (sym same) h.0, h.1, omega arith, omega arith)
nth_call-aimed targets (suc n) (c ∷ calls) call h q =
    let (own, rest, shorter, some_left) = nth_call-aimed targets n calls call h.1 q in
    (own, (h.0, rest), omega (arith, shorter, some_left), omega arith)

length-without_nth : (n : ℕ) (calls : List Call) → length (without_nth n calls) ≤ length calls
length-without_nth n [] = omega arith
length-without_nth zero (c ∷ calls) = omega arith
length-without_nth (suc n) (c ∷ calls) = omega (arith, length-without_nth n calls)

send_to-IsSound :
    (targets : List Target) (url : Text) (o : Option (String × Text)) (path : Option Text)
    (method : Option String) (w : World)
    → resolve_target w.pool url ≡ o
    → IsSound targets w
    → IsSound targets (after_send w.calls (send_to o path method w.pool))
unfolding resolve_target
send_to-IsSound targets url none path method w q s = s
send_to-IsSound targets url (some target) none method w q s = s
send_to-IsSound targets url (some (name, client)) (some path) method w q s = record {
  selectors = s.selectors;
  counted = omega (arith, s.counted);
  aimed = (
    subst (λ ts. is_target ts name ≡ true) s.selectors
        (resolve_in-is_target w.pool.clients w.pool.selectors url name client q),
    s.aimed,
  );
  labelled = s.labelled;
}

after_end-IsSound :
    (targets : List Target) (o : Option Call) (nth : ℕ) (ending : Ending) (duration_ms : ℕ)
    (w : World)
    → nth_call nth w.calls ≡ o
    → IsSound targets w
    → IsSound targets (after_end o nth ending duration_ms w)
unfolding send_ended recorded after_end
after_end-IsSound targets none nth ending duration_ms w q s = s
after_end-IsSound targets (some call) nth ending duration_ms w q s =
    let (own, rest, shorter, some_left) = nth_call-aimed targets nth w.calls call s.aimed q in
    record {
      selectors = s.selectors;
      counted = omega (arith, s.counted, shorter);
      aimed = rest;
      labelled =
          All-append (λ r. (is_target targets r.target ≡ true) × (is_method_label r.method ≡ true))
            w.pool.metrics _ s.labelled ((own, method_label-is_label call.method), tt);
    }

module _ (path_of_url : Text → Option Text) (targets : List Target) where
  step-IsSound :
      (e : Event) (w : World) → IsSound targets w → IsSound targets (step path_of_url e w)
  unfolding step send
  step-IsSound (sends url method) w s = elim (Bool-cases w.pool.shutting_down) [
    | inl down ↦ simp down s
    | inr up ↦
        simp up (
          send_to-IsSound targets url (resolve_target w.pool url) (path_of_url url) method w refl s)
  ]
  step-IsSound (ends nth ending duration_ms) w s =
      after_end-IsSound targets (nth_call nth w.calls) nth ending duration_ms w refl s
  step-IsSound shuts_down w s = record {
    selectors = s.selectors;
    counted = s.counted;
    aimed = s.aimed;
    labelled = s.labelled;
  }
  step-IsSound closes w s = elim (Bool-cases w.pool.shutting_down) [
    | inl down ↦ simp down record {
      selectors = s.selectors;
      counted = s.counted;
      aimed = s.aimed;
      labelled = s.labelled;
    }
    | inr up ↦ simp up s
  ]

  run-IsSound :
      (es : List Event) (w : World) → IsSound targets w → IsSound targets (run path_of_url es w)
  unfolding run
  run-IsSound [] w s = s
  run-IsSound (e ∷ es) w s = run-IsSound es (step path_of_url e w) (step-IsSound e w s)

  -- A pool that is going down stays so, and starts no call.
  IsDraining : (calls : ℕ) → World → Type 0
  IsDraining calls w = (w.pool.shutting_down ≡ true) × (length w.calls ≤ calls)

  after_end-IsDraining :
      (calls nth : ℕ) (o : Option Call) (ending : Ending) (duration_ms : ℕ) (w : World)
      → nth_call nth w.calls ≡ o
      → IsDraining calls w
      → IsDraining calls (after_end o nth ending duration_ms w)
  unfolding IsDraining send_ended after_end recorded
  after_end-IsDraining calls nth none ending duration_ms w q d = d
  after_end-IsDraining calls nth (some call) ending duration_ms w q (down, few) =
      (down, omega (arith, few, length-without_nth nth w.calls))

  send_refuses :
      (url : Text) (method : Option String) (p : Pool)
      → p.shutting_down ≡ true
      → send path_of_url url method p ≡ (refused shutting_down_error, p)
  unfolding send
  send_refuses url method p down = simp down refl

  step-IsDraining :
      (calls : ℕ) (e : Event) (w : World)
      → IsDraining calls w
      → IsDraining calls (step path_of_url e w)
  unfolding step IsDraining
  step-IsDraining calls (sends url method) w (down, few) =
      rw (send_refuses url method w.pool down) (down, few)
  step-IsDraining calls (ends nth ending duration_ms) w d =
      after_end-IsDraining calls nth (nth_call nth w.calls) ending duration_ms w refl d
  step-IsDraining calls shuts_down w (down, few) = (refl, few)
  step-IsDraining calls closes w (down, few) = simp down (refl, few)

  run-IsDraining :
      (calls : ℕ) (es : List Event) (w : World)
      → IsDraining calls w
      → IsDraining calls (run path_of_url es w)
  unfolding run
  run-IsDraining calls [] w d = d
  run-IsDraining calls (e ∷ es) w d =
      run-IsDraining calls es (step path_of_url e w) (step-IsDraining calls e w d)

  -- Whatever calls a new pool is given, and however they end: the count of the calls in flight is that
  -- of the calls that have not ended, also where a call is refused or its URL is invalid; every metric
  -- is under the name of a configured target and under a standard method or `_OTHER`. Once the
  -- shutdown has begun, that stays so, no call is started any more, and every call is refused with
  -- the error of a shutdown.
  pub shutdown_drains :
      (p : Pool) (before after : List Event) (url : Text) (method : Option String)
      → p.selectors ≡ targets
      → p.in_flight ≡ 0
      → p.metrics ≡ []
      → let w = run path_of_url before (record { pool = p; calls = [] }) in
        let v = run path_of_url (shuts_down ∷ after) w in
        (w.pool.in_flight ≡ length w.calls)
        × (v.pool.in_flight ≡ length v.calls)
        × (v.pool.in_flight ≤ w.pool.in_flight)
        × All
            (λ r. (is_target targets r.target ≡ true) × (is_method_label r.method ≡ true))
            v.pool.metrics
        × (send path_of_url url method v.pool ≡ (refused shutting_down_error, v.pool))
  unfolding run step IsDraining
  shutdown_drains p before after url method q z m =
      let start : IsSound targets (record { pool = p; calls = [] }) = record {
        selectors = q;
        counted = z;
        aimed = tt;
        labelled = rw m tt;
      } in
      let w = run path_of_url before (record { pool = p; calls = [] }) in
      let s = run-IsSound before (record { pool = p; calls = [] }) start in
      let t = run-IsSound (shuts_down ∷ after) w s in
      let v = run path_of_url (shuts_down ∷ after) w in
      let (down, few) =
        run-IsDraining (length w.calls) after (step path_of_url shuts_down w) (refl, omega arith) in
      (
        s.counted,
        t.counted,
        omega (arith, s.counted, t.counted, few),
        t.labelled,
        send_refuses url method v.pool down,
      )
