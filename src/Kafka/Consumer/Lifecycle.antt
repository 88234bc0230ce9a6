-- ===== src/Kafka/Consumer/Lifecycle.antt =====
-- packages/kafka/src/kafka-consumer.ts: `connect`, `stop`, `assertRunning` and the rebalance
-- callback. `connect` is cut at its awaits, so that a stop or a rebalance can come between them.
-- Whether a client call succeeds is part of the event; asking for the topics never fails.
use nodejs_basics.Prelude.{
  Bool, true, false, Option, none, some, List, [], ◌∷◌, ◌≡◌, ◌⊎◌, inl, inr, arith, not, Memᴰ, ◌||◌,
  if◌then◌else◌, sym,
}

-- Where a call of `connect` stands: none is running, `consumer.connect()` is awaited, or
-- `subscribe` and `run` are.
pub data Phase : Type 0 where
  idle connecting subscribing : Phase

-- `stopped` is `reconnect.stopped`; `disconnects` tells whether `stop` disconnected the consumer.
pub record Member : Type 0 where
  pub phase : Phase
  pub consumer : Bool
  pub running : Bool
  pub joined : Bool
  pub stopped : Bool
  pub disconnected : Bool

unfoldable pub new : Member
new = record {
  phase = idle;
  consumer = false;
  running = false;
  joined = false;
  stopped = false;
  disconnected = false;
}

pub data Event : Type 0 where
  begins : Event
  connected : (succeeds : Bool) → Event
  ran : (succeeds : Bool) → Event
  assigned : Event
  revoked : Event
  stops : Event

-- `connect`, up to `consumer.connect()`.
abbrev begin_connect : Member → Member
begin_connect m = record m { phase = connecting; joined = false; consumer = true }

-- After `consumer.connect()`: it threw; or a stop came meanwhile, and the consumer is let go.
abbrev after_connect : Bool → Member → Member
after_connect succeeds m =
    if not succeeds || m.stopped
    then record m { phase = idle; disconnected = true }
    else record m { phase = subscribing }

-- After `subscribe` and `run`.
abbrev after_run : Bool → Member → Member
after_run succeeds m =
    if succeeds
    then record m { phase = idle; running = true }
    else record m { phase = idle; disconnected = true }

abbrev stop_member : Member → Member
stop_member m = record m {
  stopped = true;
  disconnected = if m.running then true else m.disconnected;
  running = false;
  joined = false;
}

abbrev in_phase : Phase → Event → Member → Member
in_phase idle begins m = if m.stopped then m else begin_connect m
in_phase connecting (connected succeeds) m = after_connect succeeds m
in_phase subscribing (ran succeeds) m = after_run succeeds m
in_phase _ assigned m = record m { joined = true }
in_phase _ revoked m = m
in_phase _ stops m = stop_member m
in_phase _ _ m = m

unfoldable pub step : Member → Event → Member
step m e = in_phase m.phase e m

unfoldable pub run : Member → List Event → Member
run m [] = m
run m (e ∷ es) = run (step m e) es

pub data NotReady : Type 0 where
  not_running not_joined no_assignment : NotReady

-- `assertRunning`: what it throws. `assigns` tells whether `consumer.assignment()` answers.
unfoldable pub assert_running : Member → (assigns : Bool) → Option NotReady
assert_running m assigns =
    if not m.running || not m.consumer
    then some not_running
    else if not m.joined
    then some not_joined
    else if assigns
    then none
    else some no_assignment

step_running :
    (m : Member) (e : Event) → (step m e).running ≡ true → (m.running ≡ true) ⊎ (e ≡ ran true)
unfolding step
step_running m e h = ground arith

step_joined :
    (m : Member) (e : Event) → (step m e).joined ≡ true → (m.joined ≡ true) ⊎ (e ≡ assigned)
unfolding step
step_joined m e h = ground arith

run_running :
    (m : Member) (es : List Event)
    → (run m es).running ≡ true
    → (m.running ≡ true) ⊎ Memᴰ (ran true) es
unfolding run
run_running m [] h = inl h
run_running m (e ∷ es) h = elim (run_running (step m e) es h) [
  | inl r ↦ elim (step_running m e r) [ inl q ↦ inl q | inr q ↦ inr (Memᴰ.head (sym q)) ]
  | inr later ↦ inr (Memᴰ.tail later)
]

run_joined :
    (m : Member) (es : List Event) → (run m es).joined ≡ true → (m.joined ≡ true) ⊎ Memᴰ assigned es
unfolding run
run_joined m [] h = inl h
run_joined m (e ∷ es) h = elim (run_joined (step m e) es h) [
  | inl r ↦ elim (step_joined m e r) [ inl q ↦ inl q | inr q ↦ inr (Memᴰ.head (sym q)) ]
  | inr later ↦ inr (Memᴰ.tail later)
]

assert_running-none :
    (m : Member) (a : Bool) → assert_running m a ≡ none → (m.running ≡ true) × (m.joined ≡ true)
unfolding assert_running
assert_running-none m a h = ground arith

or_absurd {ℓ} : {A : Type ℓ} → (false ≡ true) ⊎ A → A
or_absurd (inl h) = absurd (cc)
or_absurd (inr a) = a

-- A member that reports itself ready has subscribed and run, and the group has assigned to it.
pub ready-needs :
    (es : List Event) (a : Bool)
    → assert_running (run new es) a ≡ none
    → Memᴰ (ran true) es × Memᴰ assigned es
unfolding new
ready-needs es a h =
    let (r, j) = assert_running-none (run new es) a h in
    (or_absurd (run_running new es r), or_absurd (run_joined new es j))

-- A stopped member that is not between `connect` and `run`.
record IsDown (m : Member) : Type 0 where
  down : m.running ≡ false
  stopped : m.stopped ≡ true
  settled : (m.phase ≡ idle) ⊎ (m.phase ≡ connecting)

step-IsDown : (m : Member) (e : Event) → IsDown m → IsDown (step m e)
unfolding step
step-IsDown m e h = ground arith

run-IsDown : (m : Member) (es : List Event) → IsDown m → IsDown (run m es)
unfolding run
run-IsDown m [] h = h
run-IsDown m (e ∷ es) h = run-IsDown (step m e) es (step-IsDown m e h)

step-stops-IsDown : (m : Member) → (m.phase ≡ idle) ⊎ (m.phase ≡ connecting) → IsDown (step m stops)
unfolding step
step-stops-IsDown m h = ground arith

IsDown-not_ready : (m : Member) (a : Bool) → IsDown m → assert_running m a ≡ some not_running
unfolding assert_running
IsDown-not_ready m a h = ground arith

-- After a stop that comes while no connect is under way, or before its `subscribe`, the member
-- never reports itself ready again, whatever happens.
pub not_ready-stop :
    (m : Member) (es : List Event) (a : Bool)
    → (m.phase ≡ idle) ⊎ (m.phase ≡ connecting)
    → assert_running (run (step m stops) es) a ≡ some not_running
not_ready-stop m es a h =
    IsDown-not_ready _ a (run-IsDown (step m stops) es (step-stops-IsDown m h))

-- A stop that comes between `subscribe` and `run`, to a member that is not running yet and was not
-- disconnected, is not seen again: the member is ready once it runs and the group assigns to it,
-- though it was stopped, and it was not disconnected.
pub stop_while_subscribing :
    (m : Member)
    → m.phase ≡ subscribing
    → m.consumer ≡ true
    → m.running ≡ false
    → m.disconnected ≡ false
    → let s = run m (stops ∷ ran true ∷ assigned ∷ []) in
      (assert_running s true ≡ none) × (s.stopped ≡ true) × (s.disconnected ≡ false)
unfolding run step assert_running
stop_while_subscribing m p c r d = ground arith
