-- ===== src/Client/Pool.antt =====
-- packages/resilient-client/src/resilient-client.pool.ts, `ResilientPool`: targets by selector, the
-- calls in flight and their metrics, and the shutdown. What the client of a target answers is given
-- with the end of a call; `URL` is a parameter, `none` where it throws. Logging is left out.
pub mod Routing
pub mod Draining
pub mod InFlight
use nodejs_basics.Prelude.{
  ℕ, zero, suc, ◌+◌, ◌-◌, ◌*◌, String, Bool, true, false, Option, none, some, List, [], ◌∷◌, ◌++◌,
  any, ◌||◌, leb, ◌==◌, ◌===◌, string_key, insert, lookup, if◌then◌else◌,
}
use nodejs_basics.Prelude.Texts.{Text}
use nodejs_basics.Client.Errors.{
  OutboundError, OutcomeLabel, outcome_of, network_error, no_target_error, shutting_down_error,
}
use nodejs_basics.Client.Selector.{matches_selector, extract_base_url}

pub record Target : Type 0 where
  pub name : String
  pub selector : Text

-- One `requestsTotal.add` and `requestDuration.record`.
pub record Recorded : Type 0 where
  pub target : String
  pub method : String
  pub outcome : OutcomeLabel
  pub duration_ms : ℕ

-- A client is named by the base URL it was made for.
pub record Pool : Type 0 where
  pub selectors : List Target
  pub clients : List (String × Text)
  pub in_flight : ℕ
  pub shutting_down : Bool
  pub closed : Bool
  pub metrics : List Recorded

-- The loop of the constructor: a name that comes again has its client replaced.
unfoldable pub clients_of : List Target → List (String × Text) → Option (List (String × Text))
unfolding extract_base_url
clients_of [] clients = some clients
clients_of (t ∷ targets) clients = elim (extract_base_url t.selector) [
  | none ↦ none
  | some base_url ↦ clients_of targets (insert t.name base_url clients)
]

abbrev pub pool_of : List Target → Option (List (String × Text)) → Option Pool
pool_of targets none = none
pool_of targets (some clients) = some (record {
  selectors = targets;
  clients = clients;
  in_flight = 0;
  shutting_down = false;
  closed = false;
  metrics = [];
})

-- The constructor; `none` where it throws.
unfoldable pub new_pool : List Target → Option Pool
unfolding clients_of
new_pool targets = pool_of targets (clients_of targets [])

abbrev pub found_or : Bool → String → Option Text → Option (String × Text) → Option (String × Text)
found_or true name (some client) later = some (name, client)
found_or _ name _ later = later

-- `#resolveTarget`
unfoldable pub resolve_in : List (String × Text) → List Target → Text → Option (String × Text)
unfolding matches_selector
resolve_in clients [] url = none
resolve_in clients (t ∷ selectors) url =
    let later = resolve_in clients selectors url in
    found_or (matches_selector url t.selector) t.name (lookup t.name clients) later

unfoldable pub resolve_target : Pool → Text → Option (String × Text)
unfolding resolve_in
resolve_target p url = resolve_in p.clients p.selectors url

abbrev pub standard_methods : List String
standard_methods =
    "GET" ∷ "HEAD" ∷ "POST" ∷ "PUT" ∷ "PATCH" ∷ "DELETE" ∷ "CONNECT" ∷ "OPTIONS" ∷ "TRACE" ∷ []

abbrev pub method_label : String → String
method_label raw = if any (λ m. m === raw) standard_methods then raw else "_OTHER"

-- `#record`
unfoldable pub recorded :
    (target raw_method : String) → OutcomeLabel → (duration_ms : ℕ) → Pool → Pool
recorded target raw_method outcome duration_ms p = record {
  selectors = p.selectors;
  clients = p.clients;
  in_flight = p.in_flight;
  shutting_down = p.shutting_down;
  closed = p.closed;
  metrics =
      p.metrics
      ++ record {
        target = target;
        method = method_label raw_method;
        outcome = outcome;
        duration_ms = duration_ms;
      }
        ∷ [];
}

abbrev pub with_in_flight : ℕ → Pool → Pool
with_in_flight n p = record {
  selectors = p.selectors;
  clients = p.clients;
  in_flight = n;
  shutting_down = p.shutting_down;
  closed = p.closed;
  metrics = p.metrics;
}

-- A call under way at the client of its target.
pub record Call : Type 0 where
  pub target : String
  pub client : Text
  pub path : Text
  pub method : String

-- The first part of `send`: it rejects, with an `OutboundError` or with the error of `URL`, or the
-- client is called.
pub data Sending : Type 0 where
  refused : OutboundError → Sending
  invalid_url : Sending
  calling : Call → Sending

abbrev pub method_or_get : Option String → String
method_or_get none = "GET"
method_or_get (some method) = method

abbrev pub send_to :
    Option (String × Text) → (path : Option Text) → Option String → Pool → Sending × Pool
send_to none path method p = (refused no_target_error, p)
send_to (some target) none method p = (invalid_url, p)
send_to (some (name, client)) (some path) method p = (
  calling (record { target = name; client = client; path = path; method = method_or_get method }),
  with_in_flight (p.in_flight + 1) p,
)

unfoldable pub send :
    (path_of_url : Text → Option Text) → Text → Option String → Pool → Sending × Pool
unfolding resolve_target
send path_of_url url method p =
    if p.shutting_down
    then (refused shutting_down_error, p)
    else send_to (resolve_target p url) (path_of_url url) method p

-- How the client's `request` ends: with a response, an `OutboundError` or another error.
pub data Ending : Type 0 where
  answered : (status : ℕ) → Ending
  rejected : OutboundError → Ending
  threw : Ending

-- What `send` gives its caller.
pub data Sent : Type 0 where
  response : (status : ℕ) → Sent
  error : OutboundError → Sent

abbrev pub ended_with : Call → Ending → Sent
ended_with call (answered status) = response status
ended_with call (rejected err) = error err
ended_with call threw = error (network_error (some call.target))

-- `#recordSuccess` and `#recordFailure`
unfoldable pub label_of_sent : Sent → OutcomeLabel
unfolding outcome_of
label_of_sent (response status) = outcome_of (some status) none
label_of_sent (error err) = outcome_of err.status_code (some err)

-- The rest of `send`, its `finally` included.
unfoldable pub send_ended : Call → Ending → (duration_ms : ℕ) → Pool → Sent × Pool
unfolding recorded label_of_sent
send_ended call ending duration_ms p =
    let sent = ended_with call ending in
    let counted = recorded call.target call.method (label_of_sent sent) duration_ms p in
    (sent, with_in_flight (counted.in_flight - 1) counted)

-- `shutdown` up to its wait, and after it.
abbrev pub shutdown_started : Pool → Pool
shutdown_started p = record {
  selectors = p.selectors;
  clients = p.clients;
  in_flight = p.in_flight;
  shutting_down = true;
  closed = p.closed;
  metrics = p.metrics;
}

abbrev pub all_closed : Pool → Pool
all_closed p = record {
  selectors = p.selectors;
  clients = p.clients;
  in_flight = p.in_flight;
  shutting_down = p.shutting_down;
  closed = true;
  metrics = p.metrics;
}

-- `waitFor` looks at once, and then every 50 ms, when it gives up once the time is over. `counts`
-- tells how many calls are in flight at each look; the result is the number of the last look, which
-- is the one of `look` if `left` runs out.
abbrev pub poll_from : (counts : ℕ → ℕ) (timeout_ms : ℕ) (left look : ℕ) → ℕ
poll_from counts timeout_ms zero look = look
poll_from counts timeout_ms (suc left) look =
    let later = poll_from counts timeout_ms left (look + 1) in
    if counts look == 0 || leb timeout_ms (50 * look) then look else later

unfoldable pub wait_for : (counts : ℕ → ℕ) (timeout_ms : ℕ) → ℕ
wait_for counts timeout_ms =
    let looks = poll_from counts timeout_ms timeout_ms 1 in if counts 0 == 0 then 0 else looks

-- The calls that were started and have not ended, in any order, beside the pool.
pub record World : Type 0 where
  pub pool : Pool
  pub calls : List Call

pub data Event : Type 0 where
  sends : (url : Text) (method : Option String) → Event
  ends : (nth : ℕ) (ending : Ending) (duration_ms : ℕ) → Event
  shuts_down closes : Event

abbrev pub nth_call : ℕ → List Call → Option Call
nth_call n [] = none
nth_call zero (c ∷ calls) = some c
nth_call (suc n) (c ∷ calls) = nth_call n calls

abbrev pub without_nth : ℕ → List Call → List Call
without_nth n [] = []
without_nth zero (c ∷ calls) = calls
without_nth (suc n) (c ∷ calls) = c ∷ without_nth n calls

abbrev pub after_send : List Call → Sending × Pool → World
after_send calls (calling call, p) = record { pool = p; calls = call ∷ calls }
after_send calls (_, p) = record { pool = p; calls = calls }

unfoldable pub after_end : Option Call → ℕ → Ending → ℕ → World → World
unfolding send_ended
after_end none nth ending duration_ms w = w
after_end (some call) nth ending duration_ms w = record {
  pool = (send_ended call ending duration_ms w.pool).1;
  calls = without_nth nth w.calls;
}

module _ (path_of_url : Text → Option Text) where
  unfoldable pub step : Event → World → World
  unfolding send after_end
  step (sends url method) w = after_send w.calls (send path_of_url url method w.pool)
  step (ends nth ending duration_ms) w = after_end (nth_call nth w.calls) nth ending duration_ms w
  step shuts_down w = record { pool = shutdown_started w.pool; calls = w.calls }
  step closes w =
      if w.pool.shutting_down then record { pool = all_closed w.pool; calls = w.calls } else w

  unfoldable pub run : List Event → World → World
  unfolding step
  run [] w = w
  run (e ∷ es) w = run es (step e w)
