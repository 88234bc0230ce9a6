-- ===== src/Tests/Client.antt =====
-- Runs of the resilient client and its pool.
use nodejs_basics.Prelude.{
  max, ℕ, zero, suc, ◌+◌, ◌*◌, ◌≤◌, ◌<◌, true, false, Option, none, some, List, [], ◌∷◌, ◌++◌, ◌≡◌,
  ◌↔◌, ◌⊎◌, refl, arith, lookup, All, length, leb, if◌then◌else◌, string_key, nat_key, insert,
}
use nodejs_basics.Prelude.Int.{pos}
use nodejs_basics.Prelude.Texts.{Text, codes, text_key, text_beq_iff}
use nodejs_basics.Client.Errors.{shutting_down_error}
use nodejs_basics.Client.Attempts
use nodejs_basics.Client.Attempts.{Attempt, default_settings, execute_with_retry}
use nodejs_basics.Client.Attempts.Outcomes.{
  total, is_acquired, is_given_back, is_sent, is_retried, is_transient, last_answer,
}
use nodejs_basics.Client.Attempts.Ends.{execute_with_retry_ends}
use nodejs_basics.Client.Options
use nodejs_basics.Client.Options.{Options}
use nodejs_basics.Prelude.Decimal.{decimal}
use nodejs_basics.Client.Options.Told.{read_timeout, received, budget_is_told}
use nodejs_basics.Client.Cache.{
  CachedEntry, CacheConfig, default_cache, Faults, Upstream, is_cacheable, try_cache_hit, buffered,
}
use nodejs_basics.Client.Cache.Adapters.{MemoryStore, memory_cache, evict_expired}
use nodejs_basics.Client.Cache.Expiry.{evict_expired_unseen}
use nodejs_basics.Client.Flights.{
  Flights, Flight, Event, begins, settles, no_flights, run, begin, settle, issued,
}
use nodejs_basics.Client.Flights.Coalescing.{single_flight, Finds}
use nodejs_basics.Client.Request
use nodejs_basics.Client.Request.{ClientConfig, State}
use nodejs_basics.Client.Request.Served.{served_again, served_in_window, HitWithin}
use nodejs_basics.Client.Selector.{matches_selector, parts_of, extract_base_url}
use nodejs_basics.Client.Selector.Matching.{Fits, matches_selector_iff}
use nodejs_basics.Client.Pool
use nodejs_basics.Client.Pool.{Target, Pool, new_pool, resolve_target, wait_for}
use nodejs_basics.Client.Pool.Routing.{FirstFit, resolve_target-FirstFit}
use nodejs_basics.Client.Pool.InFlight.{shutdown_drains, is_target, is_method_label}

-- An upstream that answers 503 once and then 200.
abbrev flaky : ℕ → Attempt
flaky zero = record { budget = some (pos 500); waited = 3; dispatched = Attempts.responded 503 }
flaky (suc _) = record { budget = some (pos 400); waited = 0; dispatched = Attempts.responded 200 }

abbrev graph : Attempts.Settings
graph = default_settings "https://graph.facebook.com"

execute_with_retry_ends_example :
    let (effects, ended) = execute_with_retry graph flaky in
    (last : ℕ) × (last ≤ 2)
    × (ended ≡ some (last_answer graph (flaky last)))
    × ((i : ℕ) → i < last → is_transient graph (flaky i) ≡ true)
    × ((last ≡ 2) ⊎ (is_transient graph (flaky last) ≡ false))
    × (total is_acquired effects ≡ total is_given_back effects)
    × (total is_sent effects ≤ last + 1)
    × (total is_retried effects ≡ last)
execute_with_retry_ends_example = execute_with_retry_ends graph flaky

flaky_answer : (execute_with_retry graph flaky).1 ≡ some (Attempts.response 200)
unfolding execute_with_retry
flaky_answer = refl

abbrev shown : ℕ → Text
shown n = n ∷ []

abbrev plain : Options
plain = record {
  method = none;
  path = some (codes "/events");
  headers = Options.listed (codes "User-Agent" ∷ codes "curl" ∷ []);
  signal = record { own = some 1; after_ms = none };
}

abbrev fine : Faults
fine = record { reads_fail = false; writes_fail = false; deletes_fail = false }

abbrev entry : (cached_at : ℕ) → CachedEntry
entry cached_at = record {
  status_code = 200;
  headers = [];
  body = codes "ok";
  cached_at = cached_at;
  ttl_seconds = 300;
}

abbrev two_entries : MemoryStore
two_entries = (codes "a", entry 0) ∷ (codes "b", entry 200000) ∷ []

abbrev same_text : Text → Text
same_text t = t

evict_expired_unseen_example :
    let hit =
      try_cache_hit same_text same_text (memory_cache 0) default_cache fine 400000 (codes "b") in
    (hit (evict_expired 0 350000 two_entries)).0 ≡ (hit two_entries).0
evict_expired_unseen_example =
    evict_expired_unseen same_text same_text default_cache fine 0 350000 400000 (codes "b")
      two_entries
      (
        (
          λ q. let bad : false ≡ true = (text_beq_iff (codes "b") (codes "a")).1 q in absurd (cc),
          tt,
        ),
        (tt, tt),
      )
      (omega arith)

abbrev started_twice : List Event
started_twice =
    begins (some (codes "a"))
    ∷ begins (some (codes "a"))
    ∷ begins (some (codes "b"))
    ∷ settles 1
    ∷ []

abbrev FindsOne : Flights → Type 0
FindsOne s =
    ((i j : ℕ) (f g : Flight)
      → lookup i s.under_way ≡ some f
      → lookup j s.under_way ≡ some g
      → f.registered ≡ some (codes "a")
      → g.registered ≡ some (codes "a")
      → i ≡ j)
    × Finds (codes "a") s (begin true (some (codes "a")) s).0
    × ((i : ℕ) (f : Flight)
        → lookup i s.under_way ≡ some f
        → f.registered ≡ some (codes "a")
        → (begin true (some (codes "a")) (settle i s)).0 ≡ issued s.next)

single_flight_example : FindsOne (run true started_twice no_flights)
single_flight_example = single_flight started_twice (codes "a")

abbrev cached : ClientConfig
cached = record {
  base_url = codes "https://x";
  target = "https://x";
  cache = some default_cache;
  coalesce = false;
  short_lived = false;
  user_agent = none;
  fallback = none;
}

abbrev answer : Upstream
answer = record {
  status = 200;
  headers = [];
  chunks = (1 ∷ []) ∷ (2 ∷ []) ∷ [];
  breaks_off = false;
}

abbrev key : Text
key = codes "GET" ++ codes ":" ++ codes "https://x" ++ codes "/events"

served_again_example :
    let (reply, stored) =
      Request.execute_request same_text same_text
        (memory_cache 0)
        cached
        fine
        1000
        false
        (some key)
        plain
        (Request.resolved answer)
        [] in
    let response = buffered same_text same_text (memory_cache 0) answer in
    let (started, after) =
      Request.start same_text same_text
        (memory_cache 0)
        cached
        fine
        200000
        none
        plain
        (record { store = stored; flights = no_flights }) in
    (reply ≡ Request.ready response)
    × (started
        ≡ Request.from_cache response (if leb 200000 (1000 + 1000 * 300) then none else some 0))
    × (after.store ≡ stored)
unfolding Request.idempotent_key is_cacheable Options.prepare Options.forward_request_id
    Options.apply_short_lived Options.apply_user_agent
served_again_example =
    served_again same_text same_text (memory_cache 0) (λ b. refl) cached default_cache fine fine
      1000 200000 key plain none plain answer [] no_flights refl refl refl refl refl refl
      (omega arith)

abbrev holding : State same_text same_text (memory_cache 0)
holding = record { store = (key, entry 0) ∷ []; flights = no_flights }

served_in_window_example :
    (k : Text) × (cfg : CacheConfig) × (some default_cache ≡ some cfg)
    × (Request.idempotent_key cached (Options.prepare none false none plain) ≡ some k)
    × HitWithin same_text same_text
        (memory_cache 0)
        cfg.stale_ttl_seconds
        5000
        (lookup k holding.store)
        (record { status = 200; headers = []; body = codes "ok" })
unfolding Request.start try_cache_hit Request.idempotent_key lookup Request.start_by
    Request.cache_answer Options.prepare Options.forward_request_id Options.apply_short_lived
    Options.apply_user_agent
served_in_window_example =
    served_in_window same_text same_text (memory_cache 0) cached fine 5000 none plain holding
      (record { status = 200; headers = []; body = codes "ok" }) none refl

abbrev selector : Text
selector = codes "://graph.facebook.com{pixel_id}/events"

abbrev events_url : Text
events_url = codes "https://graph.facebook.com/123456/events"

parts_of_selector : parts_of selector ≡ codes "://graph.facebook.com" ∷ codes "/events" ∷ []
unfolding parts_of
parts_of_selector = refl

base_url_of_selector : extract_base_url selector ≡ some (codes "https://graph.facebook.com")
unfolding extract_base_url
base_url_of_selector = refl

matches_selector_iff_example :
    (matches_selector events_url selector ≡ true) ↔ Fits (parts_of selector) events_url
matches_selector_iff_example = matches_selector_iff events_url selector

abbrev targets : List Target
targets = record { name = "graph"; selector = selector } ∷ []

abbrev pool : Pool
pool = record {
  selectors = targets;
  clients = ("graph", codes "https://graph.facebook.com") ∷ [];
  in_flight = 0;
  shutting_down = false;
  closed = false;
  metrics = [];
}

resolve_target-FirstFit_example : FirstFit targets events_url (resolve_target pool events_url)
unfolding new_pool extract_base_url insert Pool.clients_of
resolve_target-FirstFit_example = resolve_target-FirstFit targets pool events_url refl

abbrev two_left : ℕ → ℕ
two_left zero = 2
two_left (suc zero) = 1
two_left _ = 0

abbrev whole : Text → Option Text
whole url = some url

shutdown_drains_example :
    let w =
      Pool.run whole
        (Pool.sends events_url none ∷ Pool.sends events_url none ∷ [])
        (record { pool = pool; calls = [] }) in
    let v = Pool.run whole (Pool.shuts_down ∷ Pool.ends 0 (Pool.answered 200) 7 ∷ []) w in
    (w.pool.in_flight ≡ length w.calls)
    × (v.pool.in_flight ≡ length v.calls)
    × (v.pool.in_flight ≤ w.pool.in_flight)
    × All
        (λ r. (is_target targets r.target ≡ true) × (is_method_label r.method ≡ true))
        v.pool.metrics
    × (Pool.send whole events_url none v.pool ≡ (Pool.refused shutting_down_error, v.pool))
shutdown_drains_example =
    shutdown_drains whole targets pool
      (Pool.sends events_url none ∷ Pool.sends events_url none ∷ [])
      (Pool.ends 0 (Pool.answered 200) 7 ∷ []) events_url none refl refl refl

budget_is_told_example :
    read_timeout (
      received (codes "x-request-timeout-ms") (
        Options.normalize_headers
          (Options.with_budget decimal (Options.prepare none false none plain) 1500).headers))
    ≡ some (max 1 1500)
unfolding Options.normalize_headers insert
budget_is_told_example = budget_is_told none false none plain 1500 (refl, tt) (omega arith)
