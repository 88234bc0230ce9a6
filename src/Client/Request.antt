-- ===== src/Client/Request.antt =====
-- packages/resilient-client/src/resilient-client.ts, `request` with `#idempotentKey`,
-- `#executeRequest` and `#revalidate`: the layers of a call put together. A call has two steps: `start`,
-- up to the answer from the cache or the promise it waits for, and `finish`, the rest of
-- `#executeRequest` and the end of the promise. What the breaker does with the call is given.
pub mod Served
use nodejs_basics.Prelude.{
  ℕ, Bool, true, false, Option, none, some, List, [], ◌∷◌, ◌++◌, ◌≡◌, if◌then◌else◌,
}
use nodejs_basics.Prelude.Texts.{Text, codes, text_key, text_beq}
use nodejs_basics.Client.Errors.{OutboundError, network_error, circuit_open_error}
use nodejs_basics.Client.Options.{Options, prepare}
use nodejs_basics.Client.Cache.{
  CacheConfig, CacheAdapter, CacheHit, missed, hit_with, Faults, Upstream, Response, method_of,
  includes, is_cacheable, try_cache_hit, buffer_and_cache, default_cache,
}
use nodejs_basics.Client.Flights.{
  Flights, Flight, Begun, issued, joined, begin, launch_alone, settle,
}

-- What a call ends with: the upstream's response with its live body, a response whose body is in
-- memory, or an error.
pub data Reply : Type 0 where
  live : Upstream → Reply
  ready : Response → Reply
  rejected : OutboundError → Reply

-- What the breaker does with a call: it resolves, or it rejects with an `OutboundError`, with an
-- error whose cause is one, or with another error.
pub data Fired : Type 0 where
  resolved : Upstream → Fired
  threw_outbound threw_caused_by : OutboundError → Fired
  threw_other : Fired

pub record ClientConfig : Type 0 where
  pub base_url : Text
  pub target : Prim.Native.String.String
  pub cache : Option CacheConfig
  pub coalesce : Bool
  pub short_lived : Bool
  pub user_agent : Option Text
  -- What the caller's fallback resolves with; `none` where it resolves with `null` or throws.
  pub fallback : Option (Options → OutboundError → Option Response)

-- `#idempotentKey`
abbrev pub path_of : Option Text → Text
path_of none = []
path_of (some path) = path

abbrev pub allowed_of : Option CacheConfig → List Text
allowed_of none = codes "GET" ∷ codes "HEAD" ∷ []
allowed_of (some cfg) = cfg.methods

abbrev pub keyed : Option CacheConfig → Text → Options → Option Text
keyed cache base_url opts =
    let method = method_of opts.method in
    if includes (allowed_of cache) method
    then some (method ++ codes ":" ++ base_url ++ path_of opts.path)
    else none

abbrev pub idempotent_key_with :
    Option CacheConfig → (coalesce : Bool) → Text → Options → Option Text
idempotent_key_with none false base_url opts = none
idempotent_key_with cache coalesce base_url opts = keyed cache base_url opts

unfoldable pub idempotent_key : ClientConfig → Options → Option Text
idempotent_key c opts = idempotent_key_with c.cache c.coalesce c.base_url opts

-- `#fallback` on an error, for the call that issued the request
abbrev pub synthetic : Option Response → OutboundError → Reply
synthetic none err = rejected err
synthetic (some response) err = ready response

abbrev pub with_fallback :
    Option (Options → OutboundError → Option Response) → Options → Reply → Reply
with_fallback (some fallback) opts (rejected err) = synthetic (fallback opts err) err
with_fallback _ opts reply = reply

module _ (to_base64 : List ℕ → Text) (from_base64 : Text → List ℕ) (a : CacheAdapter) where
  pub record State : Type 0 where
    pub store : a.Store
    pub flights : Flights

  -- A call has its answer from the cache, with a revalidation under way or not, or waits.
  pub data Started : Type 0 where
    from_cache : (response : Response) (revalidation : Option ℕ) → Started
    waits : Begun → Started

  -- `#revalidate` executes the request again, outside the map.
  unfoldable pub cache_answer :
      (coalesce : Bool) → Text → CacheHit → a.Store → Flights → Started × State
  unfolding begin
  cache_answer coalesce k missed store flights =
      let (begun, later) = begin coalesce (some k) flights in
      (waits begun, record { store = store; flights = later })
  cache_answer coalesce k (hit_with response true) store flights = (
    from_cache response (some flights.next),
    record { store = store; flights = (launch_alone (some k) flights).1 },
  )
  cache_answer coalesce k (hit_with response false) store flights =
      (from_cache response none, record { store = store; flights = flights })

  -- `request` by its key and cache. A key is never empty, so the tests for that are left out.
  unfoldable pub start_by :
      ClientConfig → Faults → (now : ℕ) → Option Text → Option CacheConfig → State → Started × State
  unfolding begin try_cache_hit
  start_by c faults now (some k) (some cfg) s =
      let (hit, store) = try_cache_hit to_base64 from_base64 a cfg faults now k s.store in
      cache_answer c.coalesce k hit store s.flights
  start_by c faults now key cache s =
      let (begun, flights) = begin c.coalesce key s.flights in
      (waits begun, record { store = s.store; flights = flights })

  -- `request` up to the promise, with the request id of the caller
  unfoldable pub start :
      ClientConfig
      → Faults
      → (now : ℕ) → (request_id : Option Text) → Options
      → State
      → Started × State
  unfolding idempotent_key start_by
  start c faults now request_id options s =
      let opts = prepare request_id c.short_lived c.user_agent options in
      start_by c faults now (idempotent_key c opts) c.cache s

  unfoldable pub resolve_with :
      Option CacheConfig
      → Faults
      → (now : ℕ) → Option Text
      → Options
      → Upstream
      → a.Store
      → Reply × a.Store
  unfolding is_cacheable buffer_and_cache
  resolve_with (some cfg) faults now (some k) opts up store =
      let (response, later) = buffer_and_cache to_base64 from_base64 a cfg faults now k up store in
      if is_cacheable cfg opts.method up.status then (ready response, later) else (live up, store)
  resolve_with cache faults now key opts up store = (live up, store)

  unfoldable pub after_fire :
      ClientConfig → Faults → (now : ℕ) → Option Text → Options → Fired → a.Store → Reply × a.Store
  unfolding resolve_with
  after_fire c faults now key opts (resolved up) store =
      resolve_with c.cache faults now key opts up store
  after_fire c faults now key opts (threw_outbound err) store = (rejected err, store)
  after_fire c faults now key opts (threw_caused_by err) store = (rejected err, store)
  after_fire c faults now key opts threw_other store = (rejected (network_error none), store)

  -- `#executeRequest`; `opened` is the breaker's state, which fires only when it is not.
  unfoldable pub execute_request :
      ClientConfig
      → Faults
      → (now : ℕ) → (opened : Bool) → Option Text
      → Options
      → Fired
      → a.Store
      → Reply × a.Store
  unfolding after_fire
  execute_request c faults now opened key opts fired store =
      let fresh = after_fire c faults now key opts fired store in
      if opened then (rejected (circuit_open_error c.target), store) else fresh

  -- The promise `id` settles: what it settles with, which those that joined it get, and what the call
  -- that issued it gets.
  unfoldable pub finish :
      ClientConfig
      → Faults
      → (now : ℕ) → (opened : Bool) → (id : ℕ) → Option Text
      → Options
      → Fired
      → State
      → (Reply × Reply) × State
  unfolding execute_request settle
  finish c faults now opened id key opts fired s =
      let (reply, store) = execute_request c faults now opened key opts fired s.store in
      (
        (reply, with_fallback c.fallback opts reply),
        record { store = store; flights = settle id s.flights },
      )
