-- ===== src/Client/Request/Served.antt =====
-- What the cache serves, and for how long.
use nodejs_basics.Prelude.{
  ℕ, ◌+◌, ◌*◌, ◌<◌, ◌≤◌, Bool, true, false, Option, none, some, List, ◌≡◌, refl, arith, leb,
  Bool-cases, inl, inr, if◌then◌else◌, not,
}
use nodejs_basics.Prelude.Texts.{Text}
use nodejs_basics.Client.Options.{Options, prepare}
use nodejs_basics.Client.Cache.{
  CacheConfig, CacheAdapter, CachedEntry, CacheHit, missed, hit_with, Faults, Upstream, Response,
  entry_of, buffered, is_cacheable, try_cache_hit, buffer_and_cache, hit_of, in_window, is_fresh,
  response_from_entry,
}
use nodejs_basics.Client.Flights.{Flights}
use nodejs_basics.Client.Request.{
  ClientConfig, State, from_cache, start, start_by, cache_answer, execute_request, idempotent_key,
  resolved, ready,
}

module _ (to_base64 : List ℕ → Text) (from_base64 : Text → List ℕ) (a : CacheAdapter) where
  -- A look that finds an entry made of a response, by its age.
  hit_of-entry_of :
      ((bytes : List ℕ) → from_base64 (to_base64 bytes) ≡ bytes)
      → (cfg : CacheConfig) (faults : Faults) (now later : ℕ) (k : Text) (s : a.Store)
        (up : Upstream)
      → later < now + 1000 * (cfg.ttl_seconds + cfg.stale_ttl_seconds)
      → hit_of to_base64 from_base64 a cfg faults later k s
          (some (entry_of to_base64 from_base64 a cfg now up))
        ≡ (
          hit_with
              (buffered to_base64 from_base64 a up)
              (not (leb later (now + 1000 * cfg.ttl_seconds))),
          s,
        )
  hit_of-entry_of back cfg faults now later k s up h =
      elim (Bool-cases (leb later (now + 1000 * cfg.ttl_seconds))) [
        | inl fresh ↦ rw (fresh, back) refl
        | inr old ↦
            let window : leb later (now + 1000 * (cfg.ttl_seconds + cfg.stale_ttl_seconds)) ≡ true =
              ground arith in
            rw (old, window, back) refl
      ]

  stored_then_hit :
      ((bytes : List ℕ) → from_base64 (to_base64 bytes) ≡ bytes)
      → (cfg : CacheConfig) (writes reads : Faults) (now later : ℕ) (k : Text) (s : a.Store)
        (up : Upstream)
      → a.keeps_stale ≡ cfg.stale_ttl_seconds
      → writes.writes_fail ≡ false
      → reads.reads_fail ≡ false
      → later < now + 1000 * (cfg.ttl_seconds + cfg.stale_ttl_seconds)
      → let stored = (buffer_and_cache to_base64 from_base64 a cfg writes now k up s).1 in
        try_cache_hit to_base64 from_base64 a cfg reads later k stored ≡ (
          hit_with
              (buffered to_base64 from_base64 a up)
              (not (leb later (now + 1000 * cfg.ttl_seconds))),
          stored,
        )
  unfolding buffer_and_cache try_cache_hit
  stored_then_hit back cfg writes reads now later k s up keeps w r h =
      let e = entry_of to_base64 from_base64 a cfg now up in
      let there = a.get-set s now later k e (rw keeps h) in
      rw (w, r, there) (hit_of-entry_of back cfg reads now later k (a.set s now k e) up h)

  resolved_stores :
      (c : ClientConfig) (cfg : CacheConfig) (faults : Faults) (now : ℕ) (k : Text) (opts : Options)
      (up : Upstream) (s : a.Store)
      → c.cache ≡ some cfg
      → is_cacheable cfg opts.method up.status ≡ true
      → execute_request to_base64 from_base64 a c faults now false (some k) opts (resolved up) s ≡ (
        ready (buffered to_base64 from_base64 a up),
        (buffer_and_cache to_base64 from_base64 a cfg faults now k up s).1,
      )
  unfolding execute_request buffer_and_cache
  resolved_stores c cfg faults now k opts up s q cacheable = rw (q, cacheable) refl

  -- If the adapter keeps entries for the stale seconds of the client's cache, and neither the write
  -- nor the read throws: a cacheable response that a call with a key brings is answered from memory,
  -- and any later request with the same key gets it from the cache, unchanged and with no other call,
  -- for its whole time to live, and for the stale seconds after it with a revalidation under way.
  pub served_again :
      ((bytes : List ℕ) → from_base64 (to_base64 bytes) ≡ bytes)
      → (c : ClientConfig) (cfg : CacheConfig) (writes reads : Faults) (now later : ℕ) (k : Text)
        (opts : Options) (request_id : Option Text) (again : Options) (up : Upstream) (s : a.Store)
        (flights : Flights)
      → c.cache ≡ some cfg
      → a.keeps_stale ≡ cfg.stale_ttl_seconds
      → writes.writes_fail ≡ false
      → reads.reads_fail ≡ false
      → is_cacheable cfg opts.method up.status ≡ true
      → idempotent_key c (prepare request_id c.short_lived c.user_agent again) ≡ some k
      → later < now + 1000 * (cfg.ttl_seconds + cfg.stale_ttl_seconds)
      → let (reply, stored) =
          execute_request to_base64 from_base64 a c writes now false
            (some k)
            opts
            (resolved up)
            s in
        let response = buffered to_base64 from_base64 a up in
        let (started, after) =
          start to_base64 from_base64 a c reads later request_id again
            (record { store = stored; flights = flights }) in
        (reply ≡ ready response)
        × (started
            ≡ from_cache response
                (if leb later (now + 1000 * cfg.ttl_seconds) then none else some flights.next))
        × (after.store ≡ stored)
  unfolding start cache_answer
  served_again back c cfg writes reads now later k opts request_id again up s flights q keeps w r
        cacheable key h =
      let stores = resolved_stores c cfg writes now k opts up s q cacheable in
      let hit = stored_then_hit back cfg writes reads now later k s up keeps w r h in
      elim (Bool-cases (leb later (now + 1000 * cfg.ttl_seconds))) [
        | inl fresh ↦ rw (stores, key, q, hit, fresh) (refl, refl, refl)
        | inr old ↦ rw (stores, key, q, hit, old) (refl, refl, refl)
      ]

  abbrev pub HitWithin : (stale now : ℕ) → Option CachedEntry → Response → Type 0
  HitWithin stale now o response =
      (e : CachedEntry) × (o ≡ some e)
      × (response ≡ response_from_entry to_base64 from_base64 a e)
      × (now ≤ e.cached_at + 1000 * (e.ttl_seconds + stale))

  hit_of-HitWithin :
      (cfg : CacheConfig) (faults : Faults) (now : ℕ) (k : Text) (s : a.Store)
      (o : Option CachedEntry) (response : Response) (revalidates : Bool)
      → (hit_of to_base64 from_base64 a cfg faults now k s o).0 ≡ hit_with response revalidates
      → HitWithin cfg.stale_ttl_seconds now o response
  hit_of-HitWithin cfg faults now k s none response revalidates q = absurd (cc)
  hit_of-HitWithin cfg faults now k s (some e) response revalidates q =
      let stale = cfg.stale_ttl_seconds in
      elim (Bool-cases (is_fresh e now)) [
        | inl fresh ↦ let same = rw fresh at q in (e, refl, cc, ground (arith, fresh))
        | inr old ↦ elim (Bool-cases (in_window e stale now)) [
          | inl window ↦ let same = rw (old, window) at q in (e, refl, cc, ground (arith, window))
          | inr gone ↦ let bad = rw (old, gone) at q in absurd (cc)
        ]
      ]

  try_cache_hit-HitWithin :
      (cfg : CacheConfig) (faults : Faults) (now : ℕ) (k : Text) (s : a.Store) (response : Response)
      (revalidates : Bool)
      → (try_cache_hit to_base64 from_base64 a cfg faults now k s).0 ≡ hit_with response revalidates
      → HitWithin cfg.stale_ttl_seconds now (a.get s now k) response
  unfolding try_cache_hit
  try_cache_hit-HitWithin cfg faults now k s response revalidates q =
      elim (Bool-cases faults.reads_fail) [
        | inl fails ↦ let bad = rw fails at q in absurd (cc)
        | inr works ↦
            hit_of-HitWithin cfg faults now k s (a.get s now k) response revalidates (rw works at q)
      ]

  cache_answer-hit :
      (coalesce : Bool) (k : Text) (hit : CacheHit) (store : a.Store) (flights : Flights)
      (response : Response) (revalidation : Option ℕ)
      → (cache_answer to_base64 from_base64 a coalesce k hit store flights).0
        ≡ from_cache response revalidation
      → (b : Bool) × (hit ≡ hit_with response b)
  unfolding cache_answer
  cache_answer-hit coalesce k missed store flights response revalidation q = absurd (cc)
  cache_answer-hit coalesce k (hit_with r true) store flights response revalidation q = (true, cc)
  cache_answer-hit coalesce k (hit_with r false) store flights response revalidation q = (false, cc)

  start_by-served :
      (c : ClientConfig) (faults : Faults) (now : ℕ) (key : Option Text)
      (cache : Option CacheConfig) (s : State to_base64 from_base64 a) (response : Response)
      (revalidation : Option ℕ)
      → (start_by to_base64 from_base64 a c faults now key cache s).0
        ≡ from_cache response revalidation
      → (k : Text) × (cfg : CacheConfig) × (key ≡ some k)
        × (cache ≡ some cfg)
        × HitWithin cfg.stale_ttl_seconds now (a.get s.store now k) response
  unfolding start_by
  start_by-served c faults now none cache s response revalidation q = absurd (cc)
  start_by-served c faults now (some k) none s response revalidation q = absurd (cc)
  start_by-served c faults now (some k) (some cfg) s response revalidation q =
      let look = try_cache_hit to_base64 from_base64 a cfg faults now k s.store in
      let (b, hit) =
        cache_answer-hit c.coalesce k look.0 look.1 s.flights response revalidation q in
      (k, cfg, refl, refl, try_cache_hit-HitWithin cfg faults now k s.store response b hit)

  -- Whatever was stored, and whoever asks: what comes from the cache is the content of an entry under
  -- the key of this very request, by a client that has a cache, and that entry is no older than its
  -- time to live and the stale seconds of the cache together.
  pub served_in_window :
      (c : ClientConfig) (faults : Faults) (now : ℕ) (request_id : Option Text) (options : Options)
      (s : State to_base64 from_base64 a) (response : Response) (revalidation : Option ℕ)
      → (start to_base64 from_base64 a c faults now request_id options s).0
        ≡ from_cache response revalidation
      → (k : Text) × (cfg : CacheConfig) × (c.cache ≡ some cfg)
        × (idempotent_key c (prepare request_id c.short_lived c.user_agent options) ≡ some k)
        × HitWithin cfg.stale_ttl_seconds now (a.get s.store now k) response
  unfolding start
  served_in_window c faults now request_id options s response revalidation q =
      let key = idempotent_key c (prepare request_id c.short_lived c.user_agent options) in
      let (k, cfg, keyed, cached, within) =
        start_by-served c faults now key c.cache s response revalidation q in
      (k, cfg, cached, keyed, within)
