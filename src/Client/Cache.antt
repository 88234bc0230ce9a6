-- ===== src/Client/Cache.antt =====
-- packages/resilient-client/src/resilient-client.cache.ts and the cache helpers of
-- packages/resilient-client/src/resilient-client.ts: responses kept by key. Times are milliseconds of
-- one clock, time to live whole seconds. `Buffer`'s base64 is a parameter.
pub mod Adapters
pub mod Expiry
use nodejs_basics.Prelude.{
  ℕ, ◌+◌, ◌*◌, ◌<◌, Bool, true, false, not, Option, none, some, List, [], ◌∷◌, ◌++◌, ◌≡◌, ◌≢◌, any,
  ◌&&◌, leb, ltb, ◌===◌, if◌then◌else◌,
}
use nodejs_basics.Prelude.Texts.{Text, codes, text_key, upper}

abbrev pub Headers : Type 0
Headers = List (Text × Text)

pub record CachedEntry : Type 0 where
  pub status_code : ℕ
  pub headers : Headers
  -- base64
  pub body : Text
  pub cached_at : ℕ
  pub ttl_seconds : ℕ

pub record CacheConfig : Type 0 where
  pub ttl_seconds : ℕ
  pub stale_ttl_seconds : ℕ
  pub methods : List Text

-- What the client takes for a field that is left out.
abbrev pub default_cache : CacheConfig
default_cache = record {
  ttl_seconds = 300;
  stale_ttl_seconds = 0;
  methods = codes "GET" ∷ codes "HEAD" ∷ [];
}

-- A store of entries, with what the client relies on: an entry is kept while it is younger than its
-- time to live and the seconds for which the store keeps stale ones, unless it is deleted or
-- replaced.
pub record CacheAdapter : Type 1 where
  pub Store : Type 0
  pub get : Store → (now : ℕ) → Text → Option CachedEntry
  pub set : Store → (now : ℕ) → Text → CachedEntry → Store
  pub delete : Store → Text → Store
  pub keeps_stale : ℕ
  pub get-set :
      (s : Store) (now later : ℕ) (k : Text) (e : CachedEntry)
      → later < now + 1000 * (e.ttl_seconds + keeps_stale)
      → get (set s now k e) later k ≡ some e
  pub get-set_ne :
      (s : Store) (now later : ℕ) (k j : Text) (e : CachedEntry)
      → j ≢ k
      → get (set s now k e) later j ≡ get s later j
  pub get-delete : (s : Store) (later : ℕ) (k : Text) → get (delete s k) later k ≡ none
  pub get-delete_ne :
      (s : Store) (later : ℕ) (k j : Text) → j ≢ k → get (delete s k) later j ≡ get s later j

-- Which calls of the adapter throw.
pub record Faults : Type 0 where
  pub reads_fail : Bool
  pub writes_fail : Bool
  pub deletes_fail : Bool

-- A response of the upstream: its body comes in chunks, and may break off after them.
pub record Upstream : Type 0 where
  pub status : ℕ
  pub headers : Headers
  pub chunks : List (List ℕ)
  pub breaks_off : Bool

pub record Response : Type 0 where
  pub status : ℕ
  pub headers : Headers
  pub body : List ℕ

abbrev pub concat : List (List ℕ) → List ℕ
concat [] = []
concat (xs ∷ xss) = xs ++ concat xss

-- `opts.method`, `GET` if it is left out.
abbrev pub method_of : Option Text → Text
method_of none = codes "GET"
method_of (some method) = upper method

abbrev pub includes : List Text → Text → Bool
includes texts text = any (λ t. t === text) texts

-- `#isCacheable`, with a cache
unfoldable pub is_cacheable : CacheConfig → Option Text → (status : ℕ) → Bool
is_cacheable cfg method status =
    includes cfg.methods (method_of method) && leb 200 status && ltb status 300

-- `isFresh` and `isStale`
abbrev pub is_fresh : CachedEntry → (now : ℕ) → Bool
is_fresh e now = leb now (e.cached_at + 1000 * e.ttl_seconds)

abbrev pub in_window : CachedEntry → (stale now : ℕ) → Bool
in_window e stale now = leb now (e.cached_at + 1000 * (e.ttl_seconds + stale))

abbrev pub is_stale : CachedEntry → (stale now : ℕ) → Bool
is_stale e stale now = not (is_fresh e now) && in_window e stale now

-- What a look at the cache brings.
pub data CacheHit : Type 0 where
  missed : CacheHit
  hit_with : (response : Response) (revalidates : Bool) → CacheHit

module _ (to_base64 : List ℕ → Text) (from_base64 : Text → List ℕ) (a : CacheAdapter) where
  -- `#responseFromEntry`
  abbrev pub response_from_entry : CachedEntry → Response
  response_from_entry e = record {
    status = e.status_code;
    headers = e.headers;
    body = from_base64 e.body;
  }

  abbrev pub deleted : Faults → a.Store → Text → a.Store
  deleted faults s k = if faults.deletes_fail then s else a.delete s k

  abbrev pub hit_of :
      CacheConfig → Faults → (now : ℕ) → Text → a.Store → Option CachedEntry → CacheHit × a.Store
  hit_of cfg faults now k s none = (missed, s)
  hit_of cfg faults now k s (some e) =
      if is_fresh e now
      then (hit_with (response_from_entry e) false, s)
      else if is_stale e cfg.stale_ttl_seconds now
      then (hit_with (response_from_entry e) true, s)
      else (missed, deleted faults s k)

  -- `#tryCacheHit`
  unfoldable pub try_cache_hit :
      CacheConfig → Faults → (now : ℕ) → Text → a.Store → CacheHit × a.Store
  try_cache_hit cfg faults now k s =
      if faults.reads_fail then (missed, s) else hit_of cfg faults now k s (a.get s now k)

  abbrev pub entry_of : CacheConfig → (now : ℕ) → Upstream → CachedEntry
  entry_of cfg now up = record {
    status_code = up.status;
    headers = up.headers;
    body = to_base64 (concat up.chunks);
    cached_at = now;
    ttl_seconds = cfg.ttl_seconds;
  }

  abbrev pub buffered : Upstream → Response
  buffered up = record { status = up.status; headers = up.headers; body = concat up.chunks }

  -- `#bufferAndCache`: the chunks that came are kept, whether or not the body broke off after them.
  unfoldable pub buffer_and_cache :
      CacheConfig → Faults → (now : ℕ) → Text → Upstream → a.Store → Response × a.Store
  buffer_and_cache cfg faults now k up s =
      (buffered up, if faults.writes_fail then s else a.set s now k (entry_of cfg now up))
