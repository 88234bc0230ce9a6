-- ===== src/Client/Cache/Adapters.antt =====
-- packages/resilient-client/src/resilient-client.cache.ts, `MemoryCache` and `ValkeyCache`: two
-- stores that keep what `CacheAdapter` promises. A Valkey client and `JSON` are parameters.
use nodejs_basics.Prelude.{
  ℕ, ◌+◌, ◌*◌, ◌<◌, Bool, Option, none, some, List, [], ◌∷◌, ◌++◌, ◌≡◌, ◌≢◌, ◌∙◌, ap, arith, lookup,
  insert, erase, lookup-insert_self, lookup-insert_ne, lookup-erase_self, lookup-erase_ne, ltb,
  if◌then◌else◌,
}
use nodejs_basics.Prelude.Texts.{Text, text_key, text_beq, text_beq_iff}
use nodejs_basics.Client.Cache.{CachedEntry, CacheAdapter}

abbrev pub MemoryStore : Type 0
MemoryStore = List (Text × CachedEntry)

-- `MemoryCache`: it keeps an entry until it is evicted, however long stale ones are to be kept.
abbrev pub memory_cache : (keeps_stale : ℕ) → CacheAdapter
memory_cache keeps_stale = record {
  Store = MemoryStore;
  get = λ s now k. lookup k s;
  set = λ s now k e. insert k e s;
  delete = λ s k. erase k s;
  keeps_stale = keeps_stale;
  get-set = λ s now later k e h. lookup-insert_self k e s;
  get-set_ne = λ s now later k j e ne. lookup-insert_ne k j e s ne;
  get-delete = λ s later k. lookup-erase_self k s;
  get-delete_ne = λ s later k j ne. lookup-erase_ne k j s ne;
}

-- `(now - entry.cachedAt) / 1000 > entry.ttlSeconds + staleTtlSeconds`
abbrev pub is_expired : CachedEntry → (stale now : ℕ) → Bool
is_expired e stale now = ltb (e.cached_at + 1000 * (e.ttl_seconds + stale)) now

-- `evictExpired`
unfoldable pub evict_expired : (stale now : ℕ) → MemoryStore → MemoryStore
evict_expired stale now [] = []
evict_expired stale now ((k, e) ∷ s) =
    let rest = evict_expired stale now s in if is_expired e stale now then rest else (k, e) ∷ rest

-- The commands of a Valkey client, with what they do on one key and on the others: `SET k v EX n`
-- keeps the value for `n` seconds.
pub record ValkeyLike : Type 1 where
  pub Server : Type 0
  pub get : Server → (now : ℕ) → Text → Option Text
  pub set_ex : Server → (now : ℕ) → Text → Text → (seconds : ℕ) → Server
  pub del : Server → Text → Server
  pub get-set_ex :
      (s : Server) (now later : ℕ) (k v : Text) (n : ℕ)
      → later < now + 1000 * n
      → get (set_ex s now k v n) later k ≡ some v
  pub get-set_ex_ne :
      (s : Server) (now later : ℕ) (k j v : Text) (n : ℕ)
      → j ≢ k
      → get (set_ex s now k v n) later j ≡ get s later j
  pub get-del : (s : Server) (later : ℕ) (k : Text) → get (del s k) later k ≡ none
  pub get-del_ne :
      (s : Server) (later : ℕ) (k j : Text) → j ≢ k → get (del s k) later j ≡ get s later j

-- `JSON` on entries: `parse` is `none` where it throws or `isCachedEntry` says no.
pub record EntryJson : Type 0 where
  pub stringify : CachedEntry → Text
  pub parse : Text → Option CachedEntry
  pub parse-stringify : (e : CachedEntry) → parse (stringify e) ≡ some e
  pub parse_empty : parse [] ≡ none

pub append-cancel : (p j k : Text) → p ++ j ≡ p ++ k → j ≡ k
append-cancel [] j k q = q
append-cancel (c ∷ p) j k q = append-cancel p j k (cc)

module _ (client : ValkeyLike) (json : EntryJson) (prefix : Text) where
  -- `get` of `ValkeyCache` on what the client brings
  abbrev pub read_raw : Option Text → Option CachedEntry
  read_raw none = none
  read_raw (some raw) = if text_beq raw [] then none else json.parse raw

  pub read_raw-stringify : (e : CachedEntry) → read_raw (some (json.stringify e)) ≡ some e
  read_raw-stringify e =
      ground (arith, text_beq_iff (json.stringify e) [], json.parse-stringify e, json.parse_empty)

  abbrev pub valkey_cache : (keeps_stale : ℕ) → CacheAdapter
  valkey_cache keeps_stale = record {
    Store = client.Server;
    get = λ s now k. read_raw (client.get s now (prefix ++ k));
    set = λ s now k e.
        client.set_ex s now (prefix ++ k) (json.stringify e) (e.ttl_seconds + keeps_stale);
    delete = λ s k. client.del s (prefix ++ k);
    keeps_stale = keeps_stale;
    get-set = λ s now later k e h.
        ap read_raw (
          client.get-set_ex s now later (prefix ++ k) (json.stringify e)
            (e.ttl_seconds + keeps_stale) h)
        ∙ read_raw-stringify e;
    get-set_ne = λ s now later k j e ne. ap read_raw (
        client.get-set_ex_ne s now later (prefix ++ k) (prefix ++ j) (json.stringify e)
          (e.ttl_seconds + keeps_stale) (λ q. ne (append-cancel prefix j k q)));
    get-delete = λ s later k. ap read_raw (client.get-del s later (prefix ++ k));
    get-delete_ne = λ s later k j ne. ap read_raw (
        client.get-del_ne s later (prefix ++ k) (prefix ++ j)
          (λ q. ne (append-cancel prefix j k q)));
  }
