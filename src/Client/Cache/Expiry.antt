-- ===== src/Client/Cache/Expiry.antt =====
-- What an eviction leaves to be served: everything, since only entries go that no look at the cache
-- would bring any more.
use nodejs_basics.Prelude.{
  ℕ, ◌≤◌, true, false, Option, none, some, List, [], ◌∷◌, ◌≡◌, ◌≢◌, refl, sym, arith, All, lookup,
  insert, erase, Bool-cases, inl, inr, if◌then◌else◌,
}
use nodejs_basics.Prelude.Texts.{Text, text_key, text_beq, text_beq_iff}
use nodejs_basics.Client.Cache.{CachedEntry, CacheConfig, Faults, try_cache_hit, hit_of}
use nodejs_basics.Client.Cache.Adapters.{MemoryStore, memory_cache, is_expired, evict_expired}

-- A `Map` has one entry per key.
abbrev pub IsDistinct : MemoryStore → Type 0
IsDistinct [] = Unit
IsDistinct ((k, e) ∷ s) = All (λ p. p.0 ≢ k) s × IsDistinct s

insert-Others :
    (k j : Text) (e : CachedEntry) (s : MemoryStore)
    → k ≢ j
    → All (λ p. p.0 ≢ j) s
    → All (λ p. p.0 ≢ j) (insert k e s)
unfolding insert
insert-Others k j e [] ne h = (ne, tt)
insert-Others k j e ((i, w) ∷ s) ne h = elim (Bool-cases (text_beq i k)) [
  | inl hit ↦ rw hit (ne, h.1)
  | inr miss ↦ rw miss (h.0, insert-Others k j e s ne h.1)
]

erase-Others :
    (k j : Text) (s : MemoryStore) → All (λ p. p.0 ≢ j) s → All (λ p. p.0 ≢ j) (erase k s)
unfolding erase
erase-Others k j [] h = tt
erase-Others k j ((i, w) ∷ s) h = elim (Bool-cases (text_beq i k)) [
  | inl hit ↦ rw hit (erase-Others k j s h.1)
  | inr miss ↦ rw miss (h.0, erase-Others k j s h.1)
]

evict_expired-Others :
    (stale now : ℕ) (j : Text) (s : MemoryStore)
    → All (λ p. p.0 ≢ j) s
    → All (λ p. p.0 ≢ j) (evict_expired stale now s)
unfolding evict_expired
evict_expired-Others stale now j [] h = tt
evict_expired-Others stale now j ((i, e) ∷ s) h = elim (Bool-cases (is_expired e stale now)) [
  | inl gone ↦ rw gone (evict_expired-Others stale now j s h.1)
  | inr here ↦ rw here (h.0, evict_expired-Others stale now j s h.1)
]

pub insert-IsDistinct :
    (k : Text) (e : CachedEntry) (s : MemoryStore) → IsDistinct s → IsDistinct (insert k e s)
unfolding insert
insert-IsDistinct k e [] h = (tt, tt)
insert-IsDistinct k e ((i, w) ∷ s) h = elim (Bool-cases (text_beq i k)) [
  | inl hit ↦ let same : i ≡ k = (text_beq_iff i k).0 hit in rw hit (rw (sym same) h)
  | inr miss ↦
      let other : k ≢ i = (λ q. ground (arith, text_beq_iff i k, sym q)) in
      rw miss (insert-Others k i e s other h.0, insert-IsDistinct k e s h.1)
]

pub erase-IsDistinct : (k : Text) (s : MemoryStore) → IsDistinct s → IsDistinct (erase k s)
unfolding erase
erase-IsDistinct k [] h = tt
erase-IsDistinct k ((i, w) ∷ s) h = elim (Bool-cases (text_beq i k)) [
  | inl hit ↦ rw hit (erase-IsDistinct k s h.1)
  | inr miss ↦ rw miss (erase-Others k i s h.0, erase-IsDistinct k s h.1)
]

pub evict_expired-IsDistinct :
    (stale now : ℕ) (s : MemoryStore) → IsDistinct s → IsDistinct (evict_expired stale now s)
unfolding evict_expired
evict_expired-IsDistinct stale now [] h = tt
evict_expired-IsDistinct stale now ((i, e) ∷ s) h = elim (Bool-cases (is_expired e stale now)) [
  | inl gone ↦ rw gone (evict_expired-IsDistinct stale now s h.1)
  | inr here ↦
      rw here (evict_expired-Others stale now i s h.0, evict_expired-IsDistinct stale now s h.1)
]

lookup-absent : (k : Text) (s : MemoryStore) → All (λ p. p.0 ≢ k) s → lookup k s ≡ none
unfolding lookup
lookup-absent k [] h = refl
lookup-absent k ((i, e) ∷ s) h =
    let miss : text_beq i k ≡ false = ground (arith, text_beq_iff i k, h.0) in
    rw miss (lookup-absent k s h.1)

-- What is found without the expired entries.
abbrev unexpired : (stale now : ℕ) → Option CachedEntry → Option CachedEntry
unexpired stale now none = none
unexpired stale now (some e) = if is_expired e stale now then none else some e

lookup-evict_expired :
    (stale now : ℕ) (k : Text) (s : MemoryStore)
    → IsDistinct s
    → lookup k (evict_expired stale now s) ≡ unexpired stale now (lookup k s)
unfolding lookup evict_expired
lookup-evict_expired stale now k [] h = refl
lookup-evict_expired stale now k ((i, e) ∷ s) h =
    let later = lookup-evict_expired stale now k s h.1 in
    let none_left = λ (hit : text_beq i k ≡ true).
      lookup-absent k (evict_expired stale now s)
        (rw (sym ((text_beq_iff i k).0 hit)) (evict_expired-Others stale now i s h.0)) in
    elim (Bool-cases (text_beq i k)) [
      | inl hit ↦ elim (Bool-cases (is_expired e stale now)) [
        | inl gone ↦ rw (hit, gone) (none_left hit)
        | inr here ↦ rw (here, hit, here) refl
      ]
      | inr miss ↦ elim (Bool-cases (is_expired e stale now)) [
        | inl gone ↦ rw (miss, gone) later
        | inr here ↦ rw (here, miss) later
      ]
    ]

module _ (to_base64 : List ℕ → Text) (from_base64 : Text → List ℕ) where
  hit_of-unexpired :
      (cfg : CacheConfig) (faults : Faults) (keeps now later : ℕ) (k : Text) (s t : MemoryStore)
      (o : Option CachedEntry)
      → now ≤ later
      → let hit = hit_of to_base64 from_base64 (memory_cache keeps) cfg faults later k in
        (hit t (unexpired cfg.stale_ttl_seconds now o)).0 ≡ (hit s o).0
  hit_of-unexpired cfg faults keeps now later k s t none h = refl
  hit_of-unexpired cfg faults keeps now later k s t (some e) h = ground arith

  -- Evicting what has expired, with the client's own stale window, changes no answer of the cache:
  -- whatever key is looked up then or later, the same response is served, or none, and the same
  -- revalidation is started.
  pub evict_expired_unseen :
      (cfg : CacheConfig) (faults : Faults) (keeps now later : ℕ) (k : Text) (s : MemoryStore)
      → IsDistinct s
      → now ≤ later
      → let hit = try_cache_hit to_base64 from_base64 (memory_cache keeps) cfg faults later k in
        (hit (evict_expired cfg.stale_ttl_seconds now s)).0 ≡ (hit s).0
  unfolding try_cache_hit
  evict_expired_unseen cfg faults keeps now later k s d h = elim (Bool-cases faults.reads_fail) [
    | inl fails ↦ rw fails refl
    | inr works ↦
        rw (works, lookup-evict_expired cfg.stale_ttl_seconds now k s d)
          (hit_of-unexpired cfg faults keeps now later k s
            (evict_expired cfg.stale_ttl_seconds now s) (lookup k s) h)
  ]
