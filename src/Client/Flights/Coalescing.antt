-- ===== src/Client/Flights/Coalescing.antt =====
-- At most one coalesced request per key is under way, and who joins one joins that of its key.
use nodejs_basics.Prelude.{
  ℕ, true, Option, none, some, List, ◌≡◌, ◌≢◌, refl, arith, nat_key, lookup, lookup-erase_self,
}
use nodejs_basics.Prelude.Texts.{Text, text_key}
use nodejs_basics.Client.Flights.{
  Flight, Flights, no_flights, Begun, issued, joined, begin, settle, Event, run, join_or_launch,
}
use nodejs_basics.Client.Flights.Consistent.{
  IsConsistent, run-IsConsistent, no_flights-IsConsistent,
}

-- What a request finds that begins under a key: the promise of that key that is under way, if there
-- is one; else it is a new one.
abbrev pub Finds : Text → Flights → Begun → Type 0
Finds k s (joined id) =
    (f : Flight) × (lookup id s.under_way ≡ some f) × (f.registered ≡ some k) × (f.wanted ≡ some k)
Finds k s (issued id) =
    (lookup id s.under_way ≡ none)
    × ((i : ℕ) (f : Flight) → lookup i s.under_way ≡ some f → f.registered ≢ some k)

join_or_launch-Finds :
    (k : Text) (o : Option ℕ) (s : Flights)
    → lookup k s.inflight ≡ o
    → IsConsistent s
    → Finds k s (join_or_launch k o s).0
join_or_launch-Finds k (some id) s q c = c.flying k id q
join_or_launch-Finds k none s q c =
    (c.unused s.next (omega arith), λ i f l r. let there = c.listed i f k l r in absurd (cc))

settled_free :
    (k : Text) (i : ℕ) (f : Flight) (s : Flights)
    → lookup i s.under_way ≡ some f
    → f.registered ≡ some k
    → (begin true (some k) (settle i s)).0 ≡ issued s.next
unfolding begin settle
settled_free k i f s here r = rw (here, r, lookup-erase_self k s.inflight) refl

-- With coalescing, after any requests and ends of requests: at most one registered promise per key is
-- under way, and the next request for a key joins that one, which was made for the same key, or, only
-- if there is none, goes out as a new one. Once the promise has settled the next one does.
pub single_flight :
    (es : List Event) (k : Text)
    → let s = run true es no_flights in
      ((i j : ℕ) (f g : Flight)
        → lookup i s.under_way ≡ some f
        → lookup j s.under_way ≡ some g
        → f.registered ≡ some k
        → g.registered ≡ some k
        → i ≡ j)
      × Finds k s (begin true (some k) s).0
      × ((i : ℕ) (f : Flight)
          → lookup i s.under_way ≡ some f
          → f.registered ≡ some k
          → (begin true (some k) (settle i s)).0 ≡ issued s.next)
unfolding begin
single_flight es k =
    let s = run true es no_flights in
    let c = run-IsConsistent true es no_flights no_flights-IsConsistent in
    (
      λ i j f g here there rf rg.
          let first = c.listed i f k here rf in
          let second = c.listed j g k there rg in let same : some i ≡ some j = cc in cc,
      join_or_launch-Finds k (lookup k s.inflight) s refl c,
      λ i f here r. settled_free k i f s here r,
    )
