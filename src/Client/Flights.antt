-- ===== src/Client/Flights.antt =====
-- packages/resilient-client/src/resilient-client.ts, `#inflightMap` as `request` uses it: the
-- promises of requests under way, by number, and the key under which one is registered. `begin` is
-- the part of `request` from the look into the map to the entry in it, in which nothing else runs;
-- `settle` is the end of a promise with its `finally`.
pub mod Consistent
pub mod Coalescing
use nodejs_basics.Prelude.{
  ℕ, ◌+◌, Bool, true, false, Option, none, some, List, [], ◌∷◌, nat_key, lookup, insert, erase,
}
use nodejs_basics.Prelude.Texts.{Text, text_key}

-- `registered`: the key of the promise in the map; `wanted`: the key of the request.
pub record Flight : Type 0 where
  pub registered : Option Text
  pub wanted : Option Text

pub record Flights : Type 0 where
  pub inflight : List (Text × ℕ)
  pub under_way : List (ℕ × Flight)
  pub next : ℕ

abbrev pub no_flights : Flights
no_flights = record { inflight = []; under_way = []; next = 0 }

-- A request is under way as a new promise, or waits for the promise of another one.
pub data Begun : Type 0 where
  issued joined : (id : ℕ) → Begun

abbrev pub launch : Flight → List (Text × ℕ) → Flights → Flights
launch f inflight s = record {
  inflight = inflight;
  under_way = insert s.next f s.under_way;
  next = s.next + 1;
}

abbrev pub launch_alone : Option Text → Flights → Begun × Flights
launch_alone wanted s =
    (issued s.next, launch (record { registered = none; wanted = wanted }) s.inflight s)

abbrev pub join_or_launch : Text → Option ℕ → Flights → Begun × Flights
join_or_launch k (some id) s = (joined id, s)
join_or_launch k none s = (
  issued s.next,
  launch (record { registered = some k; wanted = some k }) (insert k s.next s.inflight) s,
)

unfoldable pub begin : (coalesce : Bool) → Option Text → Flights → Begun × Flights
begin coalesce none s = launch_alone none s
begin false (some k) s = launch_alone (some k) s
begin true (some k) s = join_or_launch k (lookup k s.inflight) s

abbrev pub unregistered : Option Text → List (Text × ℕ) → List (Text × ℕ)
unregistered none inflight = inflight
unregistered (some k) inflight = erase k inflight

abbrev pub landed : ℕ → Option Flight → Flights → Flights
landed id none s = s
landed id (some f) s = record {
  inflight = unregistered f.registered s.inflight;
  under_way = erase id s.under_way;
  next = s.next;
}

unfoldable pub settle : ℕ → Flights → Flights
settle id s = landed id (lookup id s.under_way) s

-- Requests begin and promises settle in any order.
pub data Event : Type 0 where
  begins : (wanted : Option Text) → Event
  settles : (id : ℕ) → Event

abbrev pub step : (coalesce : Bool) → Event → Flights → Flights
unfolding begin settle
step coalesce (begins wanted) s = (begin coalesce wanted s).1
step coalesce (settles id) s = settle id s

abbrev pub run : (coalesce : Bool) → List Event → Flights → Flights
run coalesce [] s = s
run coalesce (e ∷ es) s = run coalesce es (step coalesce e s)
