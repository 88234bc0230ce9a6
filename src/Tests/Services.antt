-- ===== src/Tests/Services.antt =====
-- Runs of the log level, the readiness checks, the concurrency limiter and the request budget.
use nodejs_basics.Prelude.{◌≤◌, true, false, none, some, [], ◌∷◌, ◌≡◌, ◌⊎◌, refl, arith, string_key}
use nodejs_basics.Prelude.Int.{pos}
use nodejs_basics.LogLevel
use nodejs_basics.LogLevel.{info, debug}
use nodejs_basics.LogLevel.Durations.{format_duration, parsed_total, parsed_total-format_duration}
use nodejs_basics.LogLevel.Expiry.{fire_all, expires_to_base}
use nodejs_basics.Readiness
use nodejs_basics.Readiness.{ReadinessCheck, Race, not_ready, degraded}
use nodejs_basics.Concurrency
use nodejs_basics.Concurrency.Limit.{IsWithin, run-limit}

abbrev changed_once : LogLevel.LogLevel
changed_once = record {
  base = info;
  max_ttl_ms = 1000;
  current = debug;
  generation = 1;
  expires = some 60;
  timer = some 1;
  told = [];
}

expires_to_base_example :
    let changed = LogLevel.set changed_once debug (pos 50) 20 in
    let ended = LogLevel.revert (fire_all changed (1 ∷ [])) 2 in
    (fire_all changed (1 ∷ []) ≡ changed)
    × (ended.current ≡ info)
    × (ended.expires ≡ none)
    × (ended.timer ≡ none)
expires_to_base_example = expires_to_base changed_once debug 49 20 (1 ∷ []) (omega arith, tt)

abbrev cache : ReadinessCheck
cache = record { name = "cache"; timeout_ms = none; optional = true }

abbrev service : Readiness.Service
service = record { checks = []; registered = cache ∷ []; ready = true; last = [] }

abbrev race : ReadinessCheck → Race
race c = Readiness.runs_out

cache_is_degraded : (Readiness.check service race).1.status ≡ degraded
unfolding Readiness.check
cache_is_degraded = refl

abbrev limiter : Concurrency.Limiter
limiter = record {
  limit = 1;
  min_limit = 1;
  max_limit = 10;
  backoff_factor = record { part = 9; whole = 10 };
  target_rtt_factor = record { part = 2; whole = 1 };
  in_flight = 0;
  min_rtt = none;
  waiters = 0;
  woken = 0;
}

limiter-IsWithin : IsWithin limiter
limiter-IsWithin = record {
  factor = omega arith;
  whole = omega arith;
  low = omega arith;
  high = omega arith;
  one = omega arith;
}

run-limit_example :
    let l =
      Concurrency.run limiter
        (Concurrency.acquires ∷ Concurrency.acquires ∷ Concurrency.releases 5 false ∷ []) in
    (l.min_limit ≤ l.limit)
    × (l.limit ≤ l.max_limit)
    × ((l.waiters ≡ 0) ⊎ (l.limit ≤ l.in_flight))
    × ((l.in_flight ≡ 0) → (l.waiters ≡ 0))
run-limit_example =
    run-limit limiter
      (Concurrency.acquires ∷ Concurrency.acquires ∷ Concurrency.releases 5 false ∷ [])
      limiter-IsWithin refl

parsed_total-format_duration_example : parsed_total (format_duration 5405007) ≡ 5405007
parsed_total-format_duration_example = parsed_total-format_duration 5405007
