-- ===== src/LogLevel.antt =====
-- packages/logger/src/log-level.ts: the class `LogLevel` and `formatDuration`. Times are
-- milliseconds. The callback `onChange` is the list `told` of what it was told, the latest first.
pub mod Expiry
pub mod Durations
use nodejs_basics.Prelude.{
  ℕ, zero, suc, ◌+◌, min, Bool, true, false, Option, none, some, List, [], ◌∷◌, leb, ◌==◌,
  if◌then◌else◌,
}
use nodejs_basics.Prelude.Int.{ℤ, pos, negsuc}

pub data LogLevelName : Type 0 where
  trace debug info warn error fatal silent : LogLevelName

-- `LOG_LEVEL_VALUES`; `none` is Infinity.
abbrev pub log_level_value : LogLevelName → Option ℕ
log_level_value trace = some 10
log_level_value debug = some 20
log_level_value info = some 30
log_level_value warn = some 40
log_level_value error = some 50
log_level_value fatal = some 60
log_level_value silent = none

pub data Reason : Type 0 where
  by_set by_reset expired : Reason

pub record Told : Type 0 where
  pub level : LogLevelName
  pub previous : LogLevelName
  pub reason : Reason

-- `timer` is the generation that the armed timer was made for.
pub record LogLevel : Type 0 where
  pub base : LogLevelName
  pub max_ttl_ms : ℕ
  pub current : LogLevelName
  pub generation : ℕ
  pub expires : Option ℕ
  pub timer : Option ℕ
  pub told : List Told

unfoldable pub new : LogLevelName → ℕ → LogLevel
new base max_ttl_ms = record {
  base = base;
  max_ttl_ms = max_ttl_ms;
  current = base;
  generation = 0;
  expires = none;
  timer = none;
  told = [];
}

abbrev at_least : Option ℕ → ℕ → Bool
at_least none level_value = false
at_least (some value) level_value = leb value level_value

unfoldable pub enabled : LogLevel → ℕ → Bool
enabled s level_value = at_least (log_level_value s.current) level_value

-- `if (ttlMs > 0) { … }` at the time `now`.
abbrev pub arm : LogLevel → ℤ → ℕ → LogLevel
arm s (pos (suc n)) now = record s {
  expires = some (now + min (suc n) s.max_ttl_ms);
  timer = some s.generation;
}
arm s _ now = s

unfoldable pub change : LogLevel → LogLevelName → ℤ → Reason → ℕ → LogLevel
change s level ttl reason now =
    let changed = record s {
      generation = s.generation + 1;
      timer = none;
      expires = none;
      current = level;
    } in
    let armed = arm changed ttl now in
    record armed { told = record { level = level; previous = s.current; reason = reason } ∷ s.told }

unfoldable pub set : LogLevel → LogLevelName → ℤ → ℕ → LogLevel
unfolding change
set s level ttl now = change s level ttl by_set now

unfoldable pub reset : LogLevel → ℕ → LogLevel
unfolding change
reset s now = change s s.base (pos 0) by_reset now

unfoldable pub revert : LogLevel → (generation : ℕ) → LogLevel
revert s generation =
    if generation == s.generation
    then record s {
      timer = none;
      expires = none;
      current = s.base;
      told = record { level = s.base; previous = s.current; reason = expired } ∷ s.told;
    }
    else s

-- Calls, and timers that fire: any timer that was ever made, also one that is cleared.
pub data Event : Type 0 where
  sets : LogLevelName → (ttl : ℤ) → (now : ℕ) → Event
  resets : (now : ℕ) → Event
  fires : (generation : ℕ) → Event

unfoldable pub step : LogLevel → Event → LogLevel
unfolding set reset revert
step s (sets level ttl now) = set s level ttl now
step s (resets now) = reset s now
step s (fires generation) = revert s generation

unfoldable pub run : LogLevel → List Event → LogLevel
run s [] = s
run s (e ∷ es) = run (step s e) es

pub data TimeUnit : Type 0 where
  hours minutes seconds milliseconds : TimeUnit
