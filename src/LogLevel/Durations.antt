-- ===== src/LogLevel/Durations.antt =====
-- packages/logger/src/log-level.ts, `DURATION_UNITS` and `formatDuration`, with the sum that
-- `parseDuration` takes over the parts that it reads.
use nodejs_basics.Prelude.{
  ℕ, ◌+◌, ◌-◌, ◌*◌, ◌/◌, List, [], ◌∷◌, ◌++◌, ◌≡◌, arith, ◌==◌, if◌then◌else◌,
}
use nodejs_basics.LogLevel.{TimeUnit, hours, minutes, seconds, milliseconds}

abbrev pub duration_unit : TimeUnit → ℕ
duration_unit hours = 3600000
duration_unit minutes = 60000
duration_unit seconds = 1000
duration_unit milliseconds = 1

abbrev part : ℕ → TimeUnit → List (ℕ × TimeUnit)
part n unit = if n == 0 then [] else (n, unit) ∷ []

-- `formatDuration` as the numbers and units that it joins; `ms <= 0` is `0s`.
unfoldable pub format_duration : ℕ → List (ℕ × TimeUnit)
format_duration ms =
    let h = ms / duration_unit hours in
    let rest_h = ms - h * duration_unit hours in
    let m = rest_h / duration_unit minutes in
    let rest_m = rest_h - m * duration_unit minutes in
    let s = rest_m / duration_unit seconds in
    let rest_s = rest_m - s * duration_unit seconds in
    if ms == 0
    then (0, seconds) ∷ []
    else part h hours ++ (part m minutes ++ (part s seconds ++ part rest_s milliseconds))

-- The loop of `parseDuration` over whole numbers with their units.
unfoldable pub parsed_total : List (ℕ × TimeUnit) → ℕ
parsed_total [] = 0
parsed_total ((n, unit) ∷ parts) = n * duration_unit unit + parsed_total parts

parsed_total-append :
    (xs ys : List (ℕ × TimeUnit)) → parsed_total (xs ++ ys) ≡ parsed_total xs + parsed_total ys
unfolding parsed_total
parsed_total-append [] ys = omega arith
parsed_total-append (x ∷ xs) ys = omega (arith, parsed_total-append xs ys)

parsed_total-part : (n : ℕ) (unit : TimeUnit) → parsed_total (part n unit) ≡ n * duration_unit unit
unfolding parsed_total
parsed_total-part n unit = ground arith

total_of_parts :
    (h m s r : ℕ)
    → parsed_total (part h hours ++ (part m minutes ++ (part s seconds ++ part r milliseconds)))
      ≡ h * 3600000 + (m * 60000 + (s * 1000 + r))
total_of_parts h m s r = omega (
  arith,
  parsed_total-append (part h hours) (part m minutes ++ (part s seconds ++ part r milliseconds)),
  parsed_total-append (part m minutes) (part s seconds ++ part r milliseconds),
  parsed_total-append (part s seconds) (part r milliseconds),
  parsed_total-part h hours,
  parsed_total-part m minutes,
  parsed_total-part s seconds,
  parsed_total-part r milliseconds,
)

pub parsed_total-format_duration : (ms : ℕ) → parsed_total (format_duration ms) ≡ ms
unfolding format_duration parsed_total
parsed_total-format_duration ms =
    let h = ms / 3600000 in
    let rest_h = ms - h * 3600000 in
    let m = rest_h / 60000 in
    let rest_m = rest_h - m * 60000 in
    let s = rest_m / 1000 in ground (arith, total_of_parts h m s (rest_m - s * 1000))
