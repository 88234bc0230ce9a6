-- ===== src/Readiness/Status.antt =====
-- What the readiness status says of the checks, and what registering a check does.
use nodejs_basics.Prelude.{
  String, Bool, false, not, Option, none, some, List, [], ◌∷◌, ◌++◌, map, any, ◌||◌, ◌&&◌, ◌≡◌, ◌↔◌,
  refl, ap, arith, ◌===◌, string_key, if◌then◌else◌, eq_iff, eq_refl,
}
use nodejs_basics.Readiness.{
  ok, degraded, not_ready, ReadinessCheck, Race, Service, put_check, register, is_ok, value_of,
  result_of, Tally, seen, tally, untallied, check,
}

-- The check fails, with its race as given.
abbrev pub fails : (ReadinessCheck → Race) → ReadinessCheck → Bool
fails race entry = not (is_ok (value_of entry (race entry)))

tally_lem :
    (race : ReadinessCheck → Race) (entries : List ReadinessCheck) (t : Tally)
    → let t' = tally (map (result_of race) entries) t in
      (t'.critical_failing
        ≡ (any (λ c. fails race c && not c.optional) entries || t.critical_failing))
      × (t'.optional_failing
          ≡ (any (λ c. fails race c && c.optional) entries || t.optional_failing))
unfolding tally
tally_lem race [] t = (refl, refl)
tally_lem race (c ∷ cs) t = ground (arith, tally_lem race cs (seen (result_of race c) t))

-- The status is `not_ready` exactly if the gate is closed or a critical check fails, else
-- `degraded` if an optional one fails, and else `ok`; the flag `ok` is false exactly for
-- `not_ready`.
pub check_status :
    (s : Service) (race : ReadinessCheck → Race)
    → let all = s.checks ++ s.registered in
      let r = (check s race).1 in
      (r.status ≡ (
        if not s.ready || any (λ c. fails race c && not c.optional) all
        then not_ready
        else if any (λ c. fails race c && c.optional) all
        then degraded
        else ok))
      × ((r.ok ≡ false) ↔ (r.status ≡ not_ready))
unfolding check
check_status s race = ground (arith, tally_lem race (s.checks ++ s.registered) untallied)

-- The check that has a name, among those registered.
unfoldable pub find_check : String → List ReadinessCheck → Option ReadinessCheck
find_check name [] = none
find_check name (c ∷ cs) = if c.name === name then some c else find_check name cs

find-put_check :
    (name : String) (c : ReadinessCheck) (cs : List ReadinessCheck)
    → find_check name (put_check c cs) ≡ (if c.name === name then some c else find_check name cs)
unfolding find_check put_check
find-put_check name c [] = refl
find-put_check name c (x ∷ cs) =
    ground (
      arith,
      find-put_check name c cs,
      eq_iff x.name c.name,
      eq_iff x.name name,
      eq_iff c.name name,
    )

put_check-twice :
    (c : ReadinessCheck) (cs : List ReadinessCheck) → put_check c (put_check c cs) ≡ put_check c cs
unfolding put_check
put_check-twice c [] = ground (arith, eq_refl c.name)
put_check-twice c (x ∷ cs) = ground (arith, put_check-twice c cs, eq_refl c.name)

-- Registering a check makes it the one of its name and leaves the checks of other names as they
-- were; registering it once more changes nothing.
pub find-register :
    (s : Service) (c : ReadinessCheck) (name : String)
    → (find_check name (register s c).registered
        ≡ (if c.name === name then some c else find_check name s.registered))
      × (register (register s c) c ≡ register s c)
unfolding register
find-register s c name = (
  find-put_check name c s.registered,
  ap (λ cs. record s { registered = cs }) (put_check-twice c s.registered),
)
