-- ===== src/Readiness.antt =====
-- packages/observability/src/readiness.service.ts: `ReadinessService`. What a check's race with its
-- timeout settles to is given with the call of `check`. The metric and the shutdown delay are not
-- modelled.
pub mod Status
use nodejs_basics.Prelude.{
  ℕ, String, Bool, true, false, not, Option, none, some, List, [], ◌∷◌, ◌++◌, map, ◌||◌, ◌===◌,
  string_key, insert, if◌then◌else◌,
}

pub data ReadinessStatus : Type 0 where
  ok degraded not_ready : ReadinessStatus

pub record ReadinessCheck : Type 0 where
  pub name : String
  pub timeout_ms : Option ℕ
  pub optional : Bool

-- A check answers with a text or throws with one, or its timeout comes first.
pub data Race : Type 0 where
  answers throws : String → Race
  runs_out : Race

-- The value of a check: a text, or the text `timeout after … ms`.
pub data Value : Type 0 where
  said : String → Value
  timeout_after : ℕ → Value

pub record Result : Type 0 where
  pub name : String
  pub value : Value
  pub optional : Bool

pub record Last : Type 0 where
  pub name : String
  pub up : Bool
  pub optional : Bool

pub record Service : Type 0 where
  pub checks : List ReadinessCheck
  pub registered : List ReadinessCheck
  pub ready : Bool
  pub last : List Last

unfoldable pub new : List ReadinessCheck → Service
new checks = record { checks = checks; registered = []; ready = true; last = [] }

-- Replaces the first check of the name, or appends.
unfoldable pub put_check : ReadinessCheck → List ReadinessCheck → List ReadinessCheck
put_check check [] = check ∷ []
put_check check (c ∷ cs) =
    let rest = put_check check cs in if c.name === check.name then check ∷ cs else c ∷ rest

unfoldable pub register : Service → ReadinessCheck → Service
unfolding put_check
register s check = record s { registered = put_check check s.registered }

unfoldable pub set_ready : Service → Bool → Service
set_ready s ready = record s { ready = ready }

unfoldable pub before_application_shutdown : Service → Service
before_application_shutdown s = record s { ready = false }

abbrev pub is_ok : Value → Bool
is_ok (said text) = text === "ok"
is_ok (timeout_after ms) = false

abbrev or_default : Option ℕ → ℕ
or_default none = 3000
or_default (some ms) = ms

abbrev pub value_of : ReadinessCheck → Race → Value
value_of entry (answers text) = said text
value_of entry (throws message) = said message
value_of entry runs_out = timeout_after (or_default entry.timeout_ms)

abbrev pub result_of : (ReadinessCheck → Race) → ReadinessCheck → Result
result_of race entry = record {
  name = entry.name;
  value = value_of entry (race entry);
  optional = entry.optional;
}

abbrev pub last_of : Result → Last
last_of r = record { name = r.name; up = is_ok r.value; optional = r.optional }

pub record Tally : Type 0 where
  pub checks : List (String × Value)
  pub critical_failing : Bool
  pub optional_failing : Bool

-- The loop over the results, and its body.
abbrev pub seen : Result → Tally → Tally
seen r t =
    let noted = record t { checks = insert r.name r.value t.checks } in
    if is_ok r.value
    then noted
    else if r.optional
    then record noted { optional_failing = true }
    else record noted { critical_failing = true }

unfoldable pub tally : List Result → Tally → Tally
tally [] t = t
tally (r ∷ rs) t = tally rs (seen r t)

abbrev pub status_of : Bool → Tally → ReadinessStatus
status_of ready t =
    if not ready || t.critical_failing
    then not_ready
    else if t.optional_failing
    then degraded
    else ok

pub record ReadinessResult : Type 0 where
  pub status : ReadinessStatus
  pub ok : Bool
  pub checks : List (String × Value)

abbrev pub is_not_ready : ReadinessStatus → Bool
is_not_ready not_ready = true
is_not_ready _ = false

abbrev pub untallied : Tally
untallied = record { checks = []; critical_failing = false; optional_failing = false }

unfoldable pub check : Service → (ReadinessCheck → Race) → Service × ReadinessResult
unfolding tally
check s race =
    let results = map (result_of race) (s.checks ++ s.registered) in
    let t = tally results untallied in
    let status = status_of s.ready t in
    (
      record s { last = map last_of results },
      record { status = status; ok = not (is_not_ready status); checks = t.checks },
    )
