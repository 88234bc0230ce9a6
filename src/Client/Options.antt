-- ===== src/Client/Options.antt =====
-- packages/resilient-client/src/resilient-client.ts, the options of a request and its header helpers
-- `#withBudget` to `#normalizeHeaders`. A header object is an association list in which `insert`
-- assigns; `String` on numbers is a parameter.
pub mod Sent
pub mod Told
use nodejs_basics.Prelude.{
  ℕ, Bool, true, false, Option, none, some, List, [], ◌∷◌, map, insert, max, if◌then◌else◌,
}
use nodejs_basics.Prelude.Texts.{Text, codes, text_key, text_beq, lower}

abbrev pub Headers : Type 0
Headers = List (Text × Text)

-- Headers as undici takes them: none, names and values in turn, or an object.
pub data Given : Type 0 where
  absent : Given
  listed : List Text → Given
  named : Headers → Given

-- What cancels a request: the caller's signal, and after so many milliseconds.
pub record Signal : Type 0 where
  pub own : Option ℕ
  pub after_ms : Option ℕ

pub record Options : Type 0 where
  pub method : Option Text
  pub path : Option Text
  pub headers : Given
  pub signal : Signal

-- The loop of `#normalizeHeaders` over a list: a last name without a value is left out.
abbrev pub pairs_into : Headers → List Text → Headers
pairs_into out [] = out
pairs_into out (name ∷ []) = out
pairs_into out (name ∷ value ∷ rest) = pairs_into (insert (lower name) value out) rest

-- `#normalizeHeaders`
unfoldable pub normalize_headers : Given → Headers
normalize_headers absent = []
normalize_headers (listed existing) = pairs_into [] existing
normalize_headers (named existing) = existing

abbrev pub with_header : Text → Text → Options → Options
with_header name value opts = record {
  method = opts.method;
  path = opts.path;
  headers = named (insert name value (normalize_headers opts.headers));
  signal = opts.signal;
}

-- `#forwardRequestId`
unfoldable pub forward_request_id : Option Text → Options → Options
forward_request_id none opts = opts
forward_request_id (some request_id) opts = with_header (codes "x-request-id") request_id opts

-- `#applyShortLived`
unfoldable pub apply_short_lived : Bool → Options → Options
apply_short_lived false opts = opts
apply_short_lived true opts = with_header (codes "connection") (codes "close") opts

-- `#applyUserAgent`
unfoldable pub apply_user_agent : Option Text → Options → Options
apply_user_agent none opts = opts
apply_user_agent (some agent) opts =
    if text_beq agent [] then opts else with_header (codes "user-agent") agent opts

-- `#withBudget`, for a whole number of milliseconds left
unfoldable pub with_budget : (to_string : ℕ → Text) → Options → (left_ms : ℕ) → Options
with_budget to_string opts left_ms =
    let told = with_header (codes "x-request-timeout-ms") (to_string (max 1 left_ms)) opts in
    record {
      method = told.method;
      path = told.path;
      headers = told.headers;
      signal = record { own = opts.signal.own; after_ms = some left_ms };
    }

-- What `request` sends: the id, then the connection's end, then the agent.
unfoldable pub prepare :
    (request_id : Option Text) (short_lived : Bool) (agent : Option Text) → Options → Options
unfolding forward_request_id apply_short_lived apply_user_agent
prepare request_id short_lived agent opts =
    apply_user_agent agent (apply_short_lived short_lived (forward_request_id request_id opts))
