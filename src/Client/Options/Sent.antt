-- ===== src/Client/Options/Sent.antt =====
-- Which headers go out.
use nodejs_basics.Prelude.{
  ℕ, Bool, true, false, Option, none, some, [], ◌≡◌, refl, lookup, lookup-insert, ap, ◌∙◌, max,
  Bool-cases, inl, inr, if◌then◌else◌,
}
use nodejs_basics.Prelude.Texts.{Text, codes, text_key, text_beq}
use nodejs_basics.Client.Options.{
  Options, normalize_headers, with_header, forward_request_id, apply_short_lived, apply_user_agent,
  with_budget, prepare,
}

-- The header `name` of a request, as it goes out.
abbrev pub header_of : Text → Options → Option Text
unfolding normalize_headers
header_of name opts = lookup name (normalize_headers opts.headers)

-- A header that is set, and one that is set only where the client has a value for it.
abbrev pub override : Text → Option Text → (name : Text) → Option Text → Option Text
override key none name before = before
override key (some value) name before = if text_beq key name then some value else before

abbrev pub non_empty : Option Text → Option Text
non_empty none = none
non_empty (some text) = if text_beq text [] then none else some text

header_of-with_header :
    (name key value : Text) (opts : Options)
    → header_of name (with_header key value opts)
      ≡ override key (some value) name (header_of name opts)
unfolding normalize_headers
header_of-with_header name key value opts =
    lookup-insert key name value (normalize_headers opts.headers)

header_of-forward_request_id :
    (name : Text) (request_id : Option Text) (opts : Options)
    → header_of name (forward_request_id request_id opts)
      ≡ override (codes "x-request-id") request_id name (header_of name opts)
unfolding forward_request_id
header_of-forward_request_id name none opts = refl
header_of-forward_request_id name (some id) opts =
    header_of-with_header name (codes "x-request-id") id opts

header_of-apply_short_lived :
    (name : Text) (short_lived : Bool) (opts : Options)
    → header_of name (apply_short_lived short_lived opts)
      ≡ override
          (codes "connection")
          (if short_lived then some (codes "close") else none)
          name
          (header_of name opts)
unfolding apply_short_lived
header_of-apply_short_lived name false opts = refl
header_of-apply_short_lived name true opts =
    header_of-with_header name (codes "connection") (codes "close") opts

header_of-apply_user_agent :
    (name : Text) (agent : Option Text) (opts : Options)
    → header_of name (apply_user_agent agent opts)
      ≡ override (codes "user-agent") (non_empty agent) name (header_of name opts)
unfolding apply_user_agent
header_of-apply_user_agent name none opts = refl
header_of-apply_user_agent name (some agent) opts = elim (Bool-cases (text_beq agent [])) [
  | inl empty ↦ rw empty refl
  | inr full ↦ rw full (header_of-with_header name (codes "user-agent") agent opts)
]

agent_keeps_signal :
    (agent : Option Text) (opts : Options) → (apply_user_agent agent opts).signal ≡ opts.signal
unfolding apply_user_agent
agent_keeps_signal none opts = refl
agent_keeps_signal (some agent) opts = elim (Bool-cases (text_beq agent [])) [
  | inl empty ↦ rw empty refl
  | inr full ↦ rw full refl
]

keeps_signal :
    (request_id : Option Text) (short_lived : Bool) (opts : Options)
    → (apply_short_lived short_lived (forward_request_id request_id opts)).signal ≡ opts.signal
unfolding forward_request_id apply_short_lived
keeps_signal none false opts = refl
keeps_signal none true opts = refl
keeps_signal (some id) false opts = refl
keeps_signal (some id) true opts = refl

-- Whatever headers the caller gave, a request that goes out with a budget has the time that is left,
-- at least 1 ms, the client's agent unless that is empty, `connection: close` if connections are
-- short-lived, and the request id if there is one; each replaces what the caller put under the same
-- name in lower case, and every other header is the caller's.
-- The request is cancelled when the time is up, or by the caller's own signal.
pub sent_headers :
    (to_string : ℕ → Text) (request_id : Option Text) (short_lived : Bool) (agent : Option Text)
    (opts : Options) (left_ms : ℕ) (name : Text)
    → let sent = with_budget to_string (prepare request_id short_lived agent opts) left_ms in
      (header_of name sent
        ≡ override (codes "x-request-timeout-ms") (some (to_string (max 1 left_ms))) name (
            override (codes "user-agent") (non_empty agent) name (
              override
                (codes "connection")
                (if short_lived then some (codes "close") else none)
                name
                (override (codes "x-request-id") request_id name (header_of name opts)))))
      × (sent.signal ≡ record { own = opts.signal.own; after_ms = some left_ms })
unfolding with_budget prepare apply_user_agent header_of
sent_headers to_string request_id short_lived agent opts left_ms name =
    let told = apply_short_lived short_lived (forward_request_id request_id opts) in
    let agent_set = header_of-apply_user_agent name agent told in
    let short = header_of-apply_short_lived name short_lived (forward_request_id request_id opts) in
    let id = header_of-forward_request_id name request_id opts in
    let sent =
      header_of-with_header name (codes "x-request-timeout-ms") (to_string (max 1 left_ms))
        (prepare request_id short_lived agent opts) in
    (
      sent
          ∙ ap (override (codes "x-request-timeout-ms") (some (to_string (max 1 left_ms))) name) (
              agent_set
              ∙ ap (override (codes "user-agent") (non_empty agent) name) (
                  short
                  ∙ ap
                      (override (codes "connection")
                        (if short_lived then some (codes "close") else none) name)
                      id)),
      rw (agent_keeps_signal agent told, keeps_signal request_id short_lived opts) refl,
    )
