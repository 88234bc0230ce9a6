-- ===== src/Client/Options/Told.antt =====
-- The budget that a request tells is the one that the next service reads.
use nodejs_basics.Prelude.{
  ℕ, ◌≤◌, ◌<◌, max, Bool, true, false, All, [], ◌∷◌, ◌++◌, insert, insert-All, Bool-cases, inl, inr,
  Option, none, some, ◌≡◌, refl, ◌∙◌, ap, arith, length, leb,
}
use nodejs_basics.Prelude.Texts.{Text, codes, text_beq, text_beq_iff, text_key, lower}
use nodejs_basics.Prelude.Decimal.{decimal, decimal_lem, length-decimal}
use nodejs_basics.Deadline.{one, parse_timeout_ms, timeout_of}
use nodejs_basics.Client.Options.{
  Headers, Options, normalize_headers, forward_request_id, apply_short_lived, apply_user_agent,
  prepare, with_budget,
}

timeout_of-decimal : (ms : ℕ) → 1 ≤ ms → ms < 1000000000 → timeout_of (some (decimal ms)) ≡ some ms
timeout_of-decimal ms h l =
    let (digits, number, some_digit) = decimal_lem ms in
    let short : length (decimal ms) ≤ 9 = length-decimal ms 8 (omega arith) in
    let a : leb 1 (length (decimal ms)) ≡ true = ground arith in
    let b : leb (length (decimal ms)) 9 ≡ true = ground arith in
    let c : leb 1 ms ≡ true = ground arith in rw (a, b, digits, number, c) refl

-- What the receiver has under a name in lower case: the values of all headers that are spelled like it in
-- whatever case, joined.
abbrev pub join_values : Bool → Text → Option Text → Option Text
join_values false value rest = rest
join_values true value none = some value
join_values true value (some rest) = some (value ++ (codes ", " ++ rest))

unfoldable pub received : Text → Headers → Option Text
received name [] = none
received name ((key, value) ∷ headers) =
    join_values (text_beq (lower key) name) value (received name headers)

-- No header is spelled like the name, in whatever case.
abbrev pub IsWithout : Text → Headers → Type 0
IsWithout name headers = All (λ h. text_beq (lower h.0) name ≡ false) headers

insert-IsWithout :
    (name key value : Text) (headers : Headers)
    → text_beq (lower key) name ≡ false
    → IsWithout name headers
    → IsWithout name (insert key value headers)
insert-IsWithout name key value headers other h =
    insert-All (λ k v. text_beq (lower k) name ≡ false) key value headers other h

received-insert :
    (name value : Text) (headers : Headers)
    → text_beq (lower name) name ≡ true
    → IsWithout name headers
    → received name (insert name value headers) ≡ some value
unfolding received insert
received-insert name value [] own h = rw own refl
received-insert name value ((key, before) ∷ headers) own (other, h) =
    elim (Bool-cases (text_beq key name)) [
      | inl hit ↦
          let same : key ≡ name = (text_beq_iff key name).0 hit in
          let bad : text_beq (lower name) name ≡ false = rw same at other in absurd (cc)
      | inr miss ↦ simp (miss, other) (received-insert name value headers own h)
    ]

abbrev budget_name : Text
budget_name = codes "x-request-timeout-ms"

abbrev names_of : Options → Headers
unfolding normalize_headers
names_of opts = normalize_headers opts.headers

forward_request_id-IsWithout :
    (request_id : Option Text) (opts : Options)
    → IsWithout budget_name (names_of opts)
    → IsWithout budget_name (names_of (forward_request_id request_id opts))
unfolding forward_request_id normalize_headers
forward_request_id-IsWithout none opts h = h
forward_request_id-IsWithout (some id) opts h =
    insert-IsWithout budget_name (codes "x-request-id") id (names_of opts) refl h

apply_short_lived-IsWithout :
    (short_lived : Bool) (opts : Options)
    → IsWithout budget_name (names_of opts)
    → IsWithout budget_name (names_of (apply_short_lived short_lived opts))
unfolding apply_short_lived normalize_headers
apply_short_lived-IsWithout false opts h = h
apply_short_lived-IsWithout true opts h =
    insert-IsWithout budget_name (codes "connection") (codes "close") (names_of opts) refl h

apply_user_agent-IsWithout :
    (agent : Option Text) (opts : Options)
    → IsWithout budget_name (names_of opts)
    → IsWithout budget_name (names_of (apply_user_agent agent opts))
unfolding apply_user_agent normalize_headers
apply_user_agent-IsWithout none opts h = h
apply_user_agent-IsWithout (some agent) opts h = elim (Bool-cases (text_beq agent [])) [
  | inl empty ↦ rw empty h
  | inr full ↦
      rw full (insert-IsWithout budget_name (codes "user-agent") agent (names_of opts) refl h)
]

-- What the receiver of a header reads.
abbrev pub read_timeout : Option Text → Option ℕ
unfolding parse_timeout_ms
read_timeout none = none
read_timeout (some raw) = parse_timeout_ms (one raw)

pub budget_is_told :
    (request_id : Option Text) (short_lived : Bool) (agent : Option Text) (opts : Options)
    (left_ms : ℕ)
    → All
        (λ h. text_beq (lower h.0) (codes "x-request-timeout-ms") ≡ false)
        (normalize_headers opts.headers)
    → left_ms < 1000000000
    → read_timeout (
        received (codes "x-request-timeout-ms") (
          normalize_headers
            (with_budget decimal (prepare request_id short_lived agent opts) left_ms).headers))
      ≡ some (max 1 left_ms)
unfolding parse_timeout_ms read_timeout with_budget prepare normalize_headers
budget_is_told request_id short_lived agent opts left_ms none_own l =
    let clean =
      apply_user_agent-IsWithout agent
        (apply_short_lived short_lived (forward_request_id request_id opts))
        (apply_short_lived-IsWithout short_lived (forward_request_id request_id opts)
          (forward_request_id-IsWithout request_id opts none_own)) in
    let sent =
      received-insert budget_name (decimal (max 1 left_ms))
        (names_of (prepare request_id short_lived agent opts)) refl clean in
    ap read_timeout sent ∙ timeout_of-decimal (max 1 left_ms) (omega arith) (omega arith)
