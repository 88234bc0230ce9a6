-- ===== src/Kafka/Consumer/Headers.antt =====
-- What the headers of a dead-letter record say.
use nodejs_basics.Prelude.{
  ℕ, String, false, Option, none, some, List, [], ◌∷◌, ◌≡◌, refl, ap, lookup, insert, lookup-insert,
  arith, eq_iff, string_key, ◌===◌, take, if◌then◌else◌, ◌∙◌,
}
use nodejs_basics.Kafka.Consumer.{HeaderValue, written, units, decimal, Payload, Failure}
use nodejs_basics.Kafka.Consumer.Parking.{
  max_dlq_error_chars, is_dlq_header, own_headers, reason_of, with_dlq_headers, dead_letter,
}

-- The last defined value of a name, or the one that is given.
abbrev pub last_defined :
    String → List (String × Option HeaderValue) → Option HeaderValue → Option HeaderValue
last_defined name [] o = o
last_defined name ((n, none) ∷ rest) o = last_defined name rest o
last_defined name ((n, some v) ∷ rest) o = last_defined name rest (if n === name then some v else o)

lookup-own_header :
    (name n : String) (v : HeaderValue) (out : List (String × HeaderValue))
    → is_dlq_header name ≡ false
    → lookup name (if is_dlq_header n then out else insert n v out)
      ≡ (if n === name then some v else lookup name out)
lookup-own_header name n v out h = ground (arith, lookup-insert n name v out, eq_iff n name)

lookup-own_headers :
    (name : String) (hs : List (String × Option HeaderValue)) (out : List (String × HeaderValue))
    → is_dlq_header name ≡ false
    → lookup name (own_headers hs out) ≡ last_defined name hs (lookup name out)
unfolding own_headers
lookup-own_headers name [] out h = refl
lookup-own_headers name ((n, none) ∷ rest) out h = lookup-own_headers name rest out h
lookup-own_headers name ((n, some v) ∷ rest) out h =
    lookup-own_headers name rest _ h
    ∙ ap (last_defined name rest) (lookup-own_header name n v out h)

lookup-with_dlq_headers :
    (p : Payload) (err : Failure) (failed : ℕ) (name : String) (hs : List (String × HeaderValue))
    → is_dlq_header name ≡ false
    → lookup name (with_dlq_headers p err failed hs) ≡ lookup name hs
unfolding with_dlq_headers is_dlq_header
lookup-with_dlq_headers p err failed name hs h = simp lookup-insert (ground arith)

-- A header of the message that is not one of the six `dlq_` headers is kept as it was.
pub dead_letter-keeps_headers :
    (pattern : String) (p : Payload) (err : Failure) (failed : ℕ) (name : String)
    → is_dlq_header name ≡ false
    → lookup name (dead_letter pattern p err failed).headers
      ≡ last_defined name p.message.headers none
unfolding dead_letter lookup
dead_letter-keeps_headers pattern p err failed name h =
    lookup-with_dlq_headers p err failed name (own_headers p.message.headers []) h
    ∙ lookup-own_headers name p.message.headers [] h

-- The six `dlq_` headers say why, from where and after how many attempts, whatever headers of these
-- names the message came with; the error's text is cut to its first 1024 units.
pub dead_letter-dlq_headers :
    (pattern : String) (p : Payload) (err : Failure) (failed : ℕ)
    → let hs = (dead_letter pattern p err failed).headers in
      (lookup "dlq_reason" hs ≡ some (written (reason_of err.kind)))
      × (lookup "dlq_error" hs ≡ some (units (take max_dlq_error_chars err.text)))
      × (lookup "dlq_source_topic" hs ≡ some (written p.source.topic))
      × (lookup "dlq_source_partition" hs ≡ some (decimal p.source.partition))
      × (lookup "dlq_source_offset" hs ≡ some (decimal p.message.offset))
      × (lookup "dlq_attempts" hs ≡ some (decimal failed))
unfolding dead_letter with_dlq_headers
dead_letter-dlq_headers pattern p err failed =
    simp lookup-insert (refl, refl, refl, refl, refl, refl)
