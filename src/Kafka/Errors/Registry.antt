-- ===== src/Kafka/Errors/Registry.antt =====
-- What the registry of send errors promises its callers.
use nodejs_basics.Prelude.{
  Bool, true, false, Option, none, some, List, [], ◌∷◌, lookup, lookup-sound, insert-All, ◌≡◌, refl,
  ◌↔◌, arith, All, All-mem, All-of_mem, Memᴰ, subst, ap, sym,
}
use nodejs_basics.Prelude.Int.{ℤ, int_key}
use nodejs_basics.Kafka.Errors.{
  Kind, Err, code, spec, kinds, kind_by_code, other, to_kafka_send_error, rejected, unknown,
  kind_of_code, add_codes, add_kinds, or_unknown, not_connected, queue_full, unavailable,
  not_provisioned, fatal,
}

-- The code `e` is classified as `k`.
abbrev IsFound : Kind → Err → Type 0
IsFound k e = lookup (code e) kind_by_code ≡ some k

-- No code is shadowed: each code that a kind lists is classified as that kind.
registry_consistent : All (λ k. All (IsFound k) (spec k).codes) kinds
unfolding kind_by_code lookup
registry_consistent = ground arith

-- `c` is the number of a code that the registry lists under `k`.
abbrev pub IsListed : ℤ → Kind → Type 0
IsListed c k = (e : Err) × Memᴰ e (spec k).codes × (c ≡ code e)

add_codes-IsListed :
    (k : Kind) (es : List Err) (m : List (ℤ × Kind))
    → All (λ e. IsListed (code e) k) es
    → All (λ p. IsListed p.0 p.1) m
    → All (λ p. IsListed p.0 p.1) (add_codes k es m)
unfolding add_codes
add_codes-IsListed k [] m h g = g
add_codes-IsListed k (e ∷ es) m h g =
    add_codes-IsListed k es _ h.1 (insert-All IsListed (code e) k m h.0 g)

add_kinds-IsListed :
    (ks : List Kind) (m : List (ℤ × Kind))
    → All (λ p. IsListed p.0 p.1) m
    → All (λ p. IsListed p.0 p.1) (add_kinds ks m)
unfolding add_kinds
add_kinds-IsListed [] m g = g
add_kinds-IsListed (k ∷ ks) m g =
    add_kinds-IsListed ks _
      (add_codes-IsListed k (spec k).codes m (All-mem _ _ (λ e i. (e, i, refl))) g)

Kind-mem : (k : Kind) → Memᴰ k kinds
Kind-mem not_connected = Memᴰ.head refl
Kind-mem queue_full = Memᴰ.tail (Memᴰ.head refl)
Kind-mem unavailable = Memᴰ.tail (Memᴰ.tail (Memᴰ.head refl))
Kind-mem not_provisioned = Memᴰ.tail (Memᴰ.tail (Memᴰ.tail (Memᴰ.head refl)))
Kind-mem fatal = Memᴰ.tail (Memᴰ.tail (Memᴰ.tail (Memᴰ.tail (Memᴰ.head refl))))
Kind-mem rejected = Memᴰ.tail (Memᴰ.tail (Memᴰ.tail (Memᴰ.tail (Memᴰ.tail (Memᴰ.head refl)))))
Kind-mem unknown =
    Memᴰ.tail (Memᴰ.tail (Memᴰ.tail (Memᴰ.tail (Memᴰ.tail (Memᴰ.tail (Memᴰ.head refl))))))

-- The map from codes to kinds holds exactly what the registry lists.
kind_by_code_iff : (c : ℤ) (k : Kind) → (lookup c kind_by_code ≡ some k) ↔ IsListed c k
unfolding kind_by_code
kind_by_code_iff c k = (
  λ q. lookup-sound IsListed c kind_by_code (add_kinds-IsListed kinds [] tt) q,
  λ l.
      subst (λ d. lookup d kind_by_code ≡ some k) (sym l.2)
        (All-of_mem (IsFound k) (spec k).codes
          (All-of_mem (λ j. All (IsFound j) (spec j).codes) kinds registry_consistent (Kind-mem k))
          l.1),
)

-- Of the kinds only `rejected` is not retryable.
retryable_iff : (k : Kind) → ((spec k).retryable ≡ false) ↔ (k ≡ rejected)
retryable_iff k = ground arith

or_unknown-rejected : (o : Option Kind) → or_unknown o ≡ rejected → o ≡ some rejected
or_unknown-rejected none h = cc
or_unknown-rejected (some k) h = ap some h

kind_of_code-rejected :
    (c : Option ℤ) → (kind_of_code c ≡ rejected) ↔ ((d : ℤ) × (c ≡ some d) × IsListed d rejected)
kind_of_code-rejected none = (λ h. cc, λ h. cc (h.1))
kind_of_code-rejected (some c) = (
  λ h. (c, refl, (kind_by_code_iff c rejected).0 (or_unknown-rejected _ h)),
  λ (d, e, l). cc (e, (kind_by_code_iff d rejected).1 l),
)

-- An error that is no send error yet is given up on (not retryable) exactly when it is not fatal
-- and carries one of the codes that the registry lists under `rejected`; whatever else the client
-- throws, an unlisted code or none included, is retryable, so that the event is kept.
pub not_retryable_iff :
    (c : Option ℤ) (is_fatal : Bool)
    → ((to_kafka_send_error (other c is_fatal)).retryable ≡ false)
      ↔ ((is_fatal ≡ false) × ((d : ℤ) × (c ≡ some d) × IsListed d rejected))
unfolding to_kafka_send_error
not_retryable_iff c true = (λ h. cc, λ h. cc (h.0))
not_retryable_iff c false = (
  λ h. (refl, (kind_of_code-rejected c).0 ((retryable_iff _).0 h)),
  λ h. (retryable_iff _).1 ((kind_of_code-rejected c).1 h.1),
)
