-- ===== src/Config/Startup/Meaning.antt =====
-- packages/config/src/config.loader.ts and packages/config/src/integrations.ts: what the checks of `load`
-- mean for the settings, said without the checks.
use nodejs_basics.Prelude.{
  ℕ, zero, suc, ◌+◌, ◌≤◌, String, Bool, true, false, Option, none, some, List, [], ◌∷◌, ◌++◌, ◌≡◌,
  ◌≢◌, ◌⊎◌, inl, inr, refl, arith, All, any, keep, map, ◌&&◌, string_key, lookup, Bool-cases,
  Option-cases, length,
}
use nodejs_basics.Prelude.Texts.{
  Text, codes, text_key, text_beq, text_beq_iff, is_digit, lower, strip,
}
use nodejs_basics.Config.Load.{Source, from_env, from_yaml}
use nodejs_basics.Config.Values.{Platform}
use nodejs_basics.Config.Startup.{
  is_group, is_loopback, or_empty, is_true_text, admin_is_safe, Integration, valkey, kafka,
  prefix_of, same_integration, has_prefix, is_explicit, Registered, stray_keys,
}

pub append-none {ℓ} : {A : Type ℓ} (xs ys : List A) → xs ++ ys ≡ [] → (xs ≡ []) × (ys ≡ [])
append-none [] ys q = (refl, q)
append-none (x ∷ xs) ys q = absurd (cc)

-- A group of an address: one to three digits.
abbrev pub IsGroup : Text → Type 0
IsGroup s = All (λ c. is_digit c ≡ true) s × (1 ≤ length s) × (length s ≤ 3)

-- So many further groups, each behind a dot.
abbrev pub IsGroups : (more : ℕ) → Text → Type 0
IsGroups zero s = IsGroup s
IsGroups (suc more) s =
    (group rest : Text) × (s ≡ group ++ (b'.' ∷ rest)) × IsGroup group × IsGroups more rest

-- An address of this host alone: 127 with three groups.
abbrev pub IsLoopback : Text → Type 0
IsLoopback host =
    (host ≡ codes "localhost")
    ⊎ ((host ≡ codes "::1")
        ⊎ ((groups : Text) × (strip (codes "127.") host ≡ some groups) × IsGroups 2 groups))

-- The rest of a group of which so many digits were read.
abbrev RestOf : (more digits : ℕ) → Text → Type 0
RestOf zero digits s =
    All (λ c. is_digit c ≡ true) s × (1 ≤ digits + length s) × (digits + length s ≤ 3)
RestOf (suc more) digits s =
    (group rest : Text) × (s ≡ group ++ (b'.' ∷ rest))
    × All (λ c. is_digit c ≡ true) group
    × (1 ≤ digits + length group)
    × (digits + length group ≤ 3)
    × IsGroups more rest

RestOf-IsGroups : (more : ℕ) (s : Text) → RestOf more 0 s → IsGroups more s
RestOf-IsGroups zero s (digits, some_digit, few) = (digits, omega arith, omega arith)
RestOf-IsGroups (suc more) s (group, rest, q, digits, some_digit, few, groups) =
    (group, rest, q, (digits, omega arith, omega arith), groups)

is_group-RestOf :
    (more digits : ℕ) (s : Text) → digits ≤ 3 → is_group more digits s ≡ true → RestOf more digits s
is_group-RestOf zero digits [] d h = (tt, ground arith, ground arith)
is_group-RestOf (suc more) digits [] d h = absurd (cc)
is_group-RestOf zero digits (c ∷ s) d h =
    let digit : is_digit c ≡ true = ground arith in
    let later : is_group zero (digits + 1) s ≡ true = ground arith in
    let (digits_later, some_digit, few) =
      is_group-RestOf zero (digits + 1) s (ground arith) later in
    ((digit, digits_later), omega arith, omega arith)
is_group-RestOf (suc more) digits (c ∷ s) d h = elim (Bool-cases (is_digit c)) [
  | inl digit ↦
      let later : is_group (suc more) (digits + 1) s ≡ true = ground arith in
      let (group, rest, q, digits_later, some_digit, few, groups) =
        is_group-RestOf (suc more) (digits + 1) s (ground arith) later in
      (c ∷ group, rest, rw q refl, (digit, digits_later), omega arith, omega arith, groups)
  | inr other ↦
      let dot : c ≡ b'.' = ground arith in
      let later : is_group more 0 s ≡ true = ground arith in
      (
        [],
        s,
        rw dot refl,
        tt,
        ground arith,
        ground arith,
        RestOf-IsGroups more s (is_group-RestOf more 0 s (omega arith) later),
      )
]

is_loopback-IsLoopback : (host : Text) → is_loopback host ≡ true → IsLoopback host
is_loopback-IsLoopback host h = elim (Bool-cases (text_beq host (codes "localhost"))) [
  | inl named ↦ inl ((text_beq_iff host (codes "localhost")).0 named)
  | inr unnamed ↦ elim (Bool-cases (text_beq host (codes "::1"))) [
    | inl six ↦ inr (inl ((text_beq_iff host (codes "::1")).0 six))
    | inr four ↦ elim (Option-cases (strip (codes "127.") host)) [
      | inl other ↦ let bad : false ≡ true = rw (unnamed, four, other) at h in absurd (cc)
      | inr (groups, net) ↦
          let fits : is_group 2 0 groups ≡ true = rw (unnamed, four, net) at h in
          inr (
            inr (
              groups,
              net,
              RestOf-IsGroups 2 groups (is_group-RestOf 2 0 groups (omega arith) fits),
            ))
    ]
  ]
]

-- The admin listener has a token, an address of this host alone, or the leave to go without.
abbrev pub IsClosed : List (String × Text) → Type 0
IsClosed env =
    ((c : ℕ) × (token : Text) × (lookup "ADMIN_TOKEN" env ≡ some (c ∷ token)))
    ⊎ (((host : Text) × (lookup "ADMIN_HOST" env ≡ some host) × IsLoopback host)
        ⊎ ((t : Text) × (lookup "ADMIN_INSECURE" env ≡ some t)
            × ((lower t ≡ codes "true") ⊎ (t ≡ codes "1"))))

or_empty-full :
    (o : Option Text)
    → text_beq (or_empty o) [] ≡ false
    → (c : ℕ) × (rest : Text) × (o ≡ some (c ∷ rest))
or_empty-full none h = absurd (cc)
or_empty-full (some []) h = absurd (cc)
or_empty-full (some (c ∷ rest)) h = (c, rest, refl)

or_empty-host :
    (o : Option Text)
    → is_loopback (or_empty o) ≡ true
    → (host : Text) × (o ≡ some host) × IsLoopback host
or_empty-host none h = absurd (cc)
or_empty-host (some host) h = (host, refl, is_loopback-IsLoopback host h)

or_empty-leave :
    (o : Option Text)
    → is_true_text (or_empty o) ≡ true
    → (t : Text) × (o ≡ some t) × ((lower t ≡ codes "true") ⊎ (t ≡ codes "1"))
or_empty-leave none h = absurd (cc)
or_empty-leave (some t) h = elim (Bool-cases (text_beq (lower t) (codes "true"))) [
  | inl word ↦ (t, refl, inl ((text_beq_iff (lower t) (codes "true")).0 word))
  | inr other ↦ (t, refl, inr ((text_beq_iff t (codes "1")).0 (rw other at h)))
]

pub admin_is_safe-IsClosed : (env : List (String × Text)) → admin_is_safe env ≡ true → IsClosed env
admin_is_safe-IsClosed env h =
    elim (Bool-cases (text_beq (or_empty (lookup "ADMIN_TOKEN" env)) [])) [
      | inr token ↦ inl (or_empty-full (lookup "ADMIN_TOKEN" env) token)
      | inl bare ↦ elim (Bool-cases (is_loopback (or_empty (lookup "ADMIN_HOST" env)))) [
        | inl near ↦ inr (inl (or_empty-host (lookup "ADMIN_HOST" env) near))
        | inr far ↦ inr (inr (or_empty-leave (lookup "ADMIN_INSECURE" env) (rw (bare, far) at h)))
      ]
    ]

-- The key was set by the environment or by the file.
abbrev pub IsStray : List (String × Source) → Integration → String → Type 0
IsStray sources name key =
    ((rest : Text) × (strip (prefix_of name) (codes key) ≡ some rest))
    × ((lookup key sources ≡ some from_env) ⊎ (lookup key sources ≡ some from_yaml))

keep-none {ℓ} :
    {A : Type ℓ} (test : A → Bool) (xs : List A) → keep test xs ≡ [] → All (λ x. test x ≡ false) xs
keep-none test [] q = tt
keep-none test (x ∷ xs) q = elim (Bool-cases (test x)) [
  | inl hit ↦ absurd (ground (arith, hit, q))
  | inr miss ↦ (miss, keep-none test xs (rw miss at q))
]

not-IsStray :
    (sources : List (String × Source)) (name : Integration) (key : String)
    → has_prefix (strip (prefix_of name) (codes key)) && is_explicit (lookup key sources) ≡ false
    → ¬ IsStray sources name key
not-IsStray sources name key h = λ s. elim s.1 [
  | inl env ↦ let bad : true ≡ false = rw (s.0.1, env) at h in absurd (cc)
  | inr yaml ↦ let bad : true ≡ false = rw (s.0.1, yaml) at h in absurd (cc)
]

itself : (first name : Integration) → first ≡ name → same_integration first name ≡ false → ⊥
itself valkey valkey e h = absurd (cc)
itself valkey kafka e h = absurd (cc)
itself kafka valkey e h = absurd (cc)
itself kafka kafka e h = absurd (cc)

pub needed-none :
    (name : Integration) (requires : List Integration)
    → any (λ needed. same_integration needed name) requires ≡ false
    → All (λ needed. needed ≢ name) requires
needed-none name [] h = tt
needed-none name (first ∷ requires) h =
    let other : same_integration first name ≡ false = ground arith in
    let rest : any (λ needed. same_integration needed name) requires ≡ false = ground arith in
    (λ e. itself first name e other, needed-none name requires rest)

module _ (p : Platform) where
  no-IsStray :
      (sources : List (String × Source)) (name : Integration) (keys : List String)
      → All
          (λ key.
            has_prefix (strip (prefix_of name) (codes key)) && is_explicit (lookup key sources)
            ≡ false)
          keys
      → All (λ key. ¬ IsStray sources name key) keys
  no-IsStray sources name [] h = tt
  no-IsStray sources name (key ∷ keys) (own, h) =
      (not-IsStray sources name key own, no-IsStray sources name keys h)

  pub stray_keys-none :
      (registry : List (Registered p)) (sources : List (String × Source)) (name : Integration)
      → stray_keys p registry sources name ≡ []
      → All (λ key. ¬ IsStray sources name key) (map (λ r. r.entry.key) registry)
  stray_keys-none registry sources name q =
      no-IsStray sources name (map (λ r. r.entry.key) registry) (
        keep-none
          (λ key.
            has_prefix (strip (prefix_of name) (codes key)) && is_explicit (lookup key sources))
          (map (λ r. r.entry.key) registry) q)
