-- ===== src/Config/Startup/Settled.antt =====
-- packages/config/src/config.loader.ts, `invalidValues` and `missingRequiredKeys`, and `integrationEnabled`
-- of packages/config/src/integrations.ts: what they mean for values, said without the checks.
use nodejs_basics.Prelude.{
  ℕ, String, Bool, true, false, Option, none, some, List, [], ◌∷◌, ◌≡◌, ◌⊎◌, inl, inr, refl, arith,
  All, string_key, lookup, Bool-cases, Option-cases,
}
use nodejs_basics.Prelude.Texts.{Text}
use nodejs_basics.Config.Values.{Platform, Rule, string_value}
use nodejs_basics.Config.Values.Checks.{
  number_in, number_at, unless_related, relations, relative_bounds, unparsed, invalid_values,
  or_bounds, rule_of, raw_or, rule_or_bare, read_raw, read,
}
use nodejs_basics.Config.Values.Validated.{Parses, checked-Parses, or_bounds-none}
use nodejs_basics.Config.Startup.{
  Integration, key_of, Registered, rules, is_set, integration_enabled, is_missing,
}
use nodejs_basics.Config.Startup.Meaning.{append-none}

module _ (p : Platform) where
  -- The test holds of the number, where there is one.
  abbrev pub Related : (p.Number → Bool) → Option p.Number → Type 0
  Related ok none = Unit
  Related ok (some bound) = ok bound ≡ true

  -- The number of a rule's key, where it has one, lies on the right side of those of the two keys that
  -- bound it.
  abbrev pub InBounds : Rule p → List (String × Text) → Option p.Number → Type 0
  InBounds rule env none = Unit
  InBounds rule env (some value) =
      Related (λ bound. p.at_most bound value) (number_at p env rule.at_least)
      × Related (λ bound. p.at_most value bound) (number_at p env rule.at_most_key)

  unless_related-none :
      (key : String) (ok : p.Number → Bool) (o : Option p.Number)
      → unless_related p key ok o ≡ []
      → Related ok o
  unless_related-none key ok none q = tt
  unless_related-none key ok (some bound) q = elim (Bool-cases (ok bound)) [
    | inl fine ↦ fine
    | inr wrong ↦ let bad : key ∷ [] ≡ [] = rw wrong at q in absurd (cc)
  ]

  relations-none :
      (rule : Rule p) (env : List (String × Text)) (o : Option p.Number)
      → relations p rule env o ≡ []
      → InBounds rule env o
  relations-none rule env none q = tt
  relations-none rule env (some value) q =
      let (low, high) =
        append-none
          (unless_related p rule.key (λ bound. p.at_most bound value)
            (number_at p env rule.at_least))
          _ q in
      (
        unless_related-none rule.key (λ bound. p.at_most bound value)
            (number_at p env rule.at_least) low,
        unless_related-none rule.key (λ bound. p.at_most value bound)
            (number_at p env rule.at_most_key) high,
      )

  -- A value that is typed parses, and keeps to the bounds by other keys.
  abbrev pub IsValid : List (String × Text) → Rule p → Type 0
  IsValid env rule =
      Parses p rule (lookup rule.key env) rule.value_type
      × InBounds rule env (number_in p env (lookup rule.key env))

  unparsed-All :
      (registry : List (Rule p)) (env : List (String × Text))
      → unparsed p registry env ≡ []
      → All (λ rule. Parses p rule (lookup rule.key env) rule.value_type) registry
  unfolding unparsed
  unparsed-All [] env q = tt
  unparsed-All (rule ∷ registry) env q =
      let (own, rest) =
        checked-Parses p rule (lookup rule.key env) rule.value_type (unparsed p registry env) q in
      (own, unparsed-All registry env rest)

  bounds-All :
      (registry : List (Rule p)) (env : List (String × Text))
      → relative_bounds p registry env ≡ []
      → All (λ rule. InBounds rule env (number_in p env (lookup rule.key env))) registry
  unfolding relative_bounds
  bounds-All [] env q = tt
  bounds-All (rule ∷ registry) env q =
      let (own, rest) =
        append-none (relations p rule env (number_in p env (lookup rule.key env)))
          (relative_bounds p registry env) q in
      (
        relations-none rule env (number_in p env (lookup rule.key env)) own,
        bounds-All registry env rest,
      )

  or_bounds-last : (keys bounds : List String) → or_bounds p keys bounds ≡ [] → bounds ≡ []
  or_bounds-last [] bounds q = q
  or_bounds-last (key ∷ keys) bounds q = absurd (cc)

  All-both {ℓ} :
      {A : Type ℓ} (P Q : A → Type 0) (xs : List A) → All P xs → All Q xs → All (λ x. P x × Q x) xs
  All-both P Q [] ps qs = tt
  All-both P Q (x ∷ xs) (own, ps) (other, qs) = ((own, other), All-both P Q xs ps qs)

  pub invalid_values-IsValid :
      (registry : List (Rule p)) (env : List (String × Text))
      → invalid_values p registry env ≡ []
      → All (IsValid env) registry
  unfolding invalid_values
  invalid_values-IsValid registry env q =
      let all_parse =
        or_bounds-none p (unparsed p registry env) (relative_bounds p registry env) q in
      let all_related =
        or_bounds-last (unparsed p registry env) (relative_bounds p registry env) q in
      All-both (λ rule. Parses p rule (lookup rule.key env) rule.value_type)
        (λ rule. InBounds rule env (number_in p env (lookup rule.key env))) registry
        (unparsed-All registry env all_parse) (bounds-All registry env all_related)

  -- A key that is required is set.
  abbrev pub IsGiven : List (String × Text) → Registered p → Type 0
  IsGiven env r = (r.required ≡ false) ⊎ ((t : Text) × (lookup r.entry.key env ≡ some t))

  pub is_missing-IsGiven :
      (env : List (String × Text)) (r : Registered p) → is_missing p env r ≡ false → IsGiven env r
  is_missing-IsGiven env r h = elim (Option-cases (lookup r.entry.key env)) [
    | inr (t, there) ↦ inr (t, there)
    | inl absent ↦ inl (ground (arith, absent, h))
  ]

  -- The key of an integration has a text, its own or the registry's default.
  abbrev pub IsOn : List (Registered p) → List (String × Text) → Integration → Type 0
  IsOn registry env name =
      ((c : ℕ) × (t : Text) × (lookup (key_of name) env ≡ some (c ∷ t)))
      ⊎ ((rule : Rule p) × (t : Text) × (rule_of p (rules p registry) (key_of name) ≡ some rule)
          × (rule.fallback ≡ some t))

  raw_is_set :
      (rule : Rule p) (o fallback : Option Text)
      → is_set p (read_raw p string_value rule (raw_or p o fallback)) ≡ true
      → ((c : ℕ) × (t : Text) × (o ≡ some (c ∷ t))) ⊎ ((t : Text) × (fallback ≡ some t))
  unfolding read_raw
  raw_is_set rule (some (c ∷ t)) fallback h = inl (c, t, refl)
  raw_is_set rule (some []) (some t) h = inr (t, refl)
  raw_is_set rule (some []) none h = absurd (cc)
  raw_is_set rule none (some t) h = inr (t, refl)
  raw_is_set rule none none h = absurd (cc)

  pub integration_enabled-IsOn :
      (registry : List (Registered p)) (env : List (String × Text)) (name : Integration)
      → integration_enabled p registry env name ≡ true
      → IsOn registry env name
  unfolding integration_enabled read
  integration_enabled-IsOn registry env name h =
      elim (Option-cases (rule_of p (rules p registry) (key_of name))) [
        | inl unknown ↦
            elim (raw_is_set (rule_or_bare p (key_of name) none) (lookup (key_of name) env) none
              (rw unknown at h)) [ inl own ↦ inl own | inr (t, bad) ↦ absurd (cc) ]
        | inr (rule, known) ↦
            elim (raw_is_set rule (lookup (key_of name) env) rule.fallback (rw known at h)) [
              | inl own ↦ inl own
              | inr (t, default) ↦ inr (rule, t, known, default)
            ]
      ]
