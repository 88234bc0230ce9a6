-- ===== src/Config/Values/Validated.antt =====
-- What the loader has checked, the readers can read.
use nodejs_basics.Prelude.{
  ℕ, String, Option, none, some, List, [], ◌∷◌, ◌≡◌, refl, sym, ap, ◌∙◌, string_key, lookup,
  Bool-cases, Option-cases, inl, inr,
}
use nodejs_basics.Prelude.Texts.{Text, text_key}
use nodejs_basics.Config.Values.{Platform, ValueType, Rule, Parsed, parse_config_value}
use nodejs_basics.Config.Values.Checks.{
  checked, unparsed, relative_bounds, invalid_values, or_bounds, rule_of, value, read_raw, read,
}
use nodejs_basics.Config.Values.Allowed.{IsAllowed, parse_config_value-IsAllowed}

module _ (p : Platform) where
  pub or_bounds-none : (keys bounds : List String) → or_bounds p keys bounds ≡ [] → keys ≡ []
  or_bounds-none [] bounds q = refl
  or_bounds-none (key ∷ keys) bounds q = absurd (cc)

  -- The value of a rule parses, if it has one and a type.
  abbrev pub Parses : Rule p → Option Text → Option ValueType → Type 0
  Parses rule (some (c ∷ raw)) (some value_type) =
      (parsed : Parsed p) × (parse_config_value p value_type rule (c ∷ raw) ≡ some parsed)
  Parses rule _ _ = Unit

  pub checked-Parses :
      (rule : Rule p) (o : Option Text) (t : Option ValueType) (keys : List String)
      → checked p rule o t keys ≡ []
      → Parses rule o t × (keys ≡ [])
  unfolding checked
  checked-Parses rule none none keys q = (tt, q)
  checked-Parses rule none (some t) keys q = (tt, q)
  checked-Parses rule (some []) none keys q = (tt, q)
  checked-Parses rule (some []) (some t) keys q = (tt, q)
  checked-Parses rule (some (c ∷ raw)) none keys q = (tt, q)
  checked-Parses rule (some (c ∷ raw)) (some t) keys q =
      elim (Option-cases (parse_config_value p t rule (c ∷ raw))) [
        | inl bad ↦ let problem : rule.key ∷ keys ≡ [] = rw bad at q in absurd (cc)
        | inr (parsed, good) ↦ ((parsed, good), rw good at q)
      ]

  rule_of-Parses :
      (registry : List (Rule p)) (env : List (String × Text)) (key : String) (rule : Rule p)
      → unparsed p registry env ≡ []
      → rule_of p registry key ≡ some rule
      → Parses rule (lookup key env) rule.value_type × (rule.key ≡ key)
  unfolding unparsed rule_of
  rule_of-Parses [] env key rule q r = absurd (cc)
  rule_of-Parses (first ∷ registry) env key rule q r =
      let (own, rest) =
        checked-Parses first (lookup first.key env) first.value_type (unparsed p registry env) q in
      elim (Option-cases (rule_of p registry key)) [
        | inr (later, found) ↦
            let same : later ≡ rule = (let s : some later ≡ some rule = rw found at r in cc) in
            rw (sym same) (rule_of-Parses registry env key later rest found)
        | inl nowhere ↦ elim (Bool-cases (string_key.beq first.key key)) [
          | inr miss ↦ let bad : none ≡ some rule = rw (nowhere, miss) at r in absurd (cc)
          | inl hit ↦
              let same : first ≡ rule =
                (let s : some first ≡ some rule = rw (nowhere, hit) at r in cc) in
              let key_same : first.key ≡ key = (string_key.beq_iff first.key key).0 hit in
              rw (sym same, sym key_same) (own, refl)
        ]
      ]

  known_parse :
      (rule : Rule p) (o : Option Text) (u : Option ValueType) (t : ValueType) (c : ℕ) (raw : Text)
      → o ≡ some (c ∷ raw)
      → u ≡ some t
      → Parses rule o u
      → (parsed : Parsed p) × (parse_config_value p t rule (c ∷ raw) ≡ some parsed)
  known_parse rule none u t c raw q typed h = absurd (cc)
  known_parse rule (some []) u t c raw q typed h = absurd (cc)
  known_parse rule (some (d ∷ r)) none t c raw q typed h = absurd (cc)
  known_parse rule (some (d ∷ r)) (some u) t c raw q typed (parsed, good) =
      let same_text : d ∷ r ≡ c ∷ raw = cc in
      let same_type : u ≡ t = cc in
      (
        parsed,
        ap (λ v. parse_config_value p v rule (c ∷ raw)) (sym same_type)
            ∙ ap (λ v. parse_config_value p u rule v) (sym same_text)
            ∙ good,
      )

  read_parsed :
      (registry : List (Rule p)) (env : List (String × Text)) (key : String) (rule : Rule p)
      (t : ValueType) (c : ℕ) (raw : Text) (parsed : Parsed p)
      → rule_of p registry key ≡ some rule
      → lookup key env ≡ some (c ∷ raw)
      → parse_config_value p t rule (c ∷ raw) ≡ some parsed
      → read p registry env key t ≡ value parsed
  unfolding read read_raw
  read_parsed registry env key rule t c raw parsed found there good = rw (found, there, good) refl

  -- If the loader has found no invalid value, a reader that asks for a registered key with the type of
  -- its entry does not throw: it gets the value that the text in the environment parses to, a number
  -- within the bounds of the entry, an object without the names that other keys own.
  pub validated_reads :
      (registry : List (Rule p)) (env : List (String × Text)) (key : String) (rule : Rule p)
      (t : ValueType) (c : ℕ) (raw : Text)
      → invalid_values p registry env ≡ []
      → rule_of p registry key ≡ some rule
      → rule.value_type ≡ some t
      → lookup key env ≡ some (c ∷ raw)
      → (parsed : Parsed p) × (read p registry env key t ≡ value parsed)
        × (parse_config_value p t rule (c ∷ raw) ≡ some parsed)
        × IsAllowed p rule parsed
  unfolding invalid_values
  validated_reads registry env key rule t c raw valid found typed there =
      let all_parse =
        or_bounds-none (unparsed p registry env) (relative_bounds p registry env) valid in
      let (parses, same) = rule_of-Parses registry env key rule all_parse found in
      let (parsed, good) =
        known_parse rule (lookup key env) rule.value_type t c raw there typed parses in
      (
        parsed,
        read_parsed registry env key rule t c raw parsed found there good,
        good,
        parse_config_value-IsAllowed p t rule (c ∷ raw) parsed good,
      )
