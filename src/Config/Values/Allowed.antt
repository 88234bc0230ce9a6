-- ===== src/Config/Values/Allowed.antt =====
-- What a value that parses keeps to: the bounds of its rule, and the names that other keys own.
use nodejs_basics.Prelude.{
  String, Bool, true, false, not, ◌||◌, Option, none, some, List, [], ◌∷◌, ◌≡◌, sym, any, ◌&&◌,
  ◌===◌, arith, string_key, Bool-cases, inl, inr, if◌then◌else◌,
}
use nodejs_basics.Prelude.Texts.{Text, text_key, codes, lower}
use nodejs_basics.Config.Values.{
  Platform, ValueType, string_value, int_value, number_value, bool_value, duration_value,
  json_value, enum_value, Rule, Parsed, text, number, boolean, object, object_of, number_of,
  is_duration, above, below, bounded, int_of, parse_as, parse_config_value, trim, values_of,
  is_integer_text, is_enum,
}

module _ (p : Platform) where
  -- A number lies within the bounds of its rule, and an object sets nothing that another key owns.
  abbrev pub IsAllowed : Rule p → Parsed p → Type 0
  IsAllowed rule (number n) =
      (above p rule.lower_bound n ≡ true) × (below p rule.upper_bound n ≡ true)
  IsAllowed rule (object names) =
      any (λ owned. any (λ name. name === owned) names) rule.reserved ≡ false
  IsAllowed rule _ = Unit

  bounded-IsAllowed :
      (rule : Rule p) (n : p.Number) (parsed : Parsed p)
      → bounded p rule n ≡ some parsed
      → IsAllowed rule parsed
  bounded-IsAllowed rule n parsed q =
      elim (Bool-cases (above p rule.lower_bound n && below p rule.upper_bound n)) [
        | inr outside ↦ let bad : none ≡ some parsed = rw outside at q in absurd (cc)
        | inl inside ↦
            let s : some (number n) ≡ some parsed = rw inside at q in
            let same : number n ≡ parsed = cc in
            rw (sym same) (ground (arith, inside), ground (arith, inside))
      ]

  int_of-IsAllowed :
      (rule : Rule p) (o : Option p.Number) (parsed : Parsed p)
      → int_of p rule o ≡ some parsed
      → IsAllowed rule parsed
  int_of-IsAllowed rule none parsed q = absurd (cc)
  int_of-IsAllowed rule (some n) parsed q = elim (Bool-cases (p.is_safe_integer n)) [
    | inl safe ↦ bounded-IsAllowed rule n parsed (rw safe at q)
    | inr unsafe ↦ let bad : none ≡ some parsed = rw unsafe at q in absurd (cc)
  ]

  number_of-IsAllowed :
      (rule : Rule p) (o : Option p.Number) (parsed : Parsed p)
      → number_of p rule o ≡ some parsed
      → IsAllowed rule parsed
  number_of-IsAllowed rule none parsed q = absurd (cc)
  number_of-IsAllowed rule (some n) parsed q = elim (Bool-cases (p.is_finite n)) [
    | inl finite ↦ bounded-IsAllowed rule n parsed (rw finite at q)
    | inr infinite ↦ let bad : none ≡ some parsed = rw infinite at q in absurd (cc)
  ]

  object_of-IsAllowed :
      (rule : Rule p) (o : Option (List String)) (parsed : Parsed p)
      → object_of p rule o ≡ some parsed
      → IsAllowed rule parsed
  object_of-IsAllowed rule none parsed q = absurd (cc)
  object_of-IsAllowed rule (some names) parsed q =
      elim (Bool-cases (any (λ owned. any (λ name. name === owned) names) rule.reserved)) [
        | inl owned ↦ let bad : none ≡ some parsed = rw owned at q in absurd (cc)
        | inr free ↦
            let s : some (object names) ≡ some parsed = rw free at q in
            let same : object names ≡ parsed = cc in rw (sym same) free
      ]

  -- A parser that only ever gives this.
  only_this :
      (rule : Rule p) (b : Bool) (this parsed : Parsed p)
      → IsAllowed rule this
      → (if b then some this else none) ≡ some parsed
      → IsAllowed rule parsed
  only_this rule true this parsed h q = let same : this ≡ parsed = cc in rw (sym same) h
  only_this rule false this parsed h q = absurd (cc)

  parse_as-IsAllowed :
      (t : ValueType) (rule : Rule p) (raw trimmed : Text) (parsed : Parsed p)
      → parse_as p t rule raw trimmed ≡ some parsed
      → IsAllowed rule parsed
  parse_as-IsAllowed string_value rule raw trimmed parsed q =
      only_this rule true (text raw) parsed tt q
  parse_as-IsAllowed int_value rule raw trimmed parsed q =
      elim (Bool-cases (is_integer_text trimmed)) [
        | inl digits ↦ int_of-IsAllowed rule (p.to_number trimmed) parsed (rw digits at q)
        | inr other ↦ let bad : none ≡ some parsed = rw other at q in absurd (cc)
      ]
  parse_as-IsAllowed number_value rule raw [] parsed q = absurd (cc)
  parse_as-IsAllowed number_value rule raw (c ∷ trimmed) parsed q =
      number_of-IsAllowed rule (p.to_number (c ∷ trimmed)) parsed q
  parse_as-IsAllowed bool_value rule raw trimmed parsed q =
      elim (Bool-cases (lower trimmed === codes "true" || trimmed === codes "1")) [
        | inl yes_text ↦ only_this rule true (boolean true) parsed tt (rw yes_text at q)
        | inr other ↦
            only_this rule (lower trimmed === codes "false" || trimmed === codes "0")
              (boolean false) parsed tt (rw other at q)
      ]
  parse_as-IsAllowed duration_value rule raw trimmed parsed q =
      only_this rule (is_duration trimmed) (text trimmed) parsed tt q
  parse_as-IsAllowed json_value rule raw trimmed parsed q =
      object_of-IsAllowed rule (p.object_names trimmed) parsed q
  parse_as-IsAllowed enum_value rule raw trimmed parsed q =
      only_this rule (any (λ v. lower v === lower trimmed) (values_of p rule.values)) (text trimmed)
        parsed tt q

  pub parse_config_value-IsAllowed :
      (t : ValueType) (rule : Rule p) (raw : Text) (parsed : Parsed p)
      → parse_config_value p t rule raw ≡ some parsed
      → IsAllowed rule parsed
  unfolding parse_config_value
  parse_config_value-IsAllowed t rule raw parsed q =
      elim (Bool-cases (not (is_enum p t) && any (λ v. v === trim raw) (values_of p rule.values))) [
        | inl listed ↦ only_this rule true (text (trim raw)) parsed tt (rw listed at q)
        | inr other ↦ parse_as-IsAllowed t rule raw (trim raw) parsed (rw other at q)
      ]
