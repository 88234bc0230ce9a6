-- ===== src/Config/Values/Checks.antt =====
-- packages/config/src/config.loader.ts, `invalidValues` and `relativeBounds`, and `read` of
-- packages/config/src/config.values.ts: what is checked at startup, and what is read later. Of an error
-- only the key is kept.
use nodejs_basics.Prelude.{
  String, Bool, true, false, Option, none, some, List, [], ◌∷◌, ◌++◌, ◌===◌, string_key, lookup,
  if◌then◌else◌,
}
use nodejs_basics.Prelude.Texts.{Text}
use nodejs_basics.Config.Values.{Platform, ValueType, Rule, Parsed, parse_config_value}

module _ (p : Platform) where
  -- `invalidValues` without its last line: the keys whose values do not parse.
  abbrev pub unless_parsed : String → Option (Parsed p) → List String → List String
  unless_parsed key none keys = key ∷ keys
  unless_parsed key (some parsed) keys = keys

  unfoldable pub checked : Rule p → Option Text → Option ValueType → List String → List String
  unfolding parse_config_value
  checked rule (some (c ∷ raw)) (some value_type) keys =
      unless_parsed rule.key (parse_config_value p value_type rule (c ∷ raw)) keys
  checked rule _ _ keys = keys

  unfoldable pub unparsed : List (Rule p) → List (String × Text) → List String
  unfolding checked
  unparsed [] env = []
  unparsed (rule ∷ registry) env =
      checked rule (lookup rule.key env) rule.value_type (unparsed registry env)

  -- `relativeBounds`: the keys whose values lie on the wrong side of another key's.
  abbrev pub number_in : List (String × Text) → Option Text → Option p.Number
  number_in env none = none
  number_in env (some raw) = p.to_number raw

  abbrev pub number_at : List (String × Text) → Option String → Option p.Number
  number_at env none = none
  number_at env (some other) = number_in env (lookup other env)

  abbrev pub unless_related : String → (p.Number → Bool) → Option p.Number → List String
  unless_related key ok none = []
  unless_related key ok (some bound) = if ok bound then [] else key ∷ []

  abbrev pub relations : Rule p → List (String × Text) → Option p.Number → List String
  relations rule env none = []
  relations rule env (some value) =
      unless_related rule.key (λ bound. p.at_most bound value) (number_at env rule.at_least)
      ++ unless_related rule.key (λ bound. p.at_most value bound) (number_at env rule.at_most_key)

  unfoldable pub relative_bounds : List (Rule p) → List (String × Text) → List String
  relative_bounds [] env = []
  relative_bounds (rule ∷ registry) env =
      relations rule env (number_in env (lookup rule.key env)) ++ relative_bounds registry env

  -- `invalidValues`
  abbrev pub or_bounds : List String → List String → List String
  or_bounds [] bounds = bounds
  or_bounds (key ∷ keys) bounds = key ∷ keys

  unfoldable pub invalid_values : List (Rule p) → List (String × Text) → List String
  unfolding unparsed relative_bounds
  invalid_values registry env = or_bounds (unparsed registry env) (relative_bounds registry env)

  -- `RULES.get(key)`: the last entry of the key.
  abbrev pub last_or : Option (Rule p) → Bool → Rule p → Option (Rule p)
  last_or (some later) hit rule = some later
  last_or none true rule = some rule
  last_or none false rule = none

  unfoldable pub rule_of : List (Rule p) → String → Option (Rule p)
  rule_of [] key = none
  rule_of (rule ∷ registry) key = last_or (rule_of registry key) (rule.key === key) rule

  -- What a reader gets: nothing, a value, or an error.
  pub data Reading : Type 0 where
    unset threw : Reading
    value : Parsed p → Reading

  abbrev pub reading_of : Option (Parsed p) → Reading
  reading_of none = threw
  reading_of (some parsed) = value parsed

  abbrev pub raw_or : Option Text → (fallback : Option Text) → Option Text
  raw_or none fallback = fallback
  raw_or (some []) fallback = fallback
  raw_or (some (c ∷ raw)) fallback = some (c ∷ raw)

  unfoldable pub read_raw : ValueType → Rule p → Option Text → Reading
  unfolding parse_config_value
  read_raw value_type rule none = unset
  read_raw value_type rule (some raw) = reading_of (parse_config_value p value_type rule raw)

  abbrev pub bare_rule : String → Rule p
  bare_rule key = record {
    key = key;
    value_type = none;
    lower_bound = none;
    upper_bound = none;
    values = none;
    reserved = [];
    at_least = none;
    at_most_key = none;
    fallback = none;
  }

  abbrev pub rule_or_bare : String → Option (Rule p) → Rule p
  rule_or_bare key none = bare_rule key
  rule_or_bare key (some rule) = rule

  -- `read`, of texts
  unfoldable pub read : List (Rule p) → List (String × Text) → String → ValueType → Reading
  unfolding rule_of read_raw
  read registry env key value_type =
      let rule = rule_or_bare key (rule_of registry key) in
      read_raw value_type rule (raw_or (lookup key env) rule.fallback)
