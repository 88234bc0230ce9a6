-- ===== src/Config/Values.antt =====
-- packages/config/src/config.values.ts, `parseConfigValue`. `Number` and `JSON.parse` are
-- parameters, case maps are those of ASCII, and an error is `none`.
pub mod Checks
pub mod Allowed
pub mod Validated
use nodejs_basics.Prelude.{
  ℕ, String, Bool, true, false, not, Option, none, some, List, [], ◌∷◌, ◌++◌, any, ◌&&◌, ◌||◌, leb,
  ◌==◌, ◌===◌, string_key, lookup, if◌then◌else◌,
}
use nodejs_basics.Prelude.Texts.{Text, codes, text_key, is_digit, lower, strip}

-- `EnvType`
pub data ValueType : Type 0 where
  string_value int_value number_value bool_value duration_value json_value enum_value : ValueType

-- `Number(text)`, `none` for NaN, and the names that a JSON object has, `none` if a text is none.
pub record Platform : Type 1 where
  pub Number : Type 0
  pub to_number : Text → Option Number
  pub is_finite : Number → Bool
  pub is_safe_integer : Number → Bool
  pub at_most : Number → Number → Bool
  pub object_names : Text → Option (List String)

-- `trim`
abbrev pub is_space : ℕ → Bool
is_space c =
    (leb 9 c && leb c 13)
    || c == 32
    || c == 160
    || c == 5760
    || (leb 8192 c && leb c 8202)
    || c == 8232
    || c == 8233
    || c == 8239
    || c == 8287
    || c == 12288
    || c == 65279

abbrev pub trim_start : Text → Text
trim_start [] = []
trim_start (c ∷ s) = let rest = trim_start s in if is_space c then rest else c ∷ s

-- A unit that stays in front of a text without its end, unless both are space.
abbrev pub in_front : ℕ → Text → Text
in_front c [] = if is_space c then [] else c ∷ []
in_front c (d ∷ s) = c ∷ d ∷ s

abbrev pub trim_end : Text → Text
trim_end [] = []
trim_end (c ∷ s) = in_front c (trim_end s)

abbrev pub trim : Text → Text
trim s = trim_end (trim_start s)

abbrev pub all_digits : Text → Bool
all_digits [] = true
all_digits (c ∷ s) = is_digit c && all_digits s

-- `/^[+-]?\d+$/`
abbrev pub is_integer_text : Text → Bool
is_integer_text [] = false
is_integer_text (c ∷ []) = is_digit c
is_integer_text (c ∷ d ∷ s) = (is_digit c || c == b'+' || c == b'-') && all_digits (d ∷ s)

-- `/^(?:\d+(?:\.\d+)?|(?:\d+(?:\.\d+)?(?:ms|s|m|h|d))+)$/`, unit by unit: where a number may begin, in
-- its whole part, behind its point, in its fraction, behind an `m`, and behind a unit of time.
pub data DurationState : Type 0 where
  begins whole point fraction after_m after_unit : DurationState

abbrev pub unit_of : ℕ → Option DurationState
unit_of c =
    if c == b'm'
    then some after_m
    else if c == b's' || c == b'h' || c == b'd'
    then some after_unit
    else none

-- `first` tells that no unit of time has come yet.
abbrev pub is_duration_from : (first : Bool) → DurationState → Text → Bool
is_duration_from first whole [] = first
is_duration_from first fraction [] = first
is_duration_from first after_m [] = true
is_duration_from first after_unit [] = true
is_duration_from first _ [] = false
is_duration_from first state (c ∷ s) =
    let to_whole = is_duration_from first whole s in
    let to_point = is_duration_from first point s in
    let to_fraction = is_duration_from first fraction s in
    let to_m = is_duration_from false after_m s in
    let to_unit = is_duration_from false after_unit s in
    let to_unit_or_not =
      if c == b'm' then to_m else (c == b's' || c == b'h' || c == b'd') && to_unit in
    elim state [
      | begins ↦ is_digit c && to_whole
      | whole ↦ if is_digit c then to_whole else if c == b'.' then to_point else to_unit_or_not
      | point ↦ is_digit c && to_fraction
      | fraction ↦ if is_digit c then to_fraction else to_unit_or_not
      | after_m ↦ if is_digit c then to_whole else c == b's' && to_unit
      | after_unit ↦ is_digit c && to_whole
    ]

abbrev pub is_duration : Text → Bool
is_duration s = is_duration_from true begins s

module _ (p : Platform) where
  -- The fields of a registry entry that parsing and checking read.
  pub record Rule : Type 0 where
    pub key : String
    pub value_type : Option ValueType
    pub lower_bound : Option p.Number
    pub upper_bound : Option p.Number
    pub values : Option (List Text)
    pub reserved : List String
    pub at_least : Option String
    pub at_most_key : Option String
    pub fallback : Option Text

  pub data Parsed : Type 0 where
    text : Text → Parsed
    number : p.Number → Parsed
    boolean : Bool → Parsed
    object : (names : List String) → Parsed

  abbrev pub above : Option p.Number → p.Number → Bool
  above none n = true
  above (some bound) n = p.at_most bound n

  abbrev pub below : Option p.Number → p.Number → Bool
  below none n = true
  below (some bound) n = p.at_most n bound

  -- `bounded`; `none` where it throws.
  abbrev pub bounded : Rule → p.Number → Option Parsed
  bounded rule n =
      if above rule.lower_bound n && below rule.upper_bound n then some (number n) else none

  abbrev pub int_of : Rule → Option p.Number → Option Parsed
  int_of rule none = none
  int_of rule (some n) = if p.is_safe_integer n then bounded rule n else none

  abbrev pub number_of : Rule → Option p.Number → Option Parsed
  number_of rule none = none
  number_of rule (some n) = if p.is_finite n then bounded rule n else none

  abbrev pub object_of : Rule → Option (List String) → Option Parsed
  object_of rule none = none
  object_of rule (some names) =
      if any (λ owned. any (λ name. name === owned) names) rule.reserved
      then none
      else some (object names)

  abbrev pub values_of : Option (List Text) → List Text
  values_of none = []
  values_of (some values) = values

  -- `PARSERS`
  abbrev pub parse_as : ValueType → Rule → (raw value : Text) → Option Parsed
  parse_as string_value rule raw value = some (text raw)
  parse_as int_value rule raw value =
      if is_integer_text value then int_of rule (p.to_number value) else none
  parse_as number_value rule raw [] = none
  parse_as number_value rule raw (c ∷ value) = number_of rule (p.to_number (c ∷ value))
  parse_as bool_value rule raw value =
      if lower value === codes "true" || value === codes "1"
      then some (boolean true)
      else if lower value === codes "false" || value === codes "0"
      then some (boolean false)
      else none
  parse_as duration_value rule raw value = if is_duration value then some (text value) else none
  parse_as json_value rule raw value = object_of rule (p.object_names value)
  parse_as enum_value rule raw value =
      if any (λ v. lower v === lower value) (values_of rule.values) then some (text value) else none

  abbrev pub is_enum : ValueType → Bool
  is_enum enum_value = true
  is_enum _ = false

  -- `parseConfigValue`; `none` where it throws.
  unfoldable pub parse_config_value : ValueType → Rule → (raw : Text) → Option Parsed
  parse_config_value value_type rule raw =
      let value = trim raw in
      if not (is_enum value_type) && any (λ v. v === value) (values_of rule.values)
      then some (text value)
      else parse_as value_type rule raw value
