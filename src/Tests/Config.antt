-- ===== src/Tests/Config.antt =====
-- Runs of the configuration loader and its readers.
use nodejs_basics.Prelude.{
  ℕ, ◌+◌, ◌-◌, ◌≤◌, ◌/◌, max, String, true, Option, none, some, List, [], ◌∷◌, ◌≡◌, refl,
  string_key, lookup, leb, length,
}
use nodejs_basics.Prelude.Texts.{Text, codes, lower}
use nodejs_basics.Config.Distance.{edit_distance, nearest}
use nodejs_basics.Config.Distance.Least.{Edits, edit_distance_least}
use nodejs_basics.Config.Distance.Hint.{IsHint, nearest-IsHint}
use nodejs_basics.Config.Load.{
  Yaml, scalar, mapping, no_fields, field, Entry, from_env, from_yaml, merge, fields_of,
}
use nodejs_basics.Config.Load.Precedence.{known, ◌or◌, Tracks, structured_of, flat_of, default_of}
use nodejs_basics.Config.Load.Start.{not_empty}
use nodejs_basics.Config.Load.Effective.{merge-Tracks}
use nodejs_basics.Config.Values.{Platform, Rule, Parsed, int_value, parse_config_value}
use nodejs_basics.Config.Values.Checks.{
  rule_of, read, value, invalid_values, unparsed, relative_bounds, checked,
}
use nodejs_basics.Config.Values.Validated.{validated_reads}
use nodejs_basics.Config.Values.Allowed.{IsAllowed}

distance_of_typo : edit_distance (codes "databse.url") (codes "database.url") ≡ 1
unfolding edit_distance
distance_of_typo = refl

edit_distance_least_example :
    Edits (codes "databse") (codes "database") (edit_distance (codes "databse") (codes "database"))
    × ((n : ℕ)
        → Edits (codes "databse") (codes "database") n
        → edit_distance (codes "databse") (codes "database") ≤ n)
edit_distance_least_example = edit_distance_least (codes "databse") (codes "database")

abbrev paths : List Text
paths = codes "kafka.brokers" ∷ codes "database.url" ∷ []

hint_for_typo : nearest lower (codes "databse.url") paths ≡ some (codes "database.url")
unfolding nearest edit_distance
hint_for_typo = refl

nearest-IsHint_example :
    IsHint lower
      (codes "databse.url")
      (max 2 (length (codes "databse.url") / 4) + 1)
      paths
      (nearest lower (codes "databse.url") paths)
nearest-IsHint_example = nearest-IsHint lower (codes "databse.url") paths

abbrev printed : Yaml → Text
printed yaml = codes "{}"

abbrev registry : List Entry
registry =
    record { key = "DATABASE_URL"; yaml = some ("database" ∷ "url" ∷ []); fallback = none }
    ∷ record { key = "PORT"; yaml = none; fallback = some (codes "3000") }
    ∷ []

abbrev file : Yaml
file = mapping (
    field "database" (mapping (field "url" (scalar (codes "pg://db")) no_fields))
      (field "PORT" (scalar (codes "8080")) no_fields))

abbrev env : List (String × Text)
env = ("PORT", []) ∷ ("HOME", codes "/root") ∷ []

merge-Tracks_example : Tracks (merge printed registry [] (some file) env) "PORT" (
    ((known from_env (not_empty (lookup "PORT" env))
        or structured_of printed (fields_of (some file)) registry "PORT")
      or flat_of printed registry (fields_of (some file)) "PORT")
    or default_of printed [] registry "PORT")
merge-Tracks_example = merge-Tracks printed registry [] (some file) env "PORT" refl

port_of_file :
    (((known from_env (not_empty (lookup "PORT" env))
          or structured_of printed (fields_of (some file)) registry "PORT")
        or flat_of printed registry (fields_of (some file)) "PORT")
      or default_of printed [] registry "PORT")
    ≡ some (codes "8080", from_yaml)
unfolding lookup
port_of_file = refl

-- Numbers of one digit.
abbrev digit_of : Text → Option ℕ
digit_of (c ∷ []) = some (c - 48)
digit_of _ = none

abbrev small : Platform
small = record {
  Number = ℕ;
  to_number = digit_of;
  is_finite = λ n. true;
  is_safe_integer = λ n. true;
  at_most = leb;
  object_names = λ s. none;
}

abbrev retries : Rule small
retries = record {
  key = "RETRIES";
  value_type = some int_value;
  lower_bound = some 1;
  upper_bound = some 9;
  values = none;
  reserved = [];
  at_least = none;
  at_most_key = none;
  fallback = some (codes "3");
}

validated_reads_example :
    (parsed : Parsed small) × (read small
        (retries ∷ [])
        (("RETRIES", codes "5") ∷ [])
        "RETRIES"
        int_value
      ≡ value parsed)
    × (parse_config_value small int_value retries (codes "5") ≡ some parsed)
    × IsAllowed small retries parsed
unfolding invalid_values unparsed relative_bounds checked parse_config_value rule_of lookup
validated_reads_example =
    validated_reads small (retries ∷ []) (("RETRIES", codes "5") ∷ []) "RETRIES" retries int_value
      b'5' [] refl refl refl refl
