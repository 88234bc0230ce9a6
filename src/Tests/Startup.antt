-- ===== src/Tests/Startup.antt =====
-- Runs of the configuration loader with its checks.
use nodejs_basics.Prelude.{
  ℕ, true, false, Option, none, some, [], ◌∷◌, ◌≡◌, ◌⊎◌, refl, All, leb, lookup, insert, string_key,
}
use nodejs_basics.Prelude.Texts.{Text, codes}
use nodejs_basics.Config.Load
use nodejs_basics.Config.Load.{
  Yaml, scalar, field, no_fields, mapping, fields_of, merge, Settings, Entry,
}
use nodejs_basics.Config.Values.{Platform}
use nodejs_basics.Config.Values.Checks.{
  invalid_values, unparsed, relative_bounds, checked, read, read_raw, rule_of,
}
use nodejs_basics.Config.Startup
use nodejs_basics.Config.Startup.{
  Registered, LoadOptions, load, entries, rules, valkey, kafka, is_missing, admin_is_safe,
}
use nodejs_basics.Config.Startup.Meaning.{IsClosed}
use nodejs_basics.Config.Startup.Settled.{IsValid, IsGiven}
use nodejs_basics.Config.Startup.Checked.{load_sound, AllRead, IsSettled}

-- Numbers of one digit.
abbrev digit_of : Text → Option ℕ
digit_of (c ∷ []) = some c
digit_of _ = none

abbrev small : Platform
small = record {
  Number = ℕ;
  to_number = digit_of;
  is_finite = λ n. true;
  is_safe_integer = λ n. true;
  at_most = leb;
  object_names = λ s. none;
}

abbrev url_key : Registered small
url_key = record {
  entry = record { key = "URL"; yaml = some ("db" ∷ "url" ∷ []); fallback = none };
  rule = record {
    key = "URL";
    value_type = none;
    lower_bound = none;
    upper_bound = none;
    values = none;
    reserved = [];
    at_least = none;
    at_most_key = none;
    fallback = none;
  };
  required = true;
}

abbrev no_admin : LoadOptions small
no_admin = record { defaults = []; requires = []; admin = false }

abbrev printed : Yaml → Text
printed yaml = []

abbrev file : Yaml
file = mapping (field "db" (mapping (field "url" (scalar (codes "pg")) no_fields)) no_fields)

abbrev settings : Settings
settings = record { env = ("URL", codes "pg") ∷ []; sources = ("URL", Load.from_yaml) ∷ [] }

file_is_read : load small printed no_admin (url_key ∷ []) (some file) [] ≡ some settings
unfolding load Startup.problems Startup.unknown_in Startup.missing_required_keys
    Startup.integration_problems Startup.problems_of Startup.integration_enabled
    Startup.admin_problems merge Load.drop_empty_values Load.record_env_sources
    Load.apply_structured Load.apply_flat Load.apply_defaults invalid_values unparsed
    relative_bounds checked read read_raw rule_of lookup insert
file_is_read = refl

load_sound_example :
    (merge printed (entries small (url_key ∷ [])) [] (some file) [] ≡ settings)
    × AllRead (entries small (url_key ∷ [])) [] (fields_of (some file))
    × All (IsValid small settings.env) (rules small (url_key ∷ []))
    × All (IsGiven small settings.env) (url_key ∷ [])
    × ((false ≡ false) ⊎ IsClosed settings.env)
    × IsSettled small (url_key ∷ []) [] settings valkey
    × IsSettled small (url_key ∷ []) [] settings kafka
load_sound_example =
    load_sound small printed no_admin (url_key ∷ []) (some file) [] settings file_is_read

-- A path as a single key is no unknown key, and sets nothing.
abbrev dotted : Yaml
dotted = mapping (field "db.url" (scalar (codes "pg")) no_fields)

dotted_key_is_known :
    Startup.unknown_in (entries small (url_key ∷ [])) [] (fields_of (some dotted)) ≡ []
unfolding Startup.unknown_in
dotted_key_is_known = refl

dotted_key_sets_nothing :
    merge printed (entries small (url_key ∷ [])) [] (some dotted) []
    ≡ record { env = []; sources = [] }
unfolding merge Load.drop_empty_values Load.record_env_sources Load.apply_structured Load.apply_flat
    Load.apply_defaults lookup
dotted_key_sets_nothing = refl
