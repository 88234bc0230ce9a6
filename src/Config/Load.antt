-- ===== src/Config/Load.antt =====
-- packages/config/src/config.loader.ts, the merge of `load`: the environment, the parsed YAML file
-- and the defaults, with the source of every value. The registry of keys is an argument, a path is the
-- list of its names, and `JSON.stringify` is a parameter.
pub mod Precedence
pub mod Start
pub mod Effective
use nodejs_basics.Prelude.{
  ℕ, String, Bool, true, false, Option, none, some, List, [], ◌∷◌, ◌++◌, any, ◌===◌, string_key,
  lookup, insert, erase, if◌then◌else◌,
}
use nodejs_basics.Prelude.Texts.{Text, codes}

-- A parsed file. A scalar is as `String` prints it.
mutual
  pub data Yaml : Type 0 where
    null_value : Yaml
    scalar : (printed : Text) → Yaml
    sequence : Items → Yaml
    mapping : Fields → Yaml

  pub data Items : Type 0 where
    no_items : Items
    item : Yaml → Items → Items

  pub data Fields : Type 0 where
    no_fields : Fields
    field : String → Yaml → Fields → Fields

-- The fields of a registry entry that the merge reads.
pub record Entry : Type 0 where
  pub key : String
  pub yaml : Option (List String)
  pub fallback : Option Text

pub data Source : Type 0 where
  from_env from_yaml from_default : Source

-- `process.env` and `sources`
pub record Settings : Type 0 where
  pub env : List (String × Text)
  pub sources : List (String × Source)

-- `current[key]`; a key comes once in a mapping.
abbrev pub field_of : String → Fields → Option Yaml
field_of key no_fields = none
field_of key (field name value fields) =
    let rest = field_of key fields in if name === key then some value else rest

abbrev pub step_into : String → Yaml → Option Yaml
step_into key (mapping fields) = field_of key fields
step_into key _ = none

-- `getNestedValue`
abbrev pub nested_value : List String → Option Yaml → Option Yaml
nested_value [] current = current
nested_value (key ∷ path) none = none
nested_value (key ∷ path) (some current) = nested_value path (step_into key current)

-- The names of a file's own fields; a file that is no mapping has none.
abbrev pub fields_of : Option Yaml → Fields
fields_of (some (mapping fields)) = fields
fields_of _ = no_fields

module _ (stringify : Yaml → Text) where
  abbrev pub item_text : Yaml → Text
  item_text null_value = codes "null"
  item_text (scalar printed) = printed
  item_text value = stringify value

  -- `.join(",")`
  abbrev pub joined : Items → Text
  joined no_items = []
  joined (item value no_items) = item_text value
  joined (item value (item next items)) = item_text value ++ (codes "," ++ joined (item next items))

  abbrev pub serialize_value : Yaml → Text
  serialize_value (sequence items) = joined items
  serialize_value (scalar printed) = printed
  serialize_value value = stringify value

  -- The text that a value of the file sets a key to, if any.
  abbrev pub non_empty : Text → Option Text
  non_empty [] = none
  non_empty (c ∷ text) = some (c ∷ text)

  abbrev pub set_to : Option Yaml → Option Text
  set_to none = none
  set_to (some null_value) = none
  set_to (some value) = non_empty (serialize_value value)

  abbrev pub structured_value : Fields → Option (List String) → Option Text
  structured_value file none = none
  structured_value file (some path) = set_to (nested_value path (some (mapping file)))

  abbrev pub or_value : Option Text → Option Text → Option Text
  or_value (some value) later = some value
  or_value none later = later

  abbrev pub is_registered : List Entry → String → Bool
  is_registered registry key = any (λ e. e.key === key) registry

  -- A value for a key that has none yet, and its source.
  abbrev pub set_absent : Source → String → (present new : Option Text) → Settings → Settings
  set_absent source key none (some value) s = record {
    env = insert key value s.env;
    sources = insert key source s.sources;
  }
  set_absent source key _ _ s = s

  abbrev pub fill : Source → String → Option Text → Settings → Settings
  fill source key new s = set_absent source key (lookup key s.env) new s

  -- `dropEmptyValues`
  abbrev pub drop_if_empty : String → Option Text → Settings → Settings
  drop_if_empty key (some []) s = record { env = erase key s.env; sources = s.sources }
  drop_if_empty key _ s = s

  unfoldable pub drop_empty_values : List Entry → Settings → Settings
  drop_empty_values [] s = s
  drop_empty_values (e ∷ registry) s =
      drop_empty_values registry (drop_if_empty e.key (lookup e.key s.env) s)

  -- `recordEnvSources`
  abbrev pub record_if_set : String → Option Text → Settings → Settings
  record_if_set key none s = s
  record_if_set key (some _) s = record { env = s.env; sources = insert key from_env s.sources }

  unfoldable pub record_env_sources : List Entry → Settings → Settings
  record_env_sources [] s = s
  record_env_sources (e ∷ registry) s =
      record_env_sources registry (record_if_set e.key (lookup e.key s.env) s)

  -- The loop over the structured paths.
  unfoldable pub apply_structured : Fields → List Entry → Settings → Settings
  apply_structured file [] s = s
  apply_structured file (e ∷ registry) s =
      apply_structured file registry (fill from_yaml e.key (structured_value file e.yaml) s)

  -- The loop over the flat keys.
  unfoldable pub apply_flat : List Entry → Fields → Settings → Settings
  apply_flat registry no_fields s = s
  apply_flat registry (field key value fields) s =
      let known = apply_flat registry fields (fill from_yaml key (set_to (some value)) s) in
      let unknown = apply_flat registry fields s in
      if is_registered registry key then known else unknown

  -- `applyDefaults`
  unfoldable pub apply_defaults : List (String × Text) → List Entry → Settings → Settings
  apply_defaults own [] s = s
  apply_defaults own (e ∷ registry) s =
      apply_defaults own registry
        (fill from_default e.key (or_value (lookup e.key own) e.fallback) s)

  -- `load` up to its checks.
  unfoldable pub merge :
      List Entry
      → (own : List (String × Text)) → Option Yaml
      → (env : List (String × Text)) → Settings
  unfolding drop_empty_values record_env_sources apply_structured apply_flat apply_defaults
  merge registry own parsed env =
      let file = fields_of parsed in
      let start =
        record_env_sources registry
          (drop_empty_values registry (record { env = env; sources = [] })) in
      apply_defaults own registry (apply_flat registry file (apply_structured file registry start))
