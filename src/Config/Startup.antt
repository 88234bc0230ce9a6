-- ===== src/Config/Startup.antt =====
-- packages/config/src/config.loader.ts, `load` with its checks, and packages/config/src/integrations.ts:
-- what keeps a process from starting. A problem is a constructor in place of its message.
pub mod Checked
pub mod Meaning
pub mod Settled
use nodejs_basics.Prelude.{
  ℕ, zero, suc, ◌+◌, String, Bool, true, false, not, Option, none, some, List, [], ◌∷◌, ◌++◌, map,
  any, keep, ◌&&◌, ◌||◌, leb, ltb, ◌==◌, ◌===◌, string_key, lookup, if◌then◌else◌,
}
use nodejs_basics.Prelude.Texts.{Text, codes, text_beq, text_key, is_digit, lower, strip}
use nodejs_basics.Config.Distance.{nearest}
use nodejs_basics.Config.Load.{
  Yaml, mapping, Fields, no_fields, field, Entry, Source, from_env, from_yaml, Settings, merge,
  fields_of,
}
use nodejs_basics.Config.Values.{Platform, Rule, string_value}
use nodejs_basics.Config.Values.Checks.{invalid_values, read, Reading, unset, threw, value}

pub data Problem : Type 0 where
  unknown_key : (path : Text) (hint : Option Text) → Problem
  invalid missing_required missing_integration : (key : String) → Problem
  admin_open : Problem
  stray_settings : (keys : List String) → Problem

-- `path.split(".")` put together again.
abbrev pub joined_path : List String → Text
joined_path [] = []
joined_path (name ∷ []) = codes name
joined_path (name ∷ next ∷ names) = codes name ++ (codes "." ++ joined_path (next ∷ names))

-- `YAML_PATHS`
abbrev pub yaml_path : Option (List String) → List Text → List Text
yaml_path none paths = paths
yaml_path (some names) paths = joined_path names ∷ paths

abbrev pub yaml_paths : List Entry → List Text
yaml_paths [] = []
yaml_paths (e ∷ registry) = yaml_path e.yaml (yaml_paths registry)

abbrev pub registered : List Entry → List Text
registered registry = map (λ e. codes e.key) registry

abbrev pub has_text : List Text → Text → Bool
has_text texts t = any (λ known. text_beq known t) texts

abbrev pub path_under : (prefix : Text) (key : String) → Text
path_under prefix key = if text_beq prefix [] then codes key else prefix ++ (codes "." ++ codes key)

module _ (registry : List Entry) where
  -- `YAML_PATHS.has(path) || (prefix === "" && REGISTERED.has(key))`
  abbrev pub is_leaf : (prefix : Text) (key : String) → Bool
  is_leaf prefix key =
      has_text (yaml_paths registry) (path_under prefix key)
      || (text_beq prefix [] && has_text (registered registry) (codes key))

  abbrev pub hint_for : (prefix : Text) (key : String) → Option Text
  hint_for prefix key = nearest lower (path_under prefix key) (
      if text_beq prefix []
      then yaml_paths registry ++ registered registry
      else yaml_paths registry)

  unfoldable mutual
    -- `walk` of `unknownKeys`
    pub unknown_in : (prefix : Text) → Fields → List Problem
    unknown_in prefix no_fields = []
    unknown_in prefix (field key content fields) =
        let rest = unknown_in prefix fields in
        let inner = unknown_below prefix key content in
        if is_leaf prefix key then rest else inner ++ rest

    pub unknown_below : (prefix : Text) (key : String) → Yaml → List Problem
    unknown_below prefix key (mapping fields) = unknown_in (path_under prefix key) fields
    unknown_below prefix key _ = unknown_key (path_under prefix key) (hint_for prefix key) ∷ []

-- `isLoopback`: the groups behind `127`, with so many to come and so many digits of this one.
abbrev pub is_group : (more digits : ℕ) → Text → Bool
is_group zero digits [] = leb 1 digits
is_group (suc more) digits [] = false
is_group zero digits (c ∷ s) =
    let rest = is_group zero (digits + 1) s in is_digit c && ltb digits 3 && rest
is_group (suc more) digits (c ∷ s) =
    let rest = is_group (suc more) (digits + 1) s in
    let next = is_group more 0 s in
    if is_digit c then ltb digits 3 && rest else c == b'.' && leb 1 digits && next

abbrev pub is_loopback_net : Option Text → Bool
is_loopback_net none = false
is_loopback_net (some groups) = is_group 2 0 groups

abbrev pub is_loopback : (host : Text) → Bool
is_loopback host =
    host === codes "localhost"
    || host === codes "::1"
    || is_loopback_net (strip (codes "127.") host)

abbrev pub or_empty : Option Text → Text
or_empty none = []
or_empty (some t) = t

abbrev pub is_true_text : Text → Bool
is_true_text t = lower t === codes "true" || t === codes "1"

-- The admin listener is safe to start.
abbrev pub admin_is_safe : List (String × Text) → Bool
admin_is_safe env =
    not (text_beq (or_empty (lookup "ADMIN_TOKEN" env)) [])
    || is_loopback (or_empty (lookup "ADMIN_HOST" env))
    || is_true_text (or_empty (lookup "ADMIN_INSECURE" env))

-- `adminProblems`
unfoldable pub admin_problems : List (String × Text) → List Problem
admin_problems env = if admin_is_safe env then [] else admin_open ∷ []

-- `INTEGRATIONS`
pub data Integration : Type 0 where
  valkey kafka : Integration

abbrev pub key_of : Integration → String
key_of valkey = "VALKEY_URL"
key_of kafka = "KAFKA_BROKERS"

abbrev pub prefix_of : Integration → Text
prefix_of valkey = codes "VALKEY_"
prefix_of kafka = codes "KAFKA_"

abbrev pub same_integration : Integration → Integration → Bool
same_integration valkey valkey = true
same_integration kafka kafka = true
same_integration _ _ = false

abbrev pub has_prefix : Option Text → Bool
has_prefix none = false
has_prefix (some rest) = true

abbrev pub is_explicit : Option Source → Bool
is_explicit (some from_env) = true
is_explicit (some from_yaml) = true
is_explicit _ = false

abbrev pub stray_problem : List String → List Problem
stray_problem [] = []
stray_problem (key ∷ keys) = stray_settings (key ∷ keys) ∷ []

module _ (p : Platform) where
  -- An entry of `ENV_REGISTRY`.
  pub record Registered : Type 0 where
    pub entry : Entry
    pub rule : Rule p
    pub required : Bool

  -- `LoadOptions`
  pub record LoadOptions : Type 0 where
    pub defaults : List (String × Text)
    pub requires : List Integration
    pub admin : Bool

  abbrev pub entries : List Registered → List Entry
  entries registry = map (λ r. r.entry) registry

  abbrev pub rules : List Registered → List (Rule p)
  rules registry = map (λ r. r.rule) registry

  abbrev pub is_set : Reading p → Bool
  is_set unset = false
  is_set _ = true

  -- `integrationEnabled`
  unfoldable pub integration_enabled : List Registered → List (String × Text) → Integration → Bool
  integration_enabled registry env name =
      is_set (read p (rules registry) env (key_of name) string_value)

  abbrev pub stray_keys : List Registered → List (String × Source) → Integration → List String
  stray_keys registry sources name =
      keep
        (λ key. has_prefix (strip (prefix_of name) (codes key)) && is_explicit (lookup key sources))
        (map (λ r. r.entry.key) registry)

  unfoldable pub problems_of :
      List Registered → List Integration → Settings → Integration → List Problem
  unfolding integration_enabled
  problems_of registry requires s name =
      if integration_enabled registry s.env name
      then []
      else if any (λ needed. same_integration needed name) requires
      then missing_integration (key_of name) ∷ []
      else stray_problem (stray_keys registry s.sources name)

  -- `integrationProblems`
  unfoldable pub integration_problems : List Registered → List Integration → Settings → List Problem
  unfolding problems_of
  integration_problems registry requires s =
      problems_of registry requires s valkey ++ problems_of registry requires s kafka

  -- `missingRequiredKeys`
  abbrev pub is_missing : List (String × Text) → Registered → Bool
  is_missing env r = r.required && (elim (lookup r.entry.key env) [ none ↦ true | some _ ↦ false ])

  unfoldable pub missing_required_keys : List Registered → List (String × Text) → List Problem
  missing_required_keys [] env = []
  missing_required_keys (r ∷ registry) env =
      let rest = missing_required_keys registry env in
      if is_missing env r then missing_required r.entry.key ∷ rest else rest

  abbrev pub invalid_problems : List String → List Problem
  invalid_problems keys = map (λ key. invalid key) keys

  -- All problems, in the order in which `load` lists them.
  unfoldable pub problems : LoadOptions → List Registered → Fields → Settings → List Problem
  unfolding unknown_in missing_required_keys integration_problems admin_problems
  problems options registry file s =
      unknown_in (entries registry) [] file
      ++ (invalid_problems (invalid_values p (rules registry) s.env)
          ++ (missing_required_keys registry s.env
              ++ ((if options.admin then admin_problems s.env else [])
                  ++ integration_problems registry options.requires s)))

  abbrev pub unless_problems : List Problem → Settings → Option Settings
  unless_problems [] s = some s
  unless_problems (problem ∷ problems) s = none

  -- `load`; `none` where it throws.
  unfoldable pub load :
      (stringify : Yaml → Text)
      → LoadOptions
      → List Registered
      → (parsed : Option Yaml) → (env : List (String × Text)) → Option Settings
  unfolding problems
  load stringify options registry parsed env =
      let s = merge stringify (entries registry) options.defaults parsed env in
      unless_problems (problems options registry (fields_of parsed) s) s
