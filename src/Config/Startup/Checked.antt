-- ===== src/Config/Startup/Checked.antt =====
-- What holds of a configuration that a process starts with.
use nodejs_basics.Prelude.{
  String, Bool, true, false, Option, some, List, [], ◌∷◌, ◌≡◌, ◌≢◌, ◌⊎◌, map, refl, subst, arith,
  All, any, string_key, Bool-cases, inl, inr, if◌then◌else◌,
}
use nodejs_basics.Prelude.Texts.{Text}
use nodejs_basics.Config.Load.{
  Yaml, mapping, null_value, scalar, sequence, Fields, no_fields, field, Entry, Settings, merge,
  fields_of,
}
use nodejs_basics.Config.Values.{Platform}
use nodejs_basics.Config.Values.Checks.{invalid_values}
use nodejs_basics.Config.Startup.Meaning.{
  append-none, IsClosed, admin_is_safe-IsClosed, IsStray, stray_keys-none, needed-none,
}
use nodejs_basics.Config.Startup.Settled.{
  IsValid, invalid_values-IsValid, IsGiven, is_missing-IsGiven, IsOn, integration_enabled-IsOn,
}
use nodejs_basics.Config.Startup.{
  Problem, is_leaf, path_under, unknown_in, unknown_below, admin_is_safe, admin_problems,
  Integration, valkey, kafka, same_integration, Registered, LoadOptions, entries, rules,
  integration_enabled, problems_of, stray_keys, stray_problem, integration_problems, is_missing,
  missing_required_keys, invalid_problems, problems, unless_problems, load,
}

module _ (registry : List Entry) where
  mutual
    -- Every key is a leaf that the walk knows, or all keys below it are or lead to one.
    pub AllRead : (prefix : Text) → Fields → Type 0
    AllRead prefix no_fields = Unit
    AllRead prefix (field key content fields) =
        ((is_leaf registry prefix key ≡ true) ⊎ IsRead prefix key content) × AllRead prefix fields

    pub IsRead : (prefix : Text) (key : String) → Yaml → Type 0
    IsRead prefix key (mapping fields) = AllRead (path_under prefix key) fields
    IsRead prefix key null_value = ⊥
    IsRead prefix key (scalar printed) = ⊥
    IsRead prefix key (sequence items) = ⊥

  mutual
    unfolding unknown_in AllRead

    unknown_in-AllRead :
        (prefix : Text) (fields : Fields)
        → unknown_in registry prefix fields ≡ []
        → AllRead prefix fields
    unknown_in-AllRead prefix no_fields q = tt
    unknown_in-AllRead prefix (field key content fields) q =
        elim (Bool-cases (is_leaf registry prefix key)) [
          | inl leaf ↦ (inl leaf, unknown_in-AllRead prefix fields (rw leaf at q))
          | inr inner ↦
              let both =
                append-none (unknown_below registry prefix key content)
                  (unknown_in registry prefix fields) (rw inner at q) in
              (
                inr (unknown_below-IsRead prefix key content both.0),
                unknown_in-AllRead prefix fields both.1,
              )
        ]

    unknown_below-IsRead :
        (prefix : Text) (key : String) (content : Yaml)
        → unknown_below registry prefix key content ≡ []
        → IsRead prefix key content
    unknown_below-IsRead prefix key (mapping fields) q =
        unknown_in-AllRead (path_under prefix key) fields q
    unknown_below-IsRead prefix key null_value q = absurd (cc)
    unknown_below-IsRead prefix key (scalar printed) q = absurd (cc)
    unknown_below-IsRead prefix key (sequence items) q = absurd (cc)

module _ (p : Platform) where
  missing-none :
      (registry : List (Registered p)) (env : List (String × Text))
      → missing_required_keys p registry env ≡ []
      → All (IsGiven p env) registry
  unfolding missing_required_keys
  missing-none [] env q = tt
  missing-none (r ∷ registry) env q = elim (Bool-cases (is_missing p env r)) [
    | inl missing ↦ absurd (ground (arith, missing, q))
    | inr fine ↦ (is_missing-IsGiven p env r fine, missing-none registry env (rw fine at q))
  ]

  invalid-none : (keys : List String) → invalid_problems p keys ≡ [] → keys ≡ []
  invalid-none [] q = refl
  invalid-none (key ∷ keys) q = absurd (cc)

  -- An integration is on, or the app does not need it and the environment and the file set none of its
  -- keys.
  abbrev pub IsSettled : List (Registered p) → List Integration → Settings → Integration → Type 0
  IsSettled registry requires s name =
      IsOn p registry s.env name
      ⊎ (All (λ needed. needed ≢ name) requires
          × All (λ key. ¬ IsStray s.sources name key) (map (λ r. r.entry.key) registry))

  stray_problem-none : (keys : List String) → stray_problem keys ≡ [] → keys ≡ []
  stray_problem-none [] q = refl
  stray_problem-none (key ∷ keys) q = absurd (cc)

  problems_of-IsSettled :
      (registry : List (Registered p)) (requires : List Integration) (s : Settings)
      (name : Integration)
      → problems_of p registry requires s name ≡ []
      → IsSettled registry requires s name
  unfolding problems_of
  problems_of-IsSettled registry requires s name q =
      elim (Bool-cases (integration_enabled p registry s.env name)) [
        | inl on ↦ inl (integration_enabled-IsOn p registry s.env name on)
        | inr off ↦ elim (Bool-cases (any (λ needed. same_integration needed name) requires)) [
          | inl needed ↦ absurd (ground (arith, off, needed, q))
          | inr optional ↦ inr (
            needed-none name requires optional,
            stray_keys-none p registry s.sources name (
                stray_problem-none (stray_keys p registry s.sources name)
                  (rw (off, optional) at q)),
          )
        ]
      ]

  admin_problems-none :
      (admin : Bool) (env : List (String × Text))
      → (if admin then admin_problems env else []) ≡ []
      → (admin ≡ false) ⊎ IsClosed env
  unfolding admin_problems
  admin_problems-none false env q = inl refl
  admin_problems-none true env q = elim (Bool-cases (admin_is_safe env)) [
    | inl safe ↦ inr (admin_is_safe-IsClosed env safe)
    | inr unsafe ↦ absurd (ground (arith, unsafe, q))
  ]

  unless_problems_lem :
      (ps : List Problem) (s t : Settings) → unless_problems p ps s ≡ some t → (ps ≡ []) × (s ≡ t)
  unless_problems_lem [] s t q = (refl, cc)
  unless_problems_lem (problem ∷ ps) s t q = absurd (cc)

  record IsSound (options : LoadOptions p) (registry : List (Registered p)) (file : Fields)
      (s : Settings) : Type 0 where
    no_typo : AllRead (entries p registry) [] file
    valid : All (IsValid p s.env) (rules p registry)
    complete : All (IsGiven p s.env) registry
    closed : (options.admin ≡ false) ⊎ IsClosed s.env
    valkey_settled : IsSettled registry options.requires s valkey
    kafka_settled : IsSettled registry options.requires s kafka

  problems-IsSound :
      (options : LoadOptions p) (registry : List (Registered p)) (file : Fields) (s : Settings)
      → problems p options registry file s ≡ []
      → IsSound options registry file s
  unfolding problems integration_problems
  problems-IsSound options registry file s q =
      let unknown = unknown_in (entries p registry) [] file in
      let wrong = invalid_problems p (invalid_values p (rules p registry) s.env) in
      let missing = missing_required_keys p registry s.env in
      let exposed : List Problem = if options.admin then admin_problems s.env else [] in
      let (q1, r1) = append-none unknown _ q in
      let (q2, r2) = append-none wrong _ r1 in
      let (q3, r3) = append-none missing _ r2 in
      let (q4, r4) = append-none exposed _ r3 in
      let (q5, q6) = append-none (problems_of p registry options.requires s valkey) _ r4 in
      record {
        no_typo = unknown_in-AllRead (entries p registry) [] file q1;
        valid =
            invalid_values-IsValid p (rules p registry) s.env
              (invalid-none (invalid_values p (rules p registry) s.env) q2);
        complete = missing-none registry s.env q3;
        closed = admin_problems-none options.admin s.env q4;
        valkey_settled = problems_of-IsSettled registry options.requires s valkey q5;
        kafka_settled = problems_of-IsSettled registry options.requires s kafka q6;
      }

  -- If the loader does not throw, the process runs with the merged settings, and: every key of the file
  -- makes, with those above it, a registered path, or is at the top a registered key, or leads to such
  -- keys only; every text that is not empty and whose key has a type parses to a value of it, and a
  -- number lies on the right side of those keys' numbers that it is bounded by; every required key
  -- is set; the admin listener, if the app has one, has a token that is not empty, a loopback address, or
  -- `true` or `1` as the leave to go without; and of each integration the connection key has a text or a
  -- default, or the app does not need it and neither the environment nor the file sets a key of it.
  pub load_sound :
      (stringify : Yaml → Text) (options : LoadOptions p) (registry : List (Registered p))
      (parsed : Option Yaml) (env : List (String × Text)) (s : Settings)
      → load p stringify options registry parsed env ≡ some s
      → (merge stringify (entries p registry) options.defaults parsed env ≡ s)
        × AllRead (entries p registry) [] (fields_of parsed)
        × All (IsValid p s.env) (rules p registry)
        × All (IsGiven p s.env) registry
        × ((options.admin ≡ false) ⊎ IsClosed s.env)
        × IsSettled registry options.requires s valkey
        × IsSettled registry options.requires s kafka
  unfolding load
  load_sound stringify options registry parsed env s q =
      let merged = merge stringify (entries p registry) options.defaults parsed env in
      let (none_found, same) =
        unless_problems_lem (problems p options registry (fields_of parsed) merged) merged s q in
      let sound =
        problems-IsSound options registry (fields_of parsed) s
          (subst (λ t. problems p options registry (fields_of parsed) t ≡ []) same none_found) in
      (
        same, sound.no_typo, sound.valid, sound.complete, sound.closed, sound.valkey_settled,
        sound.kafka_settled,
      )
