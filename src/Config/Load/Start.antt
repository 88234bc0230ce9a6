-- ===== src/Config/Load/Start.antt =====
-- The environment that the merge starts from: without empty values, its keys marked as its own.
use nodejs_basics.Prelude.{
  String, true, Option, none, some, List, [], ◌∷◌, ◌≡◌, refl, ap, ◌∙◌, string_key, lookup,
  lookup-erase, lookup-insert, Bool-cases, inl, inr, if◌then◌else◌,
}
use nodejs_basics.Prelude.Texts.{Text}
use nodejs_basics.Config.Load.{
  Yaml, Entry, Source, from_env, Settings, is_registered, drop_if_empty, drop_empty_values,
  record_if_set, record_env_sources,
}
use nodejs_basics.Config.Load.Precedence.{known, Tracks}

-- An empty value is no value.
abbrev pub not_empty : Option Text → Option Text
not_empty none = none
not_empty (some []) = none
not_empty (some (c ∷ value)) = some (c ∷ value)

not_empty-not_empty : (o : Option Text) → not_empty (not_empty o) ≡ not_empty o
not_empty-not_empty none = refl
not_empty-not_empty (some []) = refl
not_empty-not_empty (some (c ∷ value)) = refl

abbrev marked : Option Text → Option Source → Option Source
marked none before = before
marked (some value) before = some from_env

marked_twice :
    (o : Option Text) (before : Option Source) → marked o (marked o before) ≡ marked o before
marked_twice none before = refl
marked_twice (some value) before = refl

module _ (stringify : Yaml → Text) where
  drop_if_empty_lem :
      (j k : String) (o : Option Text) (s : Settings)
      → lookup j s.env ≡ o
      → lookup k (drop_if_empty stringify j o s).env
        ≡ (if string_key.beq j k then not_empty (lookup k s.env) else lookup k s.env)
  drop_if_empty_lem j k none s q = elim (Bool-cases (string_key.beq j k)) [
    | inl hit ↦
        let same : j ≡ k = (string_key.beq_iff j k).0 hit in
        let gone : lookup k s.env ≡ none = rw same at q in rw (hit, gone) refl
    | inr miss ↦ rw miss refl
  ]
  drop_if_empty_lem j k (some []) s q = elim (Bool-cases (string_key.beq j k)) [
    | inl hit ↦
        let same : j ≡ k = (string_key.beq_iff j k).0 hit in
        let there : lookup k s.env ≡ some [] = rw same at q in
        lookup-erase j k s.env ∙ rw (hit, there) refl
    | inr miss ↦ lookup-erase j k s.env ∙ rw miss refl
  ]
  drop_if_empty_lem j k (some (c ∷ value)) s q = elim (Bool-cases (string_key.beq j k)) [
    | inl hit ↦
        let same : j ≡ k = (string_key.beq_iff j k).0 hit in
        let there : lookup k s.env ≡ some (c ∷ value) = rw same at q in rw (hit, there) refl
    | inr miss ↦ rw miss refl
  ]

  drop_if_empty_sources :
      (j : String) (o : Option Text) (s : Settings)
      → (drop_if_empty stringify j o s).sources ≡ s.sources
  drop_if_empty_sources j none s = refl
  drop_if_empty_sources j (some []) s = refl
  drop_if_empty_sources j (some (c ∷ value)) s = refl

  drop_empty_values_lem :
      (registry : List Entry) (k : String) (s : Settings)
      → (lookup k (drop_empty_values stringify registry s).env ≡ (
          if is_registered stringify registry k
          then not_empty (lookup k s.env)
          else lookup k s.env))
        × ((drop_empty_values stringify registry s).sources ≡ s.sources)
  unfolding drop_empty_values
  drop_empty_values_lem [] k s = (refl, refl)
  drop_empty_values_lem (e ∷ registry) k s =
      let t = drop_if_empty stringify e.key (lookup e.key s.env) s in
      let (rest, sources) = drop_empty_values_lem registry k t in
      let first = drop_if_empty_lem e.key k (lookup e.key s.env) s refl in
      (
        elim (Bool-cases (string_key.beq e.key k)) [
          | inl hit ↦ elim (Bool-cases (is_registered stringify registry k)) [
            | inl later ↦ rest ∙ rw (first, hit, later) (not_empty-not_empty (lookup k s.env))
            | inr never ↦ rest ∙ rw (first, hit, never) refl
          ]
          | inr miss ↦ rest ∙ rw (first, miss) refl
        ],
        sources ∙ drop_if_empty_sources e.key (lookup e.key s.env) s,
      )

  record_if_set_lem :
      (j k : String) (o : Option Text) (s : Settings)
      → lookup j s.env ≡ o
      → (lookup k (record_if_set stringify j o s).sources ≡ (
          if string_key.beq j k
          then marked (lookup k s.env) (lookup k s.sources)
          else lookup k s.sources))
        × ((record_if_set stringify j o s).env ≡ s.env)
  record_if_set_lem j k none s q = elim (Bool-cases (string_key.beq j k)) [
    | inl hit ↦
        let same : j ≡ k = (string_key.beq_iff j k).0 hit in
        let gone : lookup k s.env ≡ none = rw same at q in (rw (hit, gone) refl, refl)
    | inr miss ↦ (rw miss refl, refl)
  ]
  record_if_set_lem j k (some value) s q = elim (Bool-cases (string_key.beq j k)) [
    | inl hit ↦
        let same : j ≡ k = (string_key.beq_iff j k).0 hit in
        let there : lookup k s.env ≡ some value = rw same at q in
        (lookup-insert j k from_env s.sources ∙ rw (hit, there) refl, refl)
    | inr miss ↦ (lookup-insert j k from_env s.sources ∙ rw miss refl, refl)
  ]

  record_env_sources_lem :
      (registry : List Entry) (k : String) (s : Settings)
      → (lookup k (record_env_sources stringify registry s).sources ≡ (
          if is_registered stringify registry k
          then marked (lookup k s.env) (lookup k s.sources)
          else lookup k s.sources))
        × ((record_env_sources stringify registry s).env ≡ s.env)
  unfolding record_env_sources
  record_env_sources_lem [] k s = (refl, refl)
  record_env_sources_lem (e ∷ registry) k s =
      let t = record_if_set stringify e.key (lookup e.key s.env) s in
      let (rest, env) = record_env_sources_lem registry k t in
      let (first, same_env) = record_if_set_lem e.key k (lookup e.key s.env) s refl in
      (
        elim (Bool-cases (string_key.beq e.key k)) [
          | inl hit ↦ elim (Bool-cases (is_registered stringify registry k)) [
            | inl later ↦
                rest
                ∙ rw (same_env, first, hit, later)
                    (marked_twice (lookup k s.env) (lookup k s.sources))
            | inr never ↦ rest ∙ rw (first, hit, never) refl
          ]
          | inr miss ↦ rest ∙ rw (same_env, first, miss) refl
        ],
        env ∙ same_env,
      )

  abbrev started : List Entry → List (String × Text) → Settings
  started registry env =
      record_env_sources stringify registry
        (drop_empty_values stringify registry (record { env = env; sources = [] }))

  start_Tracks :
      (k : String) (s : Settings) (o : Option Text)
      → lookup k s.env ≡ o
      → lookup k s.sources ≡ marked o none
      → Tracks s k (known from_env o)
  start_Tracks k s none q r = (q, r)
  start_Tracks k s (some value) q r = (q, r)

  pub started-Tracks :
      (registry : List Entry) (env : List (String × Text)) (k : String)
      → is_registered stringify registry k ≡ true
      → Tracks
          (record_env_sources stringify registry
            (drop_empty_values stringify registry (record { env = env; sources = [] })))
          k
          (known from_env (not_empty (lookup k env)))
  unfolding lookup
  started-Tracks registry env k h =
      let dropped = drop_empty_values stringify registry (record { env = env; sources = [] }) in
      let (values, no_sources) =
        drop_empty_values_lem registry k (record { env = env; sources = [] }) in
      let (sources, same_env) = record_env_sources_lem registry k dropped in
      let value : lookup k dropped.env ≡ not_empty (lookup k env) = values ∙ rw h refl in
      start_Tracks k (started registry env) (not_empty (lookup k env))
        (ap (λ m. lookup k m) same_env ∙ value) (sources ∙ rw (h, no_sources, value) refl)
