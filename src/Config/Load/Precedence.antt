-- ===== src/Config/Load/Precedence.antt =====
-- Where the value of a key comes from after the merge.
use nodejs_basics.Prelude.{
  String, Bool, Option, none, some, List, [], ◌∷◌, ◌≡◌, refl, subst, ◌∙◌, arith, ◌===◌, string_key,
  lookup, lookup-insert, Bool-cases, inl, inr, if◌then◌else◌,
}
use nodejs_basics.Prelude.Texts.{Text}
use nodejs_basics.Config.Load.{
  Yaml, Fields, no_fields, field, Entry, Source, from_yaml, from_default, Settings, set_to,
  structured_value, or_value, is_registered, set_absent, fill, apply_structured, apply_flat,
  apply_defaults,
}

-- A value with its source, if there is one.
abbrev pub Known : Type 0
Known = Option (Text × Source)

abbrev pub value_of : Known → Option Text
value_of none = none
value_of (some (value, source)) = some value

abbrev pub source_of : Known → Option Source
source_of none = none
source_of (some (value, source)) = some source

abbrev pub known : Source → Option Text → Known
known source none = none
known source (some value) = some (value, source)

infix 30 ◌or◌
abbrev pub ◌or◌ : Known → Known → Known
none or later = later
some first or later = some first

-- The settings hold this of a key.
abbrev pub Tracks : Settings → String → Known → Type 0
Tracks s k r = (lookup k s.env ≡ value_of r) × (lookup k s.sources ≡ source_of r)

abbrev pub only_if : Bool → Known → Known
only_if b r = if b then r else none

or_none : (r : Known) → (r or none) ≡ r
or_none none = refl
or_none (some first) = refl

or_assoc : (r q p : Known) → ((r or q) or p) ≡ (r or (q or p))
or_assoc none q p = refl
or_assoc (some first) q p = refl

-- What is known of a key that has a value already, and of one that has none.
stays :
    (s : Settings) (k : String) (r later : Known) (value : Text)
    → Tracks s k r
    → lookup k s.env ≡ some value
    → (r or later) ≡ r
stays s k none later value t there = absurd (ground (arith, t, there))
stays s k (some first) later value t there = refl

unknown_yet :
    (s : Settings) (k : String) (r : Known) → Tracks s k r → lookup k s.env ≡ none → r ≡ none
unknown_yet s k none t free = refl
unknown_yet s k (some first) t free = absurd (ground (arith, t, free))

module _ (stringify : Yaml → Text) where
  set_absent-Tracks :
      (source : Source) (j k : String) (present new : Option Text) (s : Settings) (r : Known)
      → lookup j s.env ≡ present
      → Tracks s k r
      → Tracks
          (set_absent stringify source j present new s)
          k
          (r or only_if (string_key.beq j k) (known source new))
  set_absent-Tracks source j k none none s r q t = elim (Bool-cases (string_key.beq j k)) [
    | inl hit ↦ rw (hit, or_none) t
    | inr miss ↦ rw (miss, or_none) t
  ]
  set_absent-Tracks source j k (some value) new s r q t = elim (Bool-cases (string_key.beq j k)) [
    | inl hit ↦
        let same : j ≡ k = (string_key.beq_iff j k).0 hit in
        let there : lookup k s.env ≡ some value = rw same at q in
        rw (stays s k r (only_if (string_key.beq j k) (known source new)) value t there) t
    | inr miss ↦ rw (miss, or_none) t
  ]
  set_absent-Tracks source j k none (some value) s r q t = elim (Bool-cases (string_key.beq j k)) [
    | inl hit ↦
        let same : j ≡ k = (string_key.beq_iff j k).0 hit in
        let free : lookup k s.env ≡ none = rw same at q in
        rw (unknown_yet s k r t free, hit)
          (
            lookup-insert j k value s.env ∙ rw hit refl,
            lookup-insert j k source s.sources ∙ rw hit refl,
          )
    | inr miss ↦
        rw (miss, or_none)
          (
            lookup-insert j k value s.env ∙ rw miss t.0,
            lookup-insert j k source s.sources ∙ rw miss t.1,
          )
  ]

  fill-Tracks :
      (source : Source) (j k : String) (new : Option Text) (s : Settings) (r : Known)
      → Tracks s k r
      → Tracks
          (fill stringify source j new s)
          k
          (r or only_if (string_key.beq j k) (known source new))
  fill-Tracks source j k new s r t = set_absent-Tracks source j k (lookup j s.env) new s r refl t

  -- What the structured paths, the flat keys and the defaults have for a key, the first one first.
  abbrev pub structured_of : Fields → List Entry → String → Known
  structured_of file [] k = none
  structured_of file (e ∷ registry) k =
      only_if (e.key === k) (known from_yaml (structured_value stringify file e.yaml))
      or structured_of file registry k

  abbrev pub flat_of : List Entry → Fields → String → Known
  flat_of registry no_fields k = none
  flat_of registry (field key value fields) k =
      only_if (is_registered stringify registry key)
        (only_if (key === k) (known from_yaml (set_to stringify (some value))))
      or flat_of registry fields k

  abbrev pub default_of : List (String × Text) → List Entry → String → Known
  default_of own [] k = none
  default_of own (e ∷ registry) k =
      only_if (e.key === k) (known from_default (or_value stringify (lookup e.key own) e.fallback))
      or default_of own registry k

  pub apply_structured-Tracks :
      (file : Fields) (registry : List Entry) (k : String) (s : Settings) (r : Known)
      → Tracks s k r
      → Tracks (apply_structured stringify file registry s) k (r or structured_of file registry k)
  unfolding apply_structured
  apply_structured-Tracks file [] k s r t = rw or_none t
  apply_structured-Tracks file (e ∷ registry) k s r t =
      let new = structured_value stringify file e.yaml in
      let first = only_if (e.key === k) (known from_yaml new) in
      subst (λ q. Tracks (apply_structured stringify file (e ∷ registry) s) k q)
        (or_assoc r first (structured_of file registry k))
        (apply_structured-Tracks file registry k (fill stringify from_yaml e.key new s) (r or first)
          (fill-Tracks from_yaml e.key k new s r t))

  pub apply_defaults-Tracks :
      (own : List (String × Text)) (registry : List Entry) (k : String) (s : Settings) (r : Known)
      → Tracks s k r
      → Tracks (apply_defaults stringify own registry s) k (r or default_of own registry k)
  unfolding apply_defaults
  apply_defaults-Tracks own [] k s r t = rw or_none t
  apply_defaults-Tracks own (e ∷ registry) k s r t =
      let new = or_value stringify (lookup e.key own) e.fallback in
      let first = only_if (e.key === k) (known from_default new) in
      subst (λ q. Tracks (apply_defaults stringify own (e ∷ registry) s) k q)
        (or_assoc r first (default_of own registry k))
        (apply_defaults-Tracks own registry k (fill stringify from_default e.key new s) (r or first)
          (fill-Tracks from_default e.key k new s r t))

  pub apply_flat-Tracks :
      (registry : List Entry) (fields : Fields) (k : String) (s : Settings) (r : Known)
      → Tracks s k r
      → Tracks (apply_flat stringify registry fields s) k (r or flat_of registry fields k)
  unfolding apply_flat
  apply_flat-Tracks registry no_fields k s r t = rw or_none t
  apply_flat-Tracks registry (field key value fields) k s r t =
      let new = set_to stringify (some value) in
      let first = only_if (key === k) (known from_yaml new) in
      elim (Bool-cases (is_registered stringify registry key)) [
        | inl in_registry ↦ rw in_registry (
            subst
              (λ q.
                Tracks (apply_flat stringify registry fields (fill stringify from_yaml key new s)) k
                  q)
              (or_assoc r first (flat_of registry fields k))
              (apply_flat-Tracks registry fields k (fill stringify from_yaml key new s) (r or first)
                (fill-Tracks from_yaml key k new s r t)))
        | inr other ↦ rw other (apply_flat-Tracks registry fields k s r t)
      ]
