-- ===== src/Redact/Hidden.antt =====
-- Nothing secret is left, and nothing else is changed.
use nodejs_basics.Prelude.{
  Bool, true, false, Option, none, some, [], ◌∷◌, ◌≡◌, ◌≢◌, ◌⊎◌, inl, inr, refl, ◌||◌, not,
  Bool-cases, Option-cases, arith,
}
use nodejs_basics.Prelude.Texts.{Text, codes, text_beq, text_beq_iff}
use nodejs_basics.Redact.{
  Value, nothing, plain, string, array, object, Items, no_items, item, Fields, no_fields, field,
  UrlClass, redacted, mask, includes, is_secret_key, mask_url, redact_url, redact_string, redact,
  redact_items, redact_fields,
}

module _ (u : UrlClass) where
  abbrev pub HasNoPassword : Option u.Url → Type 0
  HasNoPassword none = Unit
  HasNoPassword (some url) = (u.password url ≡ []) ⊎ (u.password url ≡ mask)

  -- A text without `://`, without `@`, that is no URL, or that has no password but the mask.
  abbrev pub NoPassword : Text → Type 0
  NoPassword t =
      (includes t (codes "://") ≡ false)
      ⊎ ((includes t (codes "@") ≡ false) ⊎ HasNoPassword (u.parse t))

  abbrev pub HidesText : (secret : Bool) → Text → Type 0
  HidesText true t = (t ≡ []) ⊎ (t ≡ redacted)
  HidesText false t = NoPassword t

  abbrev pub KeepsText : (secret : Bool) → (before after : Text) → Type 0
  KeepsText true before after = Unit
  KeepsText false before after = (after ≡ before) ⊎ ((url : u.Url) × (u.parse before ≡ some url))

  mutual
    -- Every text below a secret key is hidden, and every other one with `://` and `@` has no password.
    pub IsHidden : (secret : Bool) → Value → Type 0
    IsHidden secret nothing = Unit
    IsHidden secret plain = Unit
    IsHidden secret (string t) = HidesText secret t
    IsHidden secret (array items) = AreHidden secret items
    IsHidden secret (object fields) = HasHidden secret fields

    pub AreHidden : (secret : Bool) → Items → Type 0
    AreHidden secret no_items = Unit
    AreHidden secret (item value items) = IsHidden secret value × AreHidden secret items

    pub HasHidden : (secret : Bool) → Fields → Type 0
    HasHidden secret no_fields = Unit
    HasHidden secret (field key value fields) =
        IsHidden (secret || is_secret_key key) value × HasHidden secret fields

  mutual
    -- The same structure with the same keys and the same other values; a text that is no URL and not
    -- secret is the same.
    pub IsKept : (secret : Bool) → (before after : Value) → Type 0
    IsKept secret (string s) after = (t : Text) × (after ≡ string t) × KeepsText secret s t
    IsKept secret (array items) after =
        (kept : Items) × (after ≡ array kept) × AreKept secret items kept
    IsKept secret (object fields) after =
        (kept : Fields) × (after ≡ object kept) × HasKept secret fields kept
    IsKept secret nothing after = after ≡ nothing
    IsKept secret plain after = after ≡ plain

    pub AreKept : (secret : Bool) → (before after : Items) → Type 0
    AreKept secret no_items after = after ≡ no_items
    AreKept secret (item value items) after =
        (v : Value) × (rest : Items) × (after ≡ item v rest)
        × IsKept secret value v
        × AreKept secret items rest

    pub HasKept : (secret : Bool) → (before after : Fields) → Type 0
    HasKept secret no_fields after = after ≡ no_fields
    HasKept secret (field key value fields) after =
        (v : Value) × (rest : Fields) × (after ≡ field key v rest)
        × IsKept (secret || is_secret_key key) value v
        × HasKept secret fields rest

  -- What a URL that is printed with another password has, when it is parsed again.
  abbrev pub MasksPasswords : Type 0
  MasksPasswords =
      (url again : u.Url)
      → u.password url ≢ []
      → u.parse (u.to_string (u.with_password mask url)) ≡ some again
      → u.password again ≡ mask

  module _ (masks : MasksPasswords) where
    printed-HasNoPassword :
        (own : u.Url)
        → u.password own ≢ []
        → HasNoPassword (u.parse (u.to_string (u.with_password mask own)))
    printed-HasNoPassword own set =
        elim (Option-cases (u.parse (u.to_string (u.with_password mask own)))) [
          | inl no_url ↦ rw no_url tt
          | inr (again, parsed) ↦ rw parsed (inr (masks own again set parsed))
        ]

    mask_url-HasNoPassword :
        (value : Text) (o : Option u.Url)
        → u.parse value ≡ o
        → HasNoPassword (u.parse (mask_url u value o))
    mask_url-HasNoPassword value none q = rw q tt
    mask_url-HasNoPassword value (some own) q = elim (Bool-cases (text_beq (u.password own) [])) [
      | inl empty ↦ rw (empty, q) (inl ((text_beq_iff (u.password own) []).0 empty))
      | inr set ↦ rw set (
          printed-HasNoPassword own (λ e. ground (arith, text_beq_iff (u.password own) [], e, set)))
    ]

    redact_url-NoPassword : (value : Text) → NoPassword (redact_url u value)
    unfolding redact_url
    redact_url-NoPassword value = elim (Bool-cases (includes value (codes "://"))) [
      | inr none_there ↦ rw none_there (inl none_there)
      | inl slashed ↦ elim (Bool-cases (includes value (codes "@"))) [
        | inr none_there ↦ rw (slashed, none_there) (inr (inl none_there))
        | inl has_at ↦
            rw (slashed, has_at) (inr (inr (mask_url-HasNoPassword value (u.parse value) refl)))
      ]
    ]

    redact_string-HidesText :
        (secret : Bool) (value : Text) → HidesText secret (redact_string u secret value)
    redact_string-HidesText true [] = inl refl
    redact_string-HidesText true (c ∷ value) = inr refl
    redact_string-HidesText false value = redact_url-NoPassword value

    mutual
      unfolding redact IsHidden

      redact-IsHidden : (secret : Bool) (value : Value) → IsHidden secret (redact u secret value)
      redact-IsHidden secret nothing = tt
      redact-IsHidden secret plain = tt
      redact-IsHidden secret (string value) = redact_string-HidesText secret value
      redact-IsHidden secret (array items) = redact_items-AreHidden secret items
      redact-IsHidden secret (object fields) = redact_fields-HasHidden secret fields

      redact_items-AreHidden :
          (secret : Bool) (items : Items) → AreHidden secret (redact_items u secret items)
      redact_items-AreHidden secret no_items = tt
      redact_items-AreHidden secret (item value items) =
          (redact-IsHidden secret value, redact_items-AreHidden secret items)

      redact_fields-HasHidden :
          (secret : Bool) (fields : Fields) → HasHidden secret (redact_fields u secret fields)
      redact_fields-HasHidden secret no_fields = tt
      redact_fields-HasHidden secret (field key value fields) = (
        redact-IsHidden (secret || is_secret_key key) value,
        redact_fields-HasHidden secret fields,
      )

  KeepsText_lem :
      (secret : Bool) (value : Text) → KeepsText secret value (redact_string u secret value)
  unfolding redact_url
  KeepsText_lem true value = tt
  KeepsText_lem false value =
      elim (Bool-cases (not (includes value (codes "://")) || not (includes value (codes "@")))) [
        | inl no_password ↦ rw no_password (inl refl)
        | inr may ↦ elim (Option-cases (u.parse value)) [
          | inl no_url ↦ rw (may, no_url) (inl refl)
          | inr (url, parsed) ↦ inr (url, parsed)
        ]
      ]

  mutual
    unfolding redact IsKept

    redact-IsKept : (secret : Bool) (value : Value) → IsKept secret value (redact u secret value)
    redact-IsKept secret nothing = refl
    redact-IsKept secret plain = refl
    redact-IsKept secret (string value) =
        (redact_string u secret value, refl, KeepsText_lem secret value)
    redact-IsKept secret (array items) =
        (redact_items u secret items, refl, redact_items-AreKept secret items)
    redact-IsKept secret (object fields) =
        (redact_fields u secret fields, refl, redact_fields-HasKept secret fields)

    redact_items-AreKept :
        (secret : Bool) (items : Items) → AreKept secret items (redact_items u secret items)
    redact_items-AreKept secret no_items = refl
    redact_items-AreKept secret (item value items) = (
      redact u secret value,
      redact_items u secret items,
      refl,
      redact-IsKept secret value,
      redact_items-AreKept secret items,
    )

    redact_fields-HasKept :
        (secret : Bool) (fields : Fields) → HasKept secret fields (redact_fields u secret fields)
    redact_fields-HasKept secret no_fields = refl
    redact_fields-HasKept secret (field key value fields) = (
      redact u (secret || is_secret_key key) value,
      redact_fields u secret fields,
      refl,
      redact-IsKept (secret || is_secret_key key) value,
      redact_fields-HasKept secret fields,
    )

  -- If a URL that is printed with a masked password has that password when it is parsed again: in what
  -- `redact` gives for any value, every text below a key that looks like a secret, however deep, is
  -- empty or `[redacted]`, and every other one that has `://` and `@` in it and parses as a URL has no
  -- password but the mask. All keys, the structure, and what is no text are as before, and so is a text
  -- that is not below a secret key and is no URL.
  pub redact_hides :
      MasksPasswords
      → (value : Value)
      → IsHidden false (redact u false value) × IsKept false value (redact u false value)
  redact_hides masks value = (redact-IsHidden masks false value, redact-IsKept false value)
