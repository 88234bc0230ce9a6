-- ===== src/Redact.antt =====
-- packages/logger/src/redact.ts: `isSecretKey`, `redactUrl` and `redact`. Case maps are those of ASCII;
-- the class `URL` is a parameter.
pub mod Hidden
use nodejs_basics.Prelude.{
  Bool, true, false, Option, none, some, List, [], ◌∷◌, any, ◌&&◌, ◌||◌, not, if◌then◌else◌,
}
use nodejs_basics.Prelude.Texts.{Text, codes, lower, text_beq}
use nodejs_basics.Client.Selector.{after_first}

abbrev pub is_found : Option Text → Bool
is_found none = false
is_found (some rest) = true

-- `value.includes(part)`
abbrev pub includes : Text → Text → Bool
includes value part = is_found (after_first part value)

-- The alternatives of `SECRET_KEY`, an optional `_` or `-` written out.
abbrev pub secret_words : List Text
secret_words =
    codes "password"
    ∷ codes "passwd"
    ∷ codes "secret"
    ∷ codes "token"
    ∷ codes "apikey"
    ∷ codes "api_key"
    ∷ codes "api-key"
    ∷ codes "privatekey"
    ∷ codes "private_key"
    ∷ codes "private-key"
    ∷ codes "credential"
    ∷ codes "extraproperties"
    ∷ codes "extra_properties"
    ∷ codes "extra-properties"
    ∷ []

unfoldable pub is_secret_key : (key : Text) → Bool
is_secret_key key = any (λ word. includes (lower key) word) secret_words

-- What a log field or a configuration holds. `plain`: a number, a Boolean, a date, and what else is left
-- as it is.
mutual
  pub data Value : Type 0 where
    nothing plain : Value
    string : Text → Value
    array : Items → Value
    object : Fields → Value

  pub data Items : Type 0 where
    no_items : Items
    item : Value → Items → Items

  pub data Fields : Type 0 where
    no_fields : Fields
    field : (key : Text) → Value → Fields → Fields

-- `URL`: its constructor, `none` where it throws, and the password of a URL, which can be set.
pub record UrlClass : Type 1 where
  pub Url : Type 0
  pub parse : Text → Option Url
  pub password : Url → Text
  pub with_password : Text → Url → Url
  pub to_string : Url → Text

abbrev pub redacted : Text
redacted = codes "[redacted]"

abbrev pub mask : Text
mask = codes "xxxxx"

module _ (u : UrlClass) where
  abbrev pub mask_url : Text → Option u.Url → Text
  mask_url value none = value
  mask_url value (some url) =
      if text_beq (u.password url) [] then value else u.to_string (u.with_password mask url)

  unfoldable pub redact_url : Text → Text
  redact_url value =
      if not (includes value (codes "://")) || not (includes value (codes "@"))
      then value
      else mask_url value (u.parse value)

  abbrev pub redact_string : (secret : Bool) → Text → Text
  redact_string true [] = []
  redact_string true (c ∷ value) = redacted
  redact_string false value = redact_url value

  unfoldable mutual
    -- `redact`
    pub redact : (secret : Bool) → Value → Value
    redact secret nothing = nothing
    redact secret plain = plain
    redact secret (string value) = string (redact_string secret value)
    redact secret (array items) = array (redact_items secret items)
    redact secret (object fields) = object (redact_fields secret fields)

    pub redact_items : (secret : Bool) → Items → Items
    redact_items secret no_items = no_items
    redact_items secret (item value items) = item (redact secret value) (redact_items secret items)

    pub redact_fields : (secret : Bool) → Fields → Fields
    redact_fields secret no_fields = no_fields
    redact_fields secret (field key value fields) =
        field key (redact (secret || is_secret_key key) value) (redact_fields secret fields)
