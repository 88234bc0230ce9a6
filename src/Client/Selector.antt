-- ===== src/Client/Selector.antt =====
-- packages/resilient-client/src/resilient-client.pool.ts, `matchesSelector` and `extractBaseUrl`, on
-- the units of a text. What `split`, `indexOf` and the two patterns do is written out.
pub mod Matching
use nodejs_basics.Prelude.{
  ℕ, zero, suc, ◌+◌, Bool, true, false, Option, none, some, List, [], ◌∷◌, ◌++◌, not, ◌&&◌, ◌||◌,
  ◌==◌, if◌then◌else◌,
}
use nodejs_basics.Prelude.Texts.{Text, codes, strip}

abbrev pub one_more : Option ℕ → Option ℕ
one_more none = none
one_more (some n) = some (suc n)

-- How many units come up to the first `}` and with it.
abbrev pub close_at : Text → Option ℕ
close_at [] = none
close_at (c ∷ s) = let rest = close_at s in if c == b'}' then some 1 else one_more rest

-- `[^}]+\}` at the head of a text: its length.
abbrev pub placeholder_of : Option ℕ → Option ℕ
placeholder_of none = none
placeholder_of (some n) = if n == 1 then none else some n

abbrev pub before_head : ℕ → List Text → List Text
before_head c [] = (c ∷ []) ∷ []
before_head c (part ∷ parts) = (c ∷ part) ∷ parts

abbrev pub cut_or_keep : ℕ → (cut : Option (List Text)) → (kept : List Text) → List Text
cut_or_keep c (some parts) kept = [] ∷ parts
cut_or_keep c none kept = before_head c kept

abbrev pub cut_behind : (ℕ → List Text) → Option ℕ → Option (List Text)
cut_behind behind none = none
cut_behind behind (some n) = some (behind n)

-- `selector.split(/\{[^}]+\}/u)`, behind so many units of a placeholder.
unfoldable pub split_from : (skip : ℕ) → Text → List Text
split_from skip [] = [] ∷ []
split_from (suc skip) (c ∷ s) = split_from skip s
split_from zero (c ∷ s) =
    let behind = λ (n : ℕ). split_from n s in
    if c == b'{'
    then cut_or_keep c (cut_behind behind (placeholder_of (close_at s))) (behind 0)
    else before_head c (behind 0)

unfoldable pub parts_of : (selector : Text) → List Text
unfolding split_from
parts_of selector = split_from 0 selector

abbrev pub or_else : Option Text → Option Text → Option Text
or_else (some found) later = some found
or_else none later = later

-- `url.indexOf(part, pos)`, as the text behind the first place where the part stands.
abbrev pub after_first : Text → Text → Option Text
after_first part [] = strip part []
after_first part (c ∷ s) = let rest = after_first part s in or_else (strip part (c ∷ s)) rest

abbrev pub matches_behind : (Text → Bool) → Option Text → Bool
matches_behind later none = false
matches_behind later (some url) = later url

-- The loop of `matchesSelector`: an empty part is passed over.
unfoldable pub matches_parts : List Text → (url : Text) → Bool
matches_parts [] url = true
matches_parts ([] ∷ parts) url = matches_parts parts url
matches_parts ((c ∷ part) ∷ parts) url =
    matches_behind (λ rest. matches_parts parts rest) (after_first (c ∷ part) url)

unfoldable pub matches_selector : (url selector : Text) → Bool
unfolding parts_of matches_parts
matches_selector url selector = matches_parts (parts_of selector) url

-- `[^/{?#]`
abbrev pub in_host : ℕ → Bool
in_host c = not (c == b'/' || c == b'{' || c == b'?' || c == b'#')

abbrev pub host_of : Text → Text
host_of [] = []
host_of (c ∷ s) = let rest = host_of s in if in_host c then c ∷ rest else []

abbrev pub with_scheme : Text → Text → Option Text
with_scheme scheme [] = none
with_scheme scheme (c ∷ host) = some (scheme ++ c ∷ host)

abbrev pub base_by : (secure plain : Option Text) → Option Text
base_by (some rest) plain = with_scheme (codes "https://") (host_of rest)
base_by none (some rest) = with_scheme (codes "http://") (host_of rest)
base_by none none = none

abbrev pub normalized_by : Option Text → Text → Text
normalized_by none selector = selector
normalized_by (some rest) selector = codes "https" ++ selector

-- `extractBaseUrl`; `none` where it throws.
unfoldable pub extract_base_url : (selector : Text) → Option Text
extract_base_url selector =
    let normalized = normalized_by (strip (codes "://") selector) selector in
    base_by (strip (codes "https://") normalized) (strip (codes "http://") normalized)
