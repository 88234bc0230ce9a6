-- ===== src/Config/Distance/Hint.antt =====
-- The hint for a misspelled key is the first of the closest known ones that are close enough.
use nodejs_basics.Prelude.{
  ℕ, ◌+◌, ◌≤◌, ◌<◌, ◌/◌, max, Option, none, some, List, [], ◌∷◌, ◌++◌, ◌≡◌, refl, ap, arith, All,
  length, ltb, Bool-cases, inl, inr, ◌⊎◌,
}
use nodejs_basics.Prelude.Texts.{Text}
use nodejs_basics.Config.Distance.{edit_distance, nearest_from, nearest}

module _ (to_lower : Text → Text) where
  abbrev pub distance_to : Text → Text → ℕ
  distance_to word candidate = edit_distance (to_lower word) (to_lower candidate)

  -- A hint below a bound: it comes in the list, nothing before it is as close, and nothing behind it is
  -- closer; or nothing is below the bound.
  abbrev pub IsHint : Text → (bound : ℕ) → List Text → Option Text → Type 0
  IsHint word bound candidates none = All (λ c. bound ≤ distance_to word c) candidates
  IsHint word bound candidates (some hint) =
      (before : List Text) × (after : List Text) × (candidates ≡ before ++ (hint ∷ after))
      × (distance_to word hint < bound)
      × All (λ c. distance_to word hint < distance_to word c) before
      × All (λ c. distance_to word hint ≤ distance_to word c) after

  -- What the loop has found so far stays unless something closer comes.
  abbrev Kept : Text → Option Text → (bound : ℕ) → List Text → Option Text → Type 0
  Kept word best bound candidates o =
      ((o ≡ best) × All (λ c. bound ≤ distance_to word c) candidates)
      ⊎ ((hint : Text) × (o ≡ some hint) × IsHint word bound candidates (some hint))

  nearest_from-Kept :
      (word : Text) (best : Option Text) (bound : ℕ) (candidates : List Text)
      → Kept word best bound candidates (nearest_from to_lower word best bound candidates)
  nearest_from-Kept word best bound [] = inl (refl, tt)
  nearest_from-Kept word best bound (c ∷ candidates) =
      let d = distance_to word c in
      elim (Bool-cases (ltb d bound)) [
        | inl closer ↦ rw closer (elim (nearest_from-Kept word (some c) d candidates) [
          | inl (same, further) ↦
              inr (c, same, ([], candidates, refl, ground (arith, closer), tt, further))
          | inr (hint, found, (before, after, cut, below, earlier, later)) ↦ inr (
            hint,
            found,
            (
              c ∷ before,
              after,
              ap (λ l. c ∷ l) cut,
              ground (arith, closer, below),
              (below, earlier),
              later,
            ),
          )
        ])
        | inr further ↦ rw further (elim (nearest_from-Kept word best bound candidates) [
          | inl (same, rest) ↦ inl (same, (ground (arith, further), rest))
          | inr (hint, found, (before, after, cut, below, earlier, later)) ↦ inr (
            hint,
            found,
            (
              c ∷ before,
              after,
              ap (λ l. c ∷ l) cut,
              below,
              (ground (arith, further, below), earlier),
              later,
            ),
          )
        ])
      ]

  -- With any map to lower case: the hint for an unknown key is the first of the known keys at the
  -- least distance from it, both in lower case, if that is at most a quarter of the key's length, or 2;
  -- there is none exactly if every known key is further away.
  pub nearest-IsHint :
      (word : Text) (candidates : List Text)
      → IsHint word (max 2 (length word / 4) + 1) candidates (nearest to_lower word candidates)
  unfolding nearest
  nearest-IsHint word candidates =
      elim (nearest_from-Kept word none (max 2 (length word / 4) + 1) candidates) [
        | inl (same, further) ↦ rw same further
        | inr (hint, found, closest) ↦ rw found closest
      ]
