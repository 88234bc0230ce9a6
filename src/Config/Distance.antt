-- ===== src/Config/Distance.antt =====
-- packages/config/src/config.loader.ts, `editDistance` and `nearest`: the known key that a misspelled
-- one is closest to.
pub mod Least
pub mod Hint
use nodejs_basics.Prelude.{
  ℕ, zero, suc, ◌+◌, ◌/◌, Option, none, some, List, [], ◌∷◌, Bool, true, false, min, max, length,
  ltb, ◌==◌, if◌then◌else◌,
}
use nodejs_basics.Prelude.Texts.{Text}

-- `Array.from({ length: b.length + 1 }, (_, j) => j)`
abbrev pub first_row : (from : ℕ) → Text → List ℕ
first_row from [] = from ∷ []
first_row from (d ∷ b) = from ∷ first_row (from + 1) b

-- The inner loop: from `row[j - 1]` on, with `next[j - 1]` at hand.
abbrev pub fill : (c left : ℕ) → (row : List ℕ) → Text → List ℕ
fill c left (diagonal ∷ up ∷ row) (d ∷ b) =
    let here = min (min (up + 1) (left + 1)) (diagonal + (if c == d then 0 else 1)) in
    here ∷ fill c here (up ∷ row) b
fill c left _ _ = []

-- The outer loop, from row `i` on.
abbrev pub rows_from : (i : ℕ) → (a b : Text) → (row : List ℕ) → List ℕ
rows_from i [] b row = row
rows_from i (c ∷ a) b row = rows_from (i + 1) a b (i ∷ fill c i row b)

-- `row[n]`, which is there.
abbrev pub at : ℕ → List ℕ → ℕ
at n [] = 0
at zero (x ∷ row) = x
at (suc n) (x ∷ row) = at n row

unfoldable pub edit_distance : (a b : Text) → ℕ
edit_distance a b = at (length b) (rows_from 1 a b (first_row 0 b))

-- `toLowerCase` is a parameter.
module _ (to_lower : Text → Text) where
  -- The loop of `nearest`.
  abbrev pub nearest_from :
      Text → (best : Option Text) → (best_distance : ℕ) → List Text → Option Text
  nearest_from word best best_distance [] = best
  nearest_from word best best_distance (candidate ∷ candidates) =
      let d = edit_distance (to_lower word) (to_lower candidate) in
      let closer = nearest_from word (some candidate) d candidates in
      let same = nearest_from word best best_distance candidates in
      if ltb d best_distance then closer else same

  unfoldable pub nearest : Text → List Text → Option Text
  nearest word candidates = nearest_from word none (max 2 (length word / 4) + 1) candidates
