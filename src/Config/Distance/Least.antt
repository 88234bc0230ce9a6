-- ===== src/Config/Distance/Least.antt =====
-- The distance is the length of a shortest script of edits.
use nodejs_basics.Prelude.{
  ℕ, suc, ◌+◌, ◌≤◌, List, [], ◌∷◌, ◌++◌, ◌≡◌, ◌⊎◌, refl, sym, ap, ◌∙◌, arith, min, length,
  append-nil, ◌==◌, ==_iff, Bool-cases, inl, inr, subst, if◌then◌else◌,
}
use nodejs_basics.Prelude.Texts.{Text}
use nodejs_basics.Config.Distance.{first_row, fill, rows_from, at, edit_distance}

-- A script that turns one text into another by so many edits of one unit each.
pub data Edits : Text → Text → ℕ → Type 0 where
  done : Edits [] [] 0
  keep : (c : ℕ) {a b : Text} {n : ℕ} → Edits a b n → Edits (c ∷ a) (c ∷ b) n
  change : (c d : ℕ) {a b : Text} {n : ℕ} → Edits a b n → Edits (c ∷ a) (d ∷ b) (n + 1)
  drop_unit : (c : ℕ) {a b : Text} {n : ℕ} → Edits a b n → Edits (c ∷ a) b (n + 1)
  add_unit : (d : ℕ) {a b : Text} {n : ℕ} → Edits a b n → Edits a (d ∷ b) (n + 1)

-- The distance by recursion on the texts.
by_recursion : Text → Text → ℕ
by_recursion [] b = length b
by_recursion (c ∷ a) [] = suc (length a)
by_recursion (c ∷ a) (d ∷ b) =
    min (min (by_recursion a (d ∷ b) + 1) (by_recursion (c ∷ a) b + 1))
      (by_recursion a b + (if c == d then 0 else 1))

drop_all : (a : Text) → Edits a [] (length a)
drop_all [] = done
drop_all (c ∷ a) = subst (λ n. Edits (c ∷ a) [] n) (omega arith) (drop_unit c (drop_all a))

add_all : (b : Text) → Edits [] b (length b)
add_all [] = done
add_all (d ∷ b) = subst (λ n. Edits [] (d ∷ b) n) (omega arith) (add_unit d (add_all b))

-- A least one of three.
least_of_three :
    (x y z : ℕ) → (min (min x y) z ≡ x) ⊎ ((min (min x y) z ≡ y) ⊎ (min (min x y) z ≡ z))
least_of_three x y z = ground arith

by_recursion-Edits : (a b : Text) → Edits a b (by_recursion a b)
unfolding by_recursion
by_recursion-Edits [] b = add_all b
by_recursion-Edits (c ∷ a) [] = drop_all (c ∷ a)
by_recursion-Edits (c ∷ a) (d ∷ b) =
    let x = by_recursion a (d ∷ b) + 1 in
    let y = by_recursion (c ∷ a) b + 1 in
    let z = by_recursion a b + (if c == d then 0 else 1) in
    let shape = λ (n : ℕ). Edits (c ∷ a) (d ∷ b) n in
    elim (least_of_three x y z) [
      | inl q ↦ subst shape (sym q) (drop_unit c (by_recursion-Edits a (d ∷ b)))
      | inr (inl q) ↦ subst shape (sym q) (add_unit d (by_recursion-Edits (c ∷ a) b))
      | inr (inr q) ↦ subst shape (sym q) (elim (Bool-cases (c == d)) [
        | inl same ↦
            let unit : c ≡ d = (==_iff c d).0 same in
            subst (λ e. Edits (c ∷ a) (e ∷ b) z) unit
              (rw same (
                subst (λ n. Edits (c ∷ a) (c ∷ b) n) (omega arith)
                  (keep c (by_recursion-Edits a b))))
        | inr other ↦ rw other (change c d (by_recursion-Edits a b))
      ])
    ]

-- One unit more on either side is one edit more at most.
by_recursion_drop : (c : ℕ) (a b : Text) → by_recursion (c ∷ a) b ≤ by_recursion a b + 1
unfolding by_recursion
by_recursion_drop c [] [] = omega arith
by_recursion_drop c (e ∷ a) [] = omega arith
by_recursion_drop c a (d ∷ b) = omega arith

by_recursion_add : (d : ℕ) (a b : Text) → by_recursion a (d ∷ b) ≤ by_recursion a b + 1
unfolding by_recursion
by_recursion_add d [] b = omega arith
by_recursion_add d (c ∷ a) b = omega arith

by_recursion_least : {a b : Text} {n : ℕ} → Edits a b n → by_recursion a b ≤ n
unfolding by_recursion
by_recursion_least done = omega arith
by_recursion_least (keep c {a = a} {b = b} e) = ground (arith, by_recursion_least e)
by_recursion_least (change c d {a = a} {b = b} e) = ground (arith, by_recursion_least e)
by_recursion_least (drop_unit c {a = a} {b = b} e) =
    omega (arith, by_recursion_least e, by_recursion_drop c a b)
by_recursion_least (add_unit d {a = a} {b = b} e) =
    omega (arith, by_recursion_least e, by_recursion_add d a b)

-- A text backwards, in front of another.
reverse_onto : Text → Text → Text
reverse_onto [] p = p
reverse_onto (c ∷ a) p = reverse_onto a (c ∷ p)

-- The row of a text read so far, backwards: its distances to the beginnings of the other one.
row_tail : (p q b : Text) → List ℕ
row_tail p q [] = []
row_tail p q (d ∷ b) = by_recursion p (d ∷ q) ∷ row_tail p (d ∷ q) b

row_of : (p b : Text) → List ℕ
row_of p b = by_recursion p [] ∷ row_tail p [] b

fill-row_tail :
    (c : ℕ) (p q b : Text)
    → fill c (by_recursion (c ∷ p) q) (by_recursion p q ∷ row_tail p q b) b ≡ row_tail (c ∷ p) q b
unfolding row_tail by_recursion
fill-row_tail c p q [] = refl
fill-row_tail c p q (d ∷ b) =
    ap (λ r. by_recursion (c ∷ p) (d ∷ q) ∷ r) (fill-row_tail c p (d ∷ q) b)

first_row-row_tail : (q b : Text) → first_row (length q) b ≡ length q ∷ row_tail [] q b
unfolding row_tail by_recursion
first_row-row_tail q [] = refl
first_row-row_tail q (d ∷ b) =
    let next : length q + 1 ≡ length (d ∷ q) = omega arith in
    ap (λ r. length q ∷ r) (rw next (first_row-row_tail (d ∷ q) b))

rows_from-row_of :
    (p a b : Text) → rows_from (length p + 1) a b (row_of p b) ≡ row_of (reverse_onto a p) b
unfolding row_of reverse_onto by_recursion
rows_from-row_of p [] b = refl
rows_from-row_of p (c ∷ a) b =
    let next : length p + 1 ≡ length (c ∷ p) = omega arith in
    let row : by_recursion (c ∷ p) [] ∷ fill c (by_recursion (c ∷ p) []) (row_of p b) b
        ≡ row_of (c ∷ p) b =
      ap (λ r. by_recursion (c ∷ p) [] ∷ r) (fill-row_tail c p [] b) in
    ap (λ i. rows_from (i + 1) a b (i ∷ fill c i (row_of p b) b)) next
    ∙ ap (λ r. rows_from (length (c ∷ p) + 1) a b r) row
    ∙ rows_from-row_of (c ∷ p) a b

at-row_tail :
    (p q b : Text) (x : ℕ)
    → x ≡ by_recursion p q
    → at (length b) (x ∷ row_tail p q b) ≡ by_recursion p (reverse_onto b q)
unfolding row_tail reverse_onto
at-row_tail p q [] x e = e
at-row_tail p q (d ∷ b) x e = at-row_tail p (d ∷ q) b (by_recursion p (d ∷ q)) refl

-- A script backwards, behind another one.
Edits-backwards :
    {a b p q : Text} {n m : ℕ}
    → Edits a b n
    → Edits p q m
    → Edits (reverse_onto a p) (reverse_onto b q) (n + m)
unfolding reverse_onto
Edits-backwards {p = p} {q = q} done e = subst (λ k. Edits p q k) (omega arith) e
Edits-backwards (keep c f) e = Edits-backwards f (keep c e)
Edits-backwards {p = p} {q = q} {m = m} (change c d {a = a} {b = b} {n = n} f) e =
    subst (λ k. Edits (reverse_onto a (c ∷ p)) (reverse_onto b (d ∷ q)) k) (omega arith)
      (Edits-backwards f (change c d e))
Edits-backwards {b = b} {p = p} {q = q} {m = m} (drop_unit c {a = a} {n = n} f) e =
    subst (λ k. Edits (reverse_onto a (c ∷ p)) (reverse_onto b q) k) (omega arith)
      (Edits-backwards f (drop_unit c e))
Edits-backwards {a = a} {p = p} {q = q} {m = m} (add_unit d {b = b} {n = n} f) e =
    subst (λ k. Edits (reverse_onto a p) (reverse_onto b (d ∷ q)) k) (omega arith)
      (Edits-backwards f (add_unit d e))

reverse_onto-reverse_onto :
    (a p q : Text) → reverse_onto (reverse_onto a p) q ≡ reverse_onto p (a ++ q)
unfolding reverse_onto
reverse_onto-reverse_onto [] p q = refl
reverse_onto-reverse_onto (c ∷ a) p q = reverse_onto-reverse_onto a (c ∷ p) q

reversed_twice : (a : Text) → reverse_onto (reverse_onto a []) [] ≡ a
unfolding reverse_onto
reversed_twice a = reverse_onto-reverse_onto a [] [] ∙ append-nil a

edit_distance-by_recursion :
    (a b : Text) → edit_distance a b ≡ by_recursion (reverse_onto a []) (reverse_onto b [])
unfolding edit_distance row_of by_recursion
edit_distance-by_recursion a b =
    ap (λ r. at (length b) (rows_from 1 a b r)) (first_row-row_tail [] b)
    ∙ ap (λ r. at (length b) r) (rows_from-row_of [] a b)
    ∙ at-row_tail (reverse_onto a []) [] b (by_recursion (reverse_onto a []) []) refl

-- The distance that the table computes between two texts is the least number of units to change, drop
-- or add that turns one into the other: a script of so many edits does, and no shorter one.
pub edit_distance_least :
    (a b : Text) → Edits a b (edit_distance a b) × ((n : ℕ) → Edits a b n → edit_distance a b ≤ n)
unfolding reverse_onto
edit_distance_least a b =
    let back_a = reverse_onto a [] in
    let back_b = reverse_onto b [] in
    let d = by_recursion back_a back_b in
    let there = Edits-backwards (by_recursion-Edits back_a back_b) done in
    let script : Edits a b (d + 0) =
      subst (λ x. Edits x b (d + 0)) (reversed_twice a)
        (subst (λ y. Edits (reverse_onto back_a []) y (d + 0)) (reversed_twice b) there) in
    let same = edit_distance-by_recursion a b in
    (
      subst (λ n. Edits a b n) (omega (arith, same)) script,
      λ n e. omega (arith, same, by_recursion_least (Edits-backwards e done)),
    )
