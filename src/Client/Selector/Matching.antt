-- ===== src/Client/Selector/Matching.antt =====
-- A selector matches exactly the texts in which its parts stand one behind the other.
use nodejs_basics.Prelude.{
  ◌≤◌, true, false, some, List, [], ◌∷◌, ◌++◌, ◌≡◌, ◌↔◌, refl, sym, ap, ◌∙◌, arith, length,
  length-append, append_assoc, Option-cases, inl, inr,
}
use nodejs_basics.Prelude.Texts.{Text, strip, strip_iff}
use nodejs_basics.Client.Selector.{after_first, matches_parts, matches_selector, parts_of}

-- The parts stand in the text in their order, without overlap, with anything around them.
abbrev pub Fits : List Text → Text → Type 0
Fits [] url = Unit
Fits (part ∷ parts) url =
    (before : Text) × (rest : Text) × (url ≡ before ++ (part ++ rest)) × Fits parts rest

Fits-longer : (parts : List Text) (x url : Text) → Fits parts url → Fits parts (x ++ url)
Fits-longer [] x url h = tt
Fits-longer (part ∷ parts) x url (before, rest, q, h) =
    (x ++ before, rest, ap (λ u. x ++ u) q ∙ sym (append_assoc x before (part ++ rest)), h)

-- Of two ways to cut a text, the one with the shorter head has the longer tail.
tail_of_shorter :
    (p t q r : Text) → p ++ t ≡ q ++ r → length p ≤ length q → (x : Text) × (t ≡ x ++ r)
tail_of_shorter [] t q r e h = (q, e)
tail_of_shorter (c ∷ p) t [] r e h = absurd (omega (arith, h))
tail_of_shorter (c ∷ p) t (d ∷ q) r e h = tail_of_shorter p t q r (cc) (omega (arith, h))

after_first_sound :
    (part url rest : Text)
    → after_first part url ≡ some rest
    → (before : Text) × (url ≡ before ++ (part ++ rest))
after_first_sound part [] rest q = ([], (strip_iff part [] rest).0 q)
after_first_sound part (c ∷ url) rest q = elim (Option-cases (strip part (c ∷ url))) [
  | inl no_match ↦
      let (before, later) = after_first_sound part url rest (rw no_match at q) in
      (c ∷ before, ap (λ u. c ∷ u) later)
  | inr (tail, here) ↦
      let same = rw here at q in ([], (strip_iff part (c ∷ url) rest).0 (here ∙ same))
]

-- The first place leaves the longest text behind it.
after_first_longest :
    (part before url rest : Text)
    → url ≡ before ++ (part ++ rest)
    → (found : Text) × (x : Text) × (after_first part url ≡ some found) × (found ≡ x ++ rest)
after_first_longest part [] [] rest q = (rest, [], (strip_iff part [] rest).1 q, refl)
after_first_longest part [] (c ∷ url) rest q =
    let here = (strip_iff part (c ∷ url) rest).1 q in (rest, [], rw here refl, refl)
after_first_longest part (b ∷ before) [] rest q = absurd (cc)
after_first_longest part (b ∷ before) (c ∷ url) rest q =
    elim (Option-cases (strip part (c ∷ url))) [
      | inl no_match ↦
          let (found, x, later, same) = after_first_longest part before url rest (cc) in
          (found, x, rw no_match later, same)
      | inr (tail, here) ↦
          let cut = (strip_iff part (c ∷ url) tail).0 here in
          let both : part ++ tail ≡ (b ∷ before ++ part) ++ rest =
            sym cut ∙ q ∙ ap (λ u. b ∷ u) (sym (append_assoc before part rest)) in
          let (x, same) =
            tail_of_shorter part tail (b ∷ before ++ part) rest both
              (omega (arith, length-append before part)) in
          (tail, x, rw here refl, same)
    ]

matches_parts_sound :
    (parts : List Text) (url : Text) → matches_parts parts url ≡ true → Fits parts url
unfolding matches_parts
matches_parts_sound [] url h = tt
matches_parts_sound ([] ∷ parts) url h = ([], url, refl, matches_parts_sound parts url h)
matches_parts_sound ((c ∷ part) ∷ parts) url h = elim (Option-cases (after_first (c ∷ part) url)) [
  | inl nowhere ↦ let bad : false ≡ true = rw nowhere at h in absurd (cc)
  | inr (rest, first) ↦
      let (before, cut) = after_first_sound (c ∷ part) url rest first in
      (before, rest, cut, matches_parts_sound parts rest (rw first at h))
]

matches_parts_complete :
    (parts : List Text) (url : Text) → Fits parts url → matches_parts parts url ≡ true
unfolding matches_parts
matches_parts_complete [] url h = refl
matches_parts_complete ([] ∷ parts) url (before, rest, q, h) =
    matches_parts_complete parts url (rw q (Fits-longer parts before rest h))
matches_parts_complete ((c ∷ part) ∷ parts) url (before, rest, q, h) =
    let (found, x, first, same) = after_first_longest (c ∷ part) before url rest q in
    rw first (matches_parts_complete parts found (rw same (Fits-longer parts x rest h)))

-- A selector matches a text exactly if its literal parts, those between its placeholders, stand in
-- the text in their order and without overlap, whatever stands before, between and after them: that
-- each part is looked for at its first place loses no match.
pub matches_selector_iff :
    (url selector : Text) → (matches_selector url selector ≡ true) ↔ Fits (parts_of selector) url
unfolding matches_selector
matches_selector_iff url selector =
    (matches_parts_sound (parts_of selector) url, matches_parts_complete (parts_of selector) url)
