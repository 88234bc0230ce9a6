-- ===== src/Prelude/Decimal.antt =====
-- Decimal texts of natural numbers: what `String` writes, and what is read from a text of digits.
use Prim.Native.Nat.{ℕ, zero, suc, ◌+◌, ◌-◌, ◌*◌, ◌/◌, ◌%◌, ◌^◌, ◌≤◌, ◌<◌}
use mathlib.Core.Path.{◌≡◌, refl, ◌∙◌, ap}
use mathlib.Core.Logic.{inl, inr}
use mathlib.Core.Bool.{Bool, true, ◌&&◌}
use mathlib.Core.List.{[], ◌∷◌}
use native.Mathlib.Omega.{arith}
use nodejs_basics.Prelude.Tests.{ltb, Bool-cases, if◌then◌else◌}
use nodejs_basics.Prelude.Lists.{length}
use nodejs_basics.Prelude.Texts.{Text, is_digit}

-- The digits of a number in front of a text; as much fuel as the number is enough.
abbrev pub digits_onto : (fuel n : ℕ) → Text → Text
digits_onto zero n s = s
digits_onto (suc fuel) n s =
    let more = digits_onto fuel (n / 10) ((48 + n % 10) ∷ s) in
    if ltb n 10 then (48 + n) ∷ s else more

unfoldable pub decimal : ℕ → Text
decimal n = digits_onto (suc n) n []

-- `Number` on a text of digits, behind a number that is read already.
abbrev pub number_behind : ℕ → Text → ℕ
number_behind n [] = n
number_behind n (c ∷ s) = number_behind (10 * n + (c - 48)) s

abbrev pub all_digits : Text → Bool
all_digits [] = true
all_digits (c ∷ s) = is_digit c && all_digits s

number_behind-digits_onto :
    (fuel n : ℕ) (s : Text) → n < fuel → number_behind 0 (digits_onto fuel n s) ≡ number_behind n s
number_behind-digits_onto zero n s h = absurd (omega arith)
number_behind-digits_onto (suc fuel) n s h = elim (Bool-cases (ltb n 10)) [
  | inl small ↦
      let same : 10 * 0 + (48 + n - 48) ≡ n = omega arith in
      rw small (ap (λ m. number_behind m s) same)
  | inr big ↦
      let same : 10 * (n / 10) + (48 + n % 10 - 48) ≡ n = ground arith in
      rw big (
        number_behind-digits_onto fuel (n / 10) ((48 + n % 10) ∷ s) (ground (arith, big))
        ∙ ap (λ m. number_behind m s) same)
]

all_digits-digits_onto :
    (fuel n : ℕ) (s : Text) → all_digits s ≡ true → all_digits (digits_onto fuel n s) ≡ true
all_digits-digits_onto zero n s h = h
all_digits-digits_onto (suc fuel) n s h = elim (Bool-cases (ltb n 10)) [
  | inl small ↦ rw small (ground (arith, small, h))
  | inr big ↦ rw big (all_digits-digits_onto fuel (n / 10) ((48 + n % 10) ∷ s) (ground (arith, h)))
]

length-digits_onto :
    (fuel n k : ℕ) (s : Text) → n < 10 ^ (suc k) → length (digits_onto fuel n s) ≤ suc k + length s
length-digits_onto zero n k s h = omega arith
length-digits_onto (suc fuel) n zero s h =
    let small : ltb n 10 ≡ true = ground (arith, h) in rw small (omega arith)
length-digits_onto (suc fuel) n (suc k) s h = elim (Bool-cases (ltb n 10)) [
  | inl small ↦ rw small (omega arith)
  | inr big ↦
      let shorter : n / 10 < 10 ^ (suc k) = ground (arith, h) in
      rw big (omega (arith, length-digits_onto fuel (n / 10) k ((48 + n % 10) ∷ s) shorter))
]

digits_onto_longer : (fuel n : ℕ) (s : Text) → length s ≤ length (digits_onto fuel n s)
digits_onto_longer zero n s = omega arith
digits_onto_longer (suc fuel) n s = elim (Bool-cases (ltb n 10)) [
  | inl small ↦ rw small (omega arith)
  | inr big ↦ rw big (omega (arith, digits_onto_longer fuel (n / 10) ((48 + n % 10) ∷ s)))
]

-- The text of a number is made of digits, one at least, and reads as the number.
pub decimal_lem :
    (n : ℕ)
    → (all_digits (decimal n) ≡ true) × (number_behind 0 (decimal n) ≡ n) × (1 ≤ length (decimal n))
unfolding decimal
decimal_lem n = (
  all_digits-digits_onto (suc n) n [] refl,
  number_behind-digits_onto (suc n) n [] (omega arith),
  elim (Bool-cases (ltb n 10)) [
    | inl small ↦ rw small (omega arith)
    | inr big ↦ rw big (omega (arith, digits_onto_longer n (n / 10) ((48 + n % 10) ∷ [])))
  ],
)

pub length-decimal : (n k : ℕ) → n < 10 ^ (suc k) → length (decimal n) ≤ suc k
unfolding decimal
length-decimal n k h = omega (arith, length-digits_onto (suc n) n k [] h)
