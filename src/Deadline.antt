-- ===== src/Deadline.antt =====
-- packages/common/src/utils/deadline.ts: the request budget, with the deadline that the asynchronous
-- context carries passed on. Times are whole milliseconds; what is left is an integer, since a
-- deadline may have passed.
use nodejs_basics.Prelude.{
  ℕ, zero, suc, ◌+◌, ◌-◌, ◌≤◌, min, Option, none, some, List, [], ◌∷◌, ◌≡◌, arith, leb,
  if◌then◌else◌, length, ◌&&◌,
}
use nodejs_basics.Prelude.Texts.{Text}
use nodejs_basics.Prelude.Decimal.{all_digits, number_behind}
use nodejs_basics.Prelude.Int.{ℤ, pos, negsuc}

-- `withDeadline`: the deadline under which the function runs.
abbrev pub sooner : Option ℕ → ℕ → ℕ
sooner none at = at
sooner (some outer) at = min outer at

unfoldable pub with_deadline : Option ℕ → (timeout_ms now : ℕ) → Option ℕ
with_deadline outer timeout_ms now = some (sooner outer (now + timeout_ms))

-- `at - now`
abbrev pub minus : ℕ → ℕ → ℤ
minus at now = if leb now at then pos (at - now) else negsuc (now - at - 1)

unfoldable pub remaining_ms : Option ℕ → (now : ℕ) → Option ℤ
remaining_ms none now = none
remaining_ms (some at) now = some (minus at now)

-- `callBudgetMs`; `none` is the thrown DeadlineExceededError.
abbrev pub within : Option ℤ → ℕ → Option ℕ
within none own = some own
within (some (pos zero)) own = none
within (some (pos (suc left))) own = some (min own (suc left))
within (some (negsuc _)) own = none

unfoldable pub call_budget_ms : Option ℕ → (own_timeout_ms now : ℕ) → Option ℕ
unfolding remaining_ms
call_budget_ms deadline own now = within (remaining_ms deadline now) own

-- Nested calls of `withDeadline`, outermost first: each timeout with the time at which it starts.
unfoldable pub nested : Option ℕ → List (ℕ × ℕ) → Option ℕ
unfolding with_deadline
nested outer [] = outer
nested outer ((timeout_ms, now) ∷ inner) = nested (with_deadline outer timeout_ms now) inner

abbrev pub IsBy : ℕ → Option ℕ → Type 0
IsBy at none = ⊥
IsBy at (some deadline) = deadline ≤ at

nested-IsBy :
    (at : ℕ) (outer : Option ℕ) (inner : List (ℕ × ℕ))
    → IsBy at outer
    → IsBy at (nested outer inner)
unfolding nested with_deadline
nested-IsBy at outer [] h = h
nested-IsBy at none ((timeout_ms, now) ∷ inner) h = absurd h
nested-IsBy at (some deadline) ((timeout_ms, now) ∷ inner) h =
    nested-IsBy at (some (min deadline (now + timeout_ms))) inner (omega arith)

IsBy-timeout :
    (outer : Option ℕ) (timeout_ms start : ℕ)
    → IsBy (start + timeout_ms) (with_deadline outer timeout_ms start)
unfolding with_deadline
IsBy-timeout none timeout_ms start = omega arith
IsBy-timeout (some deadline) timeout_ms start = omega arith

call_by :
    (at own now : ℕ) (deadline : Option ℕ) (b : ℕ)
    → IsBy at deadline
    → call_budget_ms deadline own now ≡ some b
    → (b ≤ own) × (now + b ≤ at) × (1 ≤ b + (1 - own))
unfolding call_budget_ms
call_by at own now none b h e = absurd h
call_by at own now (some deadline) b h e = ground arith

-- A call under any nesting of budgets gets at most its own timeout and ends by the deadline of the
-- outermost one, however long the inner ones are; the time that it gets is not 0 unless its own
-- timeout is.
pub call_budget-by :
    (outer : Option ℕ) (timeout_ms start own now b : ℕ) (inner : List (ℕ × ℕ))
    → call_budget_ms (nested (with_deadline outer timeout_ms start) inner) own now ≡ some b
    → (b ≤ own) × (now + b ≤ start + timeout_ms) × (1 ≤ b + (1 - own))
unfolding with_deadline
call_budget-by outer timeout_ms start own now b inner e =
    call_by (start + timeout_ms) own now (nested (with_deadline outer timeout_ms start) inner) b
      (nested-IsBy (start + timeout_ms) (with_deadline outer timeout_ms start) inner
        (IsBy-timeout outer timeout_ms start))
      e

-- What `parseTimeoutMs` is given: a text, several, or something else.
pub data HeaderValue : Type 0 where
  one : Text → HeaderValue
  many : List Text → HeaderValue
  something_else : HeaderValue

abbrev pub positive : ℕ → Option ℕ
positive ms = if leb 1 ms then some ms else none

abbrev pub first_text : HeaderValue → Option Text
first_text (one raw) = some raw
first_text (many (raw ∷ rest)) = some raw
first_text _ = none

-- `/^\d{1,9}$/`, then `Number`
abbrev pub timeout_of : Option Text → Option ℕ
timeout_of none = none
timeout_of (some raw) =
    if leb 1 (length raw) && leb (length raw) 9 && all_digits raw
    then positive (number_behind 0 raw)
    else none

-- `parseTimeoutMs`
unfoldable pub parse_timeout_ms : HeaderValue → Option ℕ
parse_timeout_ms value = timeout_of (first_text value)
