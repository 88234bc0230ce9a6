-- ===== src/Client/Attempts/Outcomes.antt =====
-- What one attempt does: whether it is worth another one, its answer, and what it takes and gives back.
use nodejs_basics.Prelude.{
  ℕ, ◌+◌, ◌-◌, Bool, true, false, not, Option, none, some, List, [], ◌∷◌, ◌++◌, ◌&&◌, ◌≡◌, arith,
  leb, ltb, if◌then◌else◌,
}
use nodejs_basics.Prelude.Int.{ℤ, pos, negsuc}
use nodejs_basics.Client.Errors.{deadline_error, exhausted_error, client_error_of, network_error}
use nodejs_basics.Client.Attempts.{
  Settings, Dispatched, responded, threw_outbound, threw, Attempt, Effect, acquired, cancelled,
  sent, released, retried, Answer, response, error, Ended, answer, again, is_retry_status,
  is_retry_code, after_dispatch, attempt_within, send_with, one_attempt,
}

-- How often an effect of each kind comes.
abbrev pub is_acquired : Effect → ℕ
is_acquired acquired = 1
is_acquired _ = 0

abbrev pub is_given_back : Effect → ℕ
is_given_back cancelled = 1
is_given_back (released _) = 1
is_given_back _ = 0

abbrev pub is_sent : Effect → ℕ
is_sent (sent _) = 1
is_sent _ = 0

abbrev pub is_retried : Effect → ℕ
is_retried retried = 1
is_retried _ = 0

pub total : (Effect → ℕ) → List Effect → ℕ
total f [] = 0
total f (e ∷ es) = f e + total f es

pub total-append :
    (f : Effect → ℕ) (xs ys : List Effect) → total f (xs ++ ys) ≡ total f xs + total f ys
unfolding total
total-append f [] ys = omega arith
total-append f (x ∷ xs) ys = omega (arith, total-append f xs ys)

-- An attempt reaches the dispatcher: it has no budget, or some is left once it has its slot.
abbrev pub has_time : Option ℤ → (waited : ℕ) → Bool
has_time none waited = true
has_time (some (negsuc _)) waited = false
has_time (some (pos budget)) waited = ltb waited budget

abbrev pub is_some {ℓ} : {A : Type ℓ} → Option A → Bool
is_some none = false
is_some (some _) = true

module _ (c : Settings) where
  -- What the dispatcher does is worth another attempt.
  abbrev pub is_transient_of : (budgeted : Bool) → Dispatched → Bool
  is_transient_of budgeted (responded status) = is_retry_status c status
  is_transient_of budgeted (threw_outbound err) = false
  is_transient_of budgeted (threw is_timeout code) =
      not (budgeted && is_timeout) && is_retry_code c code

  abbrev pub is_transient : Attempt → Bool
  is_transient a = has_time a.budget a.waited && is_transient_of (is_some a.budget) a.dispatched

  -- The answer for a call whose last attempt is this one.
  abbrev pub answer_of : (budgeted : Bool) → Dispatched → Answer
  answer_of budgeted (responded status) =
      if is_retry_status c status
      then error (exhausted_error c.base_url status)
      else if leb 400 status && ltb status 500 && not c.passthrough_4xx
      then error (client_error_of status c.base_url)
      else response status
  answer_of budgeted (threw_outbound err) = error err
  answer_of budgeted (threw is_timeout code) =
      if budgeted && is_timeout
      then error (deadline_error c.base_url)
      else error (network_error none)

  abbrev pub last_answer : Attempt → Answer
  last_answer a =
      if has_time a.budget a.waited
      then answer_of (is_some a.budget) a.dispatched
      else error (deadline_error c.base_url)

  abbrev pub Round : (more worth : Bool) → (sends : ℕ) → Answer → List Effect × Ended → Type 0
  Round more worth sends last r =
      (r.1 ≡ (if more && worth then again else answer last))
      × (total is_acquired r.0 ≡ total is_given_back r.0)
      × (total is_sent r.0 ≡ sends)
      × (total is_retried r.0 ≡ (if more && worth then 1 else 0))

  dispatch_lem :
      (more budgeted : Bool) (left : Option ℕ) (d : Dispatched)
      → Round more
          (is_transient_of budgeted d)
          1
          (answer_of budgeted d)
          (send_with c left (after_dispatch c more budgeted d))
  unfolding after_dispatch total
  dispatch_lem more budgeted left (responded status) = ground arith
  dispatch_lem more budgeted left (threw_outbound err) = ground arith
  dispatch_lem more budgeted left (threw is_timeout code) = ground arith

  attempt_lem :
      (more : Bool) (budget : Option ℤ) (waited : ℕ) (d : Dispatched)
      → Round more
          (has_time budget waited && is_transient_of (is_some budget) d)
          (if has_time budget waited then 1 else 0)
          (if has_time budget waited
            then answer_of (is_some budget) d
            else error (deadline_error c.base_url))
          (attempt_within c more budget waited d)
  unfolding attempt_within total
  attempt_lem more none waited d = dispatch_lem more false none d
  attempt_lem more (some (negsuc n)) waited d = ground arith
  attempt_lem more (some (pos budget)) waited d =
      ground (arith, dispatch_lem more true (some (budget - waited)) d)

  pub round_lem :
      (more : Bool) (a : Attempt)
      → Round more
          (is_transient a)
          (if has_time a.budget a.waited then 1 else 0)
          (last_answer a)
          (one_attempt c more a)
  unfolding one_attempt
  round_lem more a = attempt_lem more a.budget a.waited a.dispatched
