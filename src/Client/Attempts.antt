-- ===== src/Client/Attempts.antt =====
-- packages/resilient-client/src/resilient-client.ts, `#executeWithRetry` and `#backoff`: the attempts
-- of one call. What an attempt meets is a record: the caller's budget when it begins, the wait for a
-- slot of the concurrency limiter, and what the dispatcher does. The effects are the calls of the
-- limiter (none without one), the requests sent, the bodies drained and the retries counted. Times
-- are milliseconds; how long a backoff lasts is that of `computeJitteredDelay`.
pub mod Outcomes
pub mod Ends
use nodejs_basics.Prelude.{
  ℕ, zero, suc, ◌+◌, ◌-◌, String, Bool, true, false, not, Option, none, some, List, [], ◌∷◌, ◌++◌,
  any, ◌&&◌, ◌||◌, leb, ltb, ◌==◌, ◌===◌, string_key, if◌then◌else◌,
}
use nodejs_basics.Prelude.Int.{ℤ, pos, negsuc}
use nodejs_basics.Client.Errors.{
  OutboundError, deadline_error, exhausted_error, client_error_of, network_error,
}

-- The fields that the attempts read.
pub record Settings : Type 0 where
  pub base_url : String
  pub max_retries : ℕ
  pub retry_status_codes : List ℕ
  pub retry_error_codes : List String
  pub passthrough_4xx : Bool

-- The defaults of the constructor.
abbrev pub default_settings : String → Settings
default_settings base_url = record {
  base_url = base_url;
  max_retries = 2;
  retry_status_codes = 429 ∷ 502 ∷ 503 ∷ 504 ∷ [];
  retry_error_codes =
      "ECONNRESET" ∷ "ECONNREFUSED" ∷ "ENOTFOUND" ∷ "ENETDOWN" ∷ "ENETUNREACH" ∷ "EHOSTDOWN"
      ∷ "EHOSTUNREACH" ∷ "EPIPE" ∷ [];
  passthrough_4xx = false;
}

-- What the dispatcher does: a response with its status, an `OutboundError`, or another error, which
-- is a timeout's abort or not, with its `code` if it has one.
pub data Dispatched : Type 0 where
  responded : (status : ℕ) → Dispatched
  threw_outbound : OutboundError → Dispatched
  threw : (is_timeout : Bool) (code : Option String) → Dispatched

pub record Attempt : Type 0 where
  pub budget : Option ℤ
  pub waited : ℕ
  pub dispatched : Dispatched

pub data Effect : Type 0 where
  acquired cancelled : Effect
  sent : (left : Option ℕ) → Effect
  released : (failed : Bool) → Effect
  drained retried : Effect

pub data Answer : Type 0 where
  response : (status : ℕ) → Answer
  error : OutboundError → Answer

-- How an attempt ends: with an answer, or for another one.
pub data Ended : Type 0 where
  answer : Answer → Ended
  again : Ended

module _ (c : Settings) where
  abbrev pub is_retry_status : ℕ → Bool
  is_retry_status status = any (λ s. s == status) c.retry_status_codes

  abbrev pub is_retry_code : Option String → Bool
  is_retry_code none = any (λ code. code === "") c.retry_error_codes
  is_retry_code (some code) = any (λ known. known === code) c.retry_error_codes

  -- A response of the dispatcher; `more` tells whether `attempt < maxRetries`.
  unfoldable pub on_response : (more : Bool) → ℕ → List Effect × Ended
  on_response more status =
      if is_retry_status status
      then (
        released true ∷ drained ∷ (if more then retried ∷ [] else []),
        if more then again else answer (error (exhausted_error c.base_url status)),
      )
      else if leb 400 status && ltb status 500 && not c.passthrough_4xx
      then (released false ∷ drained ∷ [], answer (error (client_error_of status c.base_url)))
      else (released false ∷ [], answer (response status))

  -- An error of the dispatcher; `budgeted` tells whether the request had a deadline.
  unfoldable pub on_error : (more budgeted is_timeout : Bool) → Option String → List Effect × Ended
  on_error more budgeted is_timeout code =
      if budgeted && is_timeout
      then (released true ∷ [], answer (error (deadline_error c.base_url)))
      else if is_retry_code code && more
      then (released true ∷ retried ∷ [], again)
      else (released true ∷ [], answer (error (network_error none)))

  unfoldable pub after_dispatch : (more budgeted : Bool) → Dispatched → List Effect × Ended
  unfolding on_response on_error
  after_dispatch more budgeted (responded status) = on_response more status
  after_dispatch more budgeted (threw_outbound err) = (released true ∷ [], answer (error err))
  after_dispatch more budgeted (threw is_timeout code) = on_error more budgeted is_timeout code

  abbrev pub send_with : Option ℕ → List Effect × Ended → List Effect × Ended
  send_with left (effects, ended) = (acquired ∷ sent left ∷ effects, ended)

  -- One round of the loop, by the budget that it begins with: spent, or spent once a slot is there.
  unfoldable pub attempt_within :
      (more : Bool) → Option ℤ → (waited : ℕ) → Dispatched → List Effect × Ended
  unfolding after_dispatch
  attempt_within more none waited d = send_with none (after_dispatch more false d)
  attempt_within more (some (negsuc _)) waited d = ([], answer (error (deadline_error c.base_url)))
  attempt_within more (some (pos budget)) waited d =
      if budget == 0
      then ([], answer (error (deadline_error c.base_url)))
      else if leb budget waited
      then (acquired ∷ cancelled ∷ [], answer (error (deadline_error c.base_url)))
      else send_with (some (budget - waited)) (after_dispatch more true d)

  unfoldable pub one_attempt : (more : Bool) → Attempt → List Effect × Ended
  unfolding attempt_within
  one_attempt more a = attempt_within more a.budget a.waited a.dispatched

  -- After a round: the answer, or the rest of the loop. `unreachable` ends a loop that has no round
  -- left, the `throw` behind it.
  abbrev pub then_rest :
      List Effect × Ended → List Effect × Option Answer → List Effect × Option Answer
  then_rest (effects, answer a) rest = (effects, some a)
  then_rest (effects, again) (later, a) = (effects ++ later, a)

  -- The loop with so many rounds left after this one, from round `attempt` on.
  unfoldable pub attempts_from : (ℕ → Attempt) → (left attempt : ℕ) → List Effect × Option Answer
  unfolding one_attempt
  attempts_from world zero attempt = then_rest (one_attempt false (world attempt)) ([], none)
  attempts_from world (suc left) attempt =
      let rest = attempts_from world left (attempt + 1) in
      then_rest (one_attempt true (world attempt)) rest

  unfoldable pub execute_with_retry : (ℕ → Attempt) → List Effect × Option Answer
  unfolding attempts_from
  execute_with_retry world = attempts_from world c.max_retries 0
