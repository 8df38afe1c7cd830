-- ===== src/Rest/Retry.antt =====
-- `RetryingHttpClient` of src/hallpass/rest.py.
pub mod Schedule
use hallpass.Prelude.{
  ℕ, zero, suc, ◌+◌, ◌*◌, ◌^◌, min, Bool, true, false, ◌||◌, not, if◌then◌else◌, leb, List, elem,
  Option, none, some, nat_eq, ◌==◌,
}
use hallpass.Rest.{ConnectorError, Response, body, failed, raised_other, HttpClient}

-- `RetryPolicy`
pub record RetryPolicy : Type 0 where
  pub max_retries : ℕ
  pub base_delay : ℕ
  pub max_delay : ℕ
  pub statuses : List ℕ

-- `exc.status in policy.statuses`
abbrev pub status_in : Option ℕ → List ℕ → Bool
status_in none statuses = false
status_in (some s) statuses = elem s statuses

-- `min(policy.base_delay * (2**attempt), policy.max_delay)`
abbrev pub backoff : RetryPolicy → ℕ → ℕ
backoff policy attempt = min (policy.base_delay * 2 ^ attempt) policy.max_delay

-- How long the client sleeps after a failed attempt.
abbrev pub wait_of : RetryPolicy → ℕ → Option ℕ → ℕ
wait_of policy attempt none = backoff policy attempt
wait_of policy attempt (some seconds) = seconds

module _ {Request Body W : Type 0} (inner : HttpClient Request Body W) (sleep : ℕ → W → W)
    (policy : RetryPolicy) where
  -- `raise` in the handler of the exception.
  abbrev pub gives_up : ℕ → ConnectorError → Bool
  gives_up attempt e = not (status_in e.status policy.statuses) || leb policy.max_retries attempt

  -- The loop of `request`; `none` is a loop that ran out of fuel.
  unfoldable pub attempts : ℕ → ℕ → Request → W → Option (Response Body × W)
  attempts zero attempt request w = none
  attempts (suc fuel) attempt request w =
      let answer = inner request w in
      elim answer.0 [
        | body b ↦ some answer
        | raised_other ↦ some answer
        | failed e ↦
            let again =
              attempts fuel (suc attempt) request
                (sleep (wait_of policy attempt e.retry_after) answer.1) in
            if gives_up attempt e then some answer else again
      ]

  -- `request`
  unfoldable pub retrying : ℕ → Request → W → Option (Response Body × W)
  unfolding attempts
  retrying fuel request w = attempts fuel 0 request w
