-- ===== src/Rest/Breaker.antt =====
-- `CircuitBreakerHttpClient` of src/hallpass/rest.py. `now - opened_at < reset_after` is written
-- `now < opened_at + reset_after`.
pub mod Outages
use hallpass.Prelude.{
  ℕ, zero, suc, ◌+◌, Bool, true, false, ◌||◌, if◌then◌else◌, leb, ltb, List, elem, Option, none,
  some, nat_eq,
}
use hallpass.Rest.{ConnectorError, Response, body, failed, raised_other, HttpClient}
use hallpass.Rest.Retry.{status_in}

-- `BreakerPolicy`
pub record BreakerPolicy : Type 0 where
  pub failure_threshold : ℕ
  pub reset_after : ℕ
  pub trip_statuses : List ℕ

-- The state of a `CircuitBreakerHttpClient`.
pub record Breaker : Type 0 where
  pub failures : ℕ
  pub opened_at : Option ℕ

-- `__init__`
abbrev pub closed : Breaker
closed = record { failures = 0; opened_at = none }

-- `CircuitOpen(…, status=503)`
abbrev pub circuit_open : ConnectorError
circuit_open = record {
  message = "circuit open";
  status = some 503;
  retry_after = none;
  circuit_open = true;
}

module _ (policy : BreakerPolicy) where
  -- The test under the first lock.
  abbrev pub blocks : ℕ → Option ℕ → Bool
  blocks now none = false
  blocks now (some at) = ltb now (at + policy.reset_after)

  -- `_is_outage`
  abbrev pub is_outage : Option ℕ → Bool
  is_outage none = true
  is_outage (some s) = status_in (some s) policy.trip_statuses

  -- The breaker after an answer of the inner client; `later` is the clock when it trips.
  unfoldable pub after_answer : {Body : Type 0} → ℕ → Response Body → Breaker → Breaker
  after_answer later (body _) b = closed
  after_answer later raised_other b = b
  after_answer later (failed e) b =
      let failures = suc b.failures in
      if is_outage e.status
      then record {
        failures = failures;
        opened_at = if leb policy.failure_threshold failures then some later else b.opened_at;
      }
      else b

  -- `request`
  unfoldable pub guarded :
      {Request Body W : Type 0}
      → HttpClient Request Body W
      → ℕ
      → ℕ
      → Request
      → Breaker
      → W
      → Response Body × Breaker × W
  unfolding after_answer
  guarded inner now later request b w =
      let answer = inner request w in
      if blocks now b.opened_at
      then (failed circuit_open, b, w)
      else (answer.0, after_answer later answer.0 b, answer.1)
