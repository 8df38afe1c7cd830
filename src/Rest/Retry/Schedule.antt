-- ===== src/Rest/Retry/Schedule.antt =====
-- How often `RetryingHttpClient` of src/hallpass/rest.py tries, and what it answers.
use mathlib.Core.Path.{subst}
use hallpass.Prelude.{
  sym, ℕ, zero, suc, ◌+◌, ◌≤◌, ◌<◌, ◌≡◌, refl, true, false, leb, Option, some, arith, nat_eq,
  Bool-cases, inl, inr, ◌⊎◌,
}
use hallpass.Rest.{ConnectorError, Response, body, failed, raised_other, HttpClient}
use hallpass.Rest.Retry.{RetryPolicy, status_in, wait_of, attempts, retrying}

Response-cases :
    {B : Type 0} (r : Response B)
    → (((b : B) × (r ≡ body b)) ⊎ (r ≡ raised_other)) ⊎ ((e : ConnectorError) × (r ≡ failed e))
Response-cases (body b) = inl (inl (b, refl))
Response-cases raised_other = inl (inr refl)
Response-cases (failed e) = inr (e, refl)

module _ {Request Body W : Type 0} (inner : HttpClient Request Body W) (sleep : ℕ → W → W)
    (policy : RetryPolicy) (request : Request) where
  -- From this world the client fails `k` times with a status that is retried, sleeps each time, and
  -- arrives at the second world.
  pub data Fails : ℕ → ℕ → W → W → Type 0 where
    arrived : (attempt : ℕ) (w : W) → Fails attempt zero w w
    again :
        (attempt k : ℕ) (w w' : W) (e : ConnectorError)
        → (inner request w).0 ≡ failed e
        → status_in e.status policy.statuses ≡ true
        → Fails
            (suc attempt)
            k
            (sleep (wait_of policy attempt e.retry_after) (inner request w).1)
            w'
        → Fails attempt (suc k) w w'

  -- The answer is not one that is retried: a body, another failure, or an exception that is no
  -- `ConnectorError`.
  abbrev pub IsFinal : Response Body → Type 0
  IsFinal (body b) = Unit
  IsFinal raised_other = Unit
  IsFinal (failed e) = status_in e.status policy.statuses ≡ false

  -- What the loop does from an attempt on.
  pub record Tried (attempt : ℕ) (w : W) (out : Option (Response Body × W)) : Type 0 where
    pub retries : ℕ
    pub within : attempt + retries ≤ policy.max_retries
    pub last : W
    pub fails : Fails attempt retries w last
    pub answered : out ≡ some (inner request last)
    pub stops : IsFinal (inner request last).0 ⊎ (attempt + retries ≡ policy.max_retries)

  attempts-Tried :
      (fuel attempt : ℕ) (w : W)
      → attempt ≤ policy.max_retries
      → policy.max_retries < fuel + attempt
      → Tried attempt w (attempts inner sleep policy fuel attempt request w)
  unfolding attempts
  attempts-Tried zero attempt w h f = absurd (omega arith)
  attempts-Tried (suc fuel) attempt w h f = elim (Response-cases (inner request w).0) [
    | inl settled ↦ record {
      retries = 0;
      within = omega arith;
      last = w;
      fails = arrived attempt w;
      answered = elim settled [ inl (b, e) ↦ ground arith | inr e ↦ ground arith ];
      stops = inl (elim settled [
        | inl (b, e) ↦ subst IsFinal (sym e) tt
        | inr e ↦ subst IsFinal (sym e) tt
      ]);
    }
    | inr (x, e) ↦ elim (Bool-cases (status_in x.status policy.statuses)) [
      | inr other ↦ record {
        retries = 0;
        within = omega arith;
        last = w;
        fails = arrived attempt w;
        answered = ground arith;
        stops = inl (subst IsFinal (sym e) other);
      }
      | inl transient ↦ elim (Bool-cases (leb policy.max_retries attempt)) [
        | inl spent ↦ record {
          retries = 0;
          within = omega arith;
          last = w;
          fails = arrived attempt w;
          answered = ground arith;
          stops = inr (ground arith);
        }
        | inr left ↦
            let w' = sleep (wait_of policy attempt x.retry_after) (inner request w).1 in
            let rest = attempts-Tried fuel (suc attempt) w' (ground arith) (omega arith) in
            record {
              retries = suc rest.retries;
              within = omega (arith, rest.within);
              last = rest.last;
              fails = again attempt rest.retries w rest.last x e transient rest.fails;
              answered = ground (arith, rest.answered);
              stops = elim rest.stops [ inl f ↦ inl f | inr n ↦ inr (omega (arith, n)) ];
            }
      ]
    ]
  ]

  -- With more fuel than retries the loop ends: after some number of failures with a status that is
  -- retried, at most `max_retries` of them and each followed by its wait, it answers what the next
  -- attempt answers, which is a body, another exception, or that of the last attempt allowed.
  pub retrying-Tried :
      (fuel : ℕ) (w : W)
      → policy.max_retries < fuel
      → Tried 0 w (retrying inner sleep policy fuel request w)
  unfolding retrying
  retrying-Tried fuel w h = attempts-Tried fuel 0 w (omega arith) (omega arith)
