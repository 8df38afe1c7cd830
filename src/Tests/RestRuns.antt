-- ===== src/Tests/RestRuns.antt =====
-- Runs of src/hallpass/rest.py: the retries, the breaker, and a handler's requests.
use hallpass.Prelude.{
  String, ℕ, ◌≡◌, ◌≤◌, ◌-◌, ◌+◌, ◌⊎◌, refl, true, false, Bool, List, [], ◌∷◌, Option, none, some,
  is_some, ◌++◌, leb, string_eq, nat_eq, arith, ◌==◌, if◌then◌else◌,
}
use hallpass.Prelude.Text.{chars}
use hallpass.Vault.{Vault, secret}
use hallpass.Guard.{Envelope, envelope_overhead, utf8_length}
use hallpass.Connectors.{UserContext, run, done, store_credential}
use hallpass.Rest.{ConnectorError, Response, body, failed, HttpRequest}
use hallpass.Rest.Retry.{RetryPolicy, retrying}
use hallpass.Rest.Retry.Schedule.{Tried, retrying-Tried}
use hallpass.Rest.Breaker.{BreakerPolicy, Breaker, closed}
use hallpass.Rest.Breaker.Outages.{
  Call, run_calls, reached, outages, opens_at_threshold, IsConsistent, Probed, probes_at_reset,
}
use hallpass.Rest.Auth.{scheme, malformed}
use hallpass.Rest.Service.{Endpoint, RestService}
use hallpass.Rest.Handler.{Values, formatted, Task, handler}
use hallpass.Rest.Handler.Renewal.{Alone, handler_one_request}
use hallpass.Rest.Handler.Renewal.Stale.{Served, handler-Served}
use hallpass.Rest.Handler.Limit.{handler_within_limit}
use hallpass.Tests.Fixtures.{ann, plain}

-- An error of the service, by its status.
abbrev error_of : ℕ → ConnectorError
error_of status = record {
  message = "failed";
  status = some status;
  retry_after = none;
  circuit_open = false;
}

-- A service that fails while its state is positive, and counts down.
abbrev flaky : String → ℕ → Response String × ℕ
flaky request n = if n == 0 then (body "fine", 0) else (failed (error_of 503), n - 1)

abbrev retries : RetryPolicy
retries = record { max_retries = 2; base_delay = 5; max_delay = 300; statuses = 429 ∷ 503 ∷ [] }

retrying-Tried_example :
    Tried flaky (λ t n. n) retries "q" 0 1 (retrying flaky (λ t n. n) retries 3 "q" 1)
retrying-Tried_example = retrying-Tried flaky (λ t n. n) retries "q" 3 1 (omega arith)

abbrev trips : BreakerPolicy
trips = record { failure_threshold = 2; reset_after = 30; trip_statuses = 503 ∷ [] }

abbrev two_calls : List (Call String)
two_calls =
    record { request = "q"; now = 1; later = 2 } ∷ record { request = "q"; now = 3; later = 4 } ∷ []

opens_at_threshold_example :
    ((run_calls trips flaky two_calls closed 5).0.failures
      ≡ outages trips 0 (reached trips flaky two_calls closed 5))
    × (is_some (run_calls trips flaky two_calls closed 5).0.opened_at
        ≡ leb 2 (outages trips 0 (reached trips flaky two_calls closed 5)))
opens_at_threshold_example = opens_at_threshold trips flaky two_calls 5 (omega arith)

abbrev tripped : Breaker
tripped = record { failures = 2; opened_at = some 4 }

abbrev probe : Call String
probe = record { request = "q"; now = 34; later = 35 }

tripped-IsConsistent : IsConsistent trips flaky tripped
tripped-IsConsistent = record { opened = refl }

probes_at_reset_example :
    (reached trips flaky (two_calls ++ probe ∷ []) tripped 5 ≡ failed (error_of 503) ∷ [])
    × ((run_calls trips flaky (two_calls ++ probe ∷ []) tripped 5).1 ≡ 4)
    × Probed trips flaky tripped 35
        (failed (error_of 503))
        (run_calls trips flaky (two_calls ++ probe ∷ []) tripped 5).0
probes_at_reset_example =
    probes_at_reset trips flaky two_calls probe 4 tripped 5 tripped-IsConsistent refl
      (omega arith, (omega arith, tt)) (omega arith)

-- JSON values are texts here.
abbrev values : Values String
values = record {
  formats = record { format_cred = λ template cred. none; loads = λ t. malformed };
  format_path = λ path args. formatted path;
  of_text = λ t. t;
  serialize = λ t. t;
  wrap = λ e. e.preview;
}

abbrev notes : RestService
notes = record {
  service = "notes";
  base_url = "https://notes/";
  endpoints = [];
  auth = scheme "bearer";
  headers = [];
  requires_base_url = false;
}

abbrev me : Endpoint
me = record {
  name = "me";
  description = "who am I";
  method = "GET";
  path = "/me";
  scopes = [];
  query = [];
  body = [];
  required = [];
  form = false;
  graphql = none;
}

abbrev ctx : UserContext
ctx = record { principal = ann; service = "notes" }

abbrev request_with : String → HttpRequest String
request_with header = record {
  method = "GET";
  url = "https://notes/me";
  headers = ("Authorization", header) ∷ [];
  params = [];
  json = none;
  form = none;
}

-- The service knows one token, and counts what it is asked.
abbrev known : HttpRequest String → ℕ → Response String × ℕ
known q n = elim q.headers [
  | [] ↦ (failed (error_of 401), n + 1)
  | header ∷ rest ↦
      if header.1 == "Bearer new" then (body "ann", n + 1) else (failed (error_of 401), n + 1)
]

abbrev stored : String → Vault (ℕ × String)
stored token = record { entries = (("ann", "notes"), (0, token)) ∷ []; entropy = 1 }

abbrev fresh : String → String → Task String Unit
fresh subject service = store_credential "new" (done tt)

handler_one_request_example :
    Alone plain ctx values notes me known none "https://notes/" [] (stored "new") 0 (
      run plain ctx known
        (handler values notes me none ctx none "https://notes/" [])
        (stored "new")
        0)
handler_one_request_example =
    handler_one_request plain ctx values notes me known none "https://notes/" [] (stored "new") 0

handler_within_limit_example :
    (utf8_length (chars "ann") ≤ 3)
    ⊎ ((e : Envelope) × ("ann" ≡ e.preview)
        × (e.max_bytes ≡ 3)
        × (utf8_length (chars e.preview) ≤ 3 - envelope_overhead))
unfolding run handler hallpass.Vault.fetch hallpass.Prelude.Dict.get hallpass.Prelude.Dict.put
handler_within_limit_example =
    handler_within_limit plain ctx values notes me known none 3 "https://notes/" [] (stored "new") 0
      "ann" refl

handler-Served_example :
    Served plain ctx values notes me known fresh none "https://notes/" [] (stored "old") 0 (
      run plain ctx known
        (handler values notes me (some fresh) ctx none "https://notes/" [])
        (stored "old")
        0)
handler-Served_example =
    handler-Served plain ctx values notes me known fresh none "https://notes/" [] (stored "old") 0
