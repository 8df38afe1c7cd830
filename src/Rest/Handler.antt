-- ===== src/Rest/Handler.antt =====
-- `_make_handler` of src/hallpass/rest.py, as a script of what a handler can do.
pub mod Renewal
pub mod Limit
use Prim.Native.Char.{Char, code}
use hallpass.Prelude.{
  String, ℕ, Bool, true, false, ◌||◌, if◌then◌else◌, List, [], ◌∷◌, ◌++◌, Option, none, some,
  string_eq, nat_eq, ◌==◌,
}
use hallpass.Prelude.Dict
use hallpass.Prelude.Dict.{Dict}
use hallpass.Prelude.Text.{chars, text, concat}
use hallpass.Vault.{Fetched, secret, absent, vault_error}
use hallpass.Guard.{Envelope, guard_response}
use hallpass.Connectors.{Script, done, fail, credential, store_credential, call, UserContext}
use hallpass.Rest.{
  ConnectorError, Response, body, failed, raised_other, Document, fields, graphql, HttpRequest,
}
use hallpass.Rest.Auth.{Formats, applied, refused, crashed, local_error, apply_auth}
use hallpass.Rest.Service.{Endpoint, RestService}

-- What the handler raises: a `ConnectorError`, the vault's error, an exception of Python's own, or
-- the client's.
pub data Failure : Type 0 where
  connector_error : ConnectorError → Failure
  unreadable_credential broken_format client_raised : Failure

-- What `endpoint.path.format(**args)` returns or raises.
pub data PathResult : Type 0 where
  formatted : String → PathResult
  missing_key malformed_path : PathResult

-- The parts of Python that the handler uses, over the JSON values: `str.format` with the arguments,
-- a text as a value, `_serialize`, and an envelope as a value.
pub record Values (V : Type 0) : Type 0 where
  pub formats : Formats
  pub format_path : String → Dict String V → PathResult
  pub of_text : String → V
  pub serialize : V → String
  pub wrap : Envelope → V

-- `base_url.rstrip("/")`, on characters
unfoldable pub rstrip : List Char → List Char
rstrip [] = []
rstrip (c ∷ cs) = elim (rstrip cs) [
  | [] ↦ if code c == code "/" then [] else c ∷ []
  | d ∷ ds ↦ c ∷ d ∷ ds
]

module _ {V : Type 0} where
  -- `{k: args[k] for k in names if k in args}`, after what has been built
  unfoldable pub pick : List String → Dict String V → Dict String V → Dict String V
  pick [] args built = built
  pick (k ∷ names) args built = elim (Dict.get args k) [
    | none ↦ pick names args built
    | some v ↦ pick names args (Dict.put built k v)
  ]

  -- `{**a, **b}`, with the values of `b` seen through a function
  unfoldable pub merge : {B : Type 0} → (B → V) → Dict String V → Dict String B → Dict String V
  merge f a [] = a
  merge f a ((k, v) ∷ b) = merge f (Dict.put a k (f v)) b

  -- `{…} or None`
  abbrev pub or_none : Dict String V → Option (Document V)
  or_none [] = none
  or_none (entry ∷ rest) = some (fields (entry ∷ rest))

-- One step of code, then the rest.
unfoldable pub then_run :
    {Request Reply A B Err : Type 0}
    → Script Request Reply A Err
    → (A → Script Request Reply B Err)
    → Script Request Reply B Err
then_run (done a) k = k a
then_run (fail e) k = fail e
then_run (credential h) k = credential (λ r. then_run (h r) k)
then_run (store_credential plain h) k = store_credential plain (then_run h k)
then_run (call request h) k = call request (λ r. then_run (h r) k)

-- The scripts of the handler, and what its refresher does to the same (subject, service).
abbrev pub Task : Type 0 → Type 0 → Type 0
Task V Out = Script (HttpRequest V) (Response V) Out Failure

-- What is known of a request before a credential is put on it.
pub record Prepared (V : Type 0) : Type 0 where
  pub url : String
  pub query : Dict String V
  pub document : Option (Document V)

-- A request, or the exception of `_apply_auth`.
pub data Built (V : Type 0) : Type 0 where
  built : HttpRequest V → Built V
  not_built : ConnectorError → Built V
  crashed_format : Built V

-- `exc.status in (401, 403)`
abbrev pub is_stale : Option ℕ → Bool
is_stale none = false
is_stale (some s) = s == 401 || s == 403

module _ {V : Type 0} (py : Values V) (service : RestService) (endpoint : Endpoint) where
  -- The body of a request.
  unfoldable pub document_of : Dict String V → Option (Document V)
  unfolding pick
  document_of args = elim endpoint.graphql [
    | some query ↦ some (graphql query (pick endpoint.body args []))
    | none ↦ or_none (pick endpoint.body args [])
  ]

  -- The url, the query and the body.
  unfoldable pub prepare : String → String → Dict String V → Prepared V
  unfolding rstrip pick document_of
  prepare base_url path args = record {
    url = concat (text (rstrip (chars base_url))) path;
    query = pick endpoint.query args [];
    document = document_of args;
  }

  -- The request of the inner `call`.
  unfoldable pub request_for : Prepared V → String → Built V
  unfolding apply_auth merge
  request_for p plain = elim (apply_auth py.formats service.auth plain) [
    | refused e ↦ not_built e
    | crashed ↦ crashed_format
    | applied auth_headers auth_params ↦ built (record {
      method = endpoint.method;
      url = p.url;
      headers = merge (λ h. h) service.headers auth_headers;
      params = merge py.of_text p.query auth_params;
      json = if endpoint.form then none else p.document;
      form = if endpoint.form then p.document else none;
    })
  ]

  -- `guard_response`, where there is a limit
  unfoldable pub limited : Option ℕ → V → V
  unfolding guard_response
  limited none value = value
  limited (some max_bytes) value = guard_response py.serialize py.wrap max_bytes value

  -- The inner `call` after an answer of the client.
  abbrev pub after_answer : Option ℕ → (ConnectorError → Task V V) → Response V → Task V V
  after_answer limit on_error (body b) = done (limited limit b)
  after_answer limit on_error (failed e) = on_error e
  after_answer limit on_error raised_other = fail client_raised

  -- The inner `call`, once the credential is on the request.
  abbrev pub send : Option ℕ → (ConnectorError → Task V V) → Built V → Task V V
  send limit on_error (not_built e) = on_error e
  send limit on_error crashed_format = fail broken_format
  send limit on_error (built request) = call request (after_answer limit on_error)

  -- The inner `call`, with what handles its `ConnectorError`.
  unfoldable pub attempt : Option ℕ → Prepared V → String → (ConnectorError → Task V V) → Task V V
  unfolding request_for limited
  attempt limit p plain on_error = send limit on_error (request_for p plain)

  abbrev pub raise_error : ConnectorError → Task V V
  raise_error e = fail (connector_error e)

  -- After the refresh: another attempt if the credential has changed.
  unfoldable pub with_renewed : Option ℕ → Prepared V → String → ConnectorError → Fetched → Task V V
  unfolding attempt
  with_renewed limit p plain e (secret renewed) =
      if renewed == plain then raise_error e else attempt limit p renewed raise_error
  with_renewed limit p plain e absent = raise_error e
  with_renewed limit p plain e vault_error = fail unreadable_credential

  -- The handler of the exception.
  unfoldable pub renew :
      Option (String → String → Task V Unit)
      → UserContext
      → Option ℕ
      → Prepared V
      → String
      → ConnectorError
      → Task V V
  unfolding then_run with_renewed
  renew none ctx limit p plain e = raise_error e
  renew (some refresh) ctx limit p plain e =
      if is_stale e.status
      then then_run (refresh ctx.principal.subject service.service)
          (λ _. credential (with_renewed limit p plain e))
      else raise_error e

  -- The handler, once the credential and the path are there.
  unfoldable pub serve :
      Option (String → String → Task V Unit)
      → UserContext
      → Option ℕ
      → Prepared V
      → String
      → Task V V
  unfolding attempt renew
  serve refresher ctx limit p plain = attempt limit p plain (renew refresher ctx limit p plain)

  -- The handler after the path has been formatted.
  unfoldable pub with_path :
      Option (String → String → Task V Unit)
      → UserContext
      → Option ℕ
      → String
      → Dict String V
      → String
      → PathResult
      → Task V V
  unfolding serve prepare
  with_path refresher ctx limit base_url args plain missing_key =
      raise_error (local_error "missing path argument")
  with_path refresher ctx limit base_url args plain malformed_path = fail broken_format
  with_path refresher ctx limit base_url args plain (formatted path) =
      serve refresher ctx limit (prepare base_url path args) plain

  -- The handler after `ctx.credential()`.
  unfoldable pub with_credential :
      Option (String → String → Task V Unit)
      → UserContext
      → Option ℕ
      → String
      → Dict String V
      → Fetched
      → Task V V
  unfolding with_path
  with_credential refresher ctx limit base_url args absent =
      raise_error (local_error "not connected for this user")
  with_credential refresher ctx limit base_url args vault_error = fail unreadable_credential
  with_credential refresher ctx limit base_url args (secret plain) =
      with_path refresher ctx limit base_url args plain (py.format_path endpoint.path args)

  -- `handler`
  unfoldable pub handler :
      Option (String → String → Task V Unit)
      → UserContext
      → Option ℕ
      → String
      → Dict String V
      → Task V V
  unfolding with_credential
  handler refresher ctx limit base_url args =
      credential (with_credential refresher ctx limit base_url args)
