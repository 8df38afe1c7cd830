-- ===== src/Rest.antt =====
-- src/hallpass/rest.py: declarative REST connectors and the clients that they call through.
pub mod Retry
pub mod Breaker
pub mod Auth
pub mod Handler
pub mod Service
use hallpass.Prelude.{String, ℕ, Bool, Option, none}
use hallpass.Prelude.Dict.{Dict}

-- `ConnectorError`; `circuit_open` marks the subclass `CircuitOpen`. Times are whole numbers of one
-- small unit.
pub record ConnectorError : Type 0 where
  pub message : String
  pub status : Option ℕ
  pub retry_after : Option ℕ
  pub circuit_open : Bool

-- What `HttpClient.request` returns or raises; `raised_other` is any exception that is no
-- `ConnectorError`, such as a transport's own, which nothing in the module catches.
pub data Response (Body : Type 0) : Type 0 where
  body : Body → Response Body
  failed : ConnectorError → Response Body
  raised_other : Response Body

-- A body of a request: the fields that the arguments give, or a GraphQL document with its variables.
pub data Document (V : Type 0) : Type 0 where
  fields : Dict String V → Document V
  graphql : String → Dict String V → Document V

-- The arguments of `HttpClient.request`, over the JSON values; `form` is the argument `data`.
pub record HttpRequest (V : Type 0) : Type 0 where
  pub method : String
  pub url : String
  pub headers : Dict String String
  pub params : Dict String V
  pub json : Option (Document V)
  pub form : Option (Document V)

-- `HttpClient`, over the state of the world behind it.
abbrev pub HttpClient : Type 0 → Type 0 → Type 0 → Type 0
HttpClient Request Body W = Request → W → Response Body × W
