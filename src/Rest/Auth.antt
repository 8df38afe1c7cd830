-- ===== src/Rest/Auth.antt =====
-- How src/hallpass/rest.py puts a credential on a request.
use hallpass.Prelude.{
  String, false, List, [], ◌∷◌, Option, none, some, string_eq, ◌==◌, if◌then◌else◌,
}
use hallpass.Prelude.Text.{concat}
use hallpass.Prelude.Dict
use hallpass.Prelude.Dict.{Dict}
use hallpass.Rest.{ConnectorError}

-- `Auth`: a fixed scheme, a tuple of a kind and a text, or several credentials.
pub data Auth : Type 0 where
  scheme : String → Auth
  slot : String → String → Auth
  multi : List (String × String × String) → Auth

-- What `json.loads` makes of a stored credential, with the values of an object as `str` shows them.
pub data Bundle : Type 0 where
  malformed not_an_object : Bundle
  object : Dict String String → Bundle

-- What `_apply_auth` returns or raises; `crashed` is an exception of `str.format`.
pub data Applied : Type 0 where
  applied : Dict String String → Dict String String → Applied
  refused : ConnectorError → Applied
  crashed : Applied

-- A `ConnectorError` that is no answer of the service.
abbrev pub local_error : String → ConnectorError
local_error message = record {
  message = message;
  status = none;
  retry_after = none;
  circuit_open = false;
}

-- The parts of Python that place a credential: `str.format` with the one argument `cred`, and
-- `json.loads`.
pub record Formats : Type 0 where
  pub format_cred : String → String → Option String
  pub loads : String → Bundle

-- The loop of `_apply_multi` over a bundle that has been read.
unfoldable pub place_all :
    Dict String String
    → List (String × String × String)
    → Dict String String
    → Dict String String
    → Applied
place_all bundle [] headers params = applied headers params
place_all bundle ((placement, name, key) ∷ spec) headers params = elim (Dict.get bundle key) [
  | none ↦ refused (local_error "multi-credential is missing a field")
  | some value ↦
      let in_header = place_all bundle spec (Dict.put headers name value) params in
      let in_query = place_all bundle spec headers (Dict.put params name value) in
      if placement == "header"
      then in_header
      else if placement == "query"
      then in_query
      else refused (local_error "unknown multi placement")
]

module _ (py : Formats) where
  -- `_apply_multi`
  unfoldable pub apply_multi : String → List (String × String × String) → Applied
  unfolding place_all
  apply_multi credential spec = elim (py.loads credential) [
    | malformed ↦
        refused (local_error "multi-credential must be a JSON object of named credentials")
    | not_an_object ↦ refused (local_error "multi-credential must be a JSON object")
    | object bundle ↦ place_all bundle spec [] []
  ]

  abbrev pub authorization : String → Applied
  authorization value = applied (("Authorization", value) ∷ []) []

  abbrev pub from_template : Option String → Applied
  from_template none = crashed
  from_template (some value) = authorization value

  -- `_apply_auth`
  unfoldable pub apply_auth : Auth → String → Applied
  unfolding apply_multi
  apply_auth (multi spec) credential = apply_multi credential spec
  apply_auth (slot kind payload) credential =
      if kind == "header"
      then applied ((payload, credential) ∷ []) []
      else if kind == "query"
      then applied [] ((payload, credential) ∷ [])
      else if kind == "template"
      then from_template (py.format_cred payload credential)
      else refused (local_error "unknown auth tuple kind")
  apply_auth (scheme name) credential =
      if name == "bearer"
      then authorization (concat "Bearer " credential)
      else if name == "token"
      then authorization (concat "token " credential)
      else if name == "bot"
      then authorization (concat "Bot " credential)
      else if name == "basic"
      then authorization (concat "Basic " credential)
      else refused (local_error "unknown auth style")
