-- ===== src/Rest/Service.antt =====
-- The descriptions of src/hallpass/rest.py: a service, its endpoints, and the tools that a
-- `RestConnector` makes of them.
use Prim.Native.Char.{Char, code}
use hallpass.Prelude.{
  String, ℕ, Bool, true, false, ◌&&◌, ◌||◌, if◌then◌else◌, ltb, length, List, [], ◌∷◌, ◌++◌, map,
  Option, none, some, elem, string_eq, nat_eq, ◌==◌,
}
use hallpass.Prelude.Dict
use hallpass.Prelude.Dict.{Dict}
use hallpass.Prelude.Sets.{nonempty}
use hallpass.Prelude.Order.{sort, str_leb}
use hallpass.Prelude.Text.{chars, text}
use hallpass.Gating.{ToolAnnotations, ToolSpec}
use hallpass.Rest.Auth.{Auth}

-- `Endpoint`
pub record Endpoint : Type 0 where
  pub name : String
  pub description : String
  pub method : String
  pub path : String
  pub scopes : List String
  pub query : List String
  pub body : List String
  pub required : List String
  pub form : Bool
  pub graphql : Option String

-- `RestService`
pub record RestService : Type 0 where
  pub service : String
  pub base_url : String
  pub endpoints : List Endpoint
  pub auth : Auth
  pub headers : Dict String String
  pub requires_base_url : Bool

-- An `input_schema`: the properties, all of one type, and the list `required` where there is one.
pub record Schema : Type 0 where
  pub properties : Dict String String
  pub required : Option (List String)

-- `str.upper`, the class `\w` of regular expressions, and the JSON text of a schema.
pub record Texts : Type 0 where
  pub upper : String → String
  pub is_word : ℕ → Bool
  pub dumps : Schema → String

-- Each element once, where it stands last.
unfoldable pub distinct : List String → List String
distinct [] = []
distinct (x ∷ xs) = let rest = distinct xs in if elem x xs then rest else x ∷ rest

module _ (py : Texts) where
  -- `findall` of `\{(\w+)\}`: the second argument is the word since a brace that was opened.
  unfoldable pub scan : List Char → Option (List Char) → List String
  scan [] word = []
  scan (c ∷ cs) none =
      let opened = scan cs (some []) in
      let outside = scan cs none in if code c == code "{" then opened else outside
  scan (c ∷ cs) (some word) =
      let longer = scan cs (some (word ++ c ∷ [])) in
      let opened = scan cs (some []) in
      let outside = scan cs none in
      if py.is_word (code c)
      then longer
      else if code c == code "}" && ltb 0 (length word)
      then text word ∷ outside
      else if code c == code "{"
      then opened
      else outside

  -- `Endpoint.path_params`
  unfoldable pub path_params : Endpoint → List String
  unfolding scan
  path_params endpoint = scan (chars endpoint.path) none

  -- The loop of `input_schema`.
  unfoldable pub typed : List String → Dict String String → Dict String String
  typed [] built = built
  typed (name ∷ names) built = typed names (Dict.put built name "string")

  -- `Endpoint.input_schema`
  unfoldable pub input_schema : Endpoint → Schema
  unfolding path_params typed distinct
  input_schema endpoint =
      let required = distinct (path_params endpoint ++ endpoint.required) in
      record {
        properties = typed (path_params endpoint ++ endpoint.query ++ endpoint.body) [];
        required = if nonempty required then some (sort str_leb required) else none;
      }

  -- `_annotations_for_method`
  unfoldable pub annotations_for_method : String → ToolAnnotations
  annotations_for_method method =
      let verb = py.upper method in
      let hints : Bool → Bool → Bool → ToolAnnotations = λ reads destroys repeats. record {
        read_only = reads;
        destructive = destroys;
        idempotent = repeats;
      } in
      if verb == "GET" || verb == "HEAD"
      then hints true false false
      else if verb == "DELETE"
      then hints false true false
      else if verb == "PUT"
      then hints false false true
      else hints false false false

  -- A `RestConnector` after its constructor.
  pub record RestConnector : Type 0 where
    pub service : String
    pub spec : RestService
    pub base_url : String
    pub max_response_bytes : Option ℕ
    pub availability : Option Bool

  -- `base_url or spec.base_url`
  abbrev pub base_of : RestService → Option String → String
  base_of spec none = spec.base_url
  base_of spec (some url) = if url == "" then spec.base_url else url

  -- `not base_url`
  abbrev pub is_missing : Option String → Bool
  is_missing none = true
  is_missing (some url) = url == ""

  -- `RestConnector.__init__`: `none` stands for the `ValueError`.
  unfoldable pub rest_connector :
      RestService → Option Bool → Option String → Option ℕ → Option RestConnector
  rest_connector spec availability base_url limit =
      if spec.requires_base_url && is_missing base_url
      then none
      else some (record {
        service = spec.service;
        spec = spec;
        base_url = base_of spec base_url;
        max_response_bytes = limit;
        availability = availability;
      })

  -- `RestConnector.tools`, over the handler of an endpoint.
  unfoldable pub tools : {H : Type 0} → (Endpoint → H) → RestConnector → List (ToolSpec H)
  unfolding input_schema annotations_for_method
  tools make_handler connector =
      map
        (λ (endpoint : Endpoint). record {
          name = endpoint.name;
          description = endpoint.description;
          required_scopes = endpoint.scopes;
          handler = make_handler endpoint;
          connector = connector.spec.service;
          input_schema = some (py.dumps (input_schema endpoint));
          annotations = annotations_for_method endpoint.method;
        })
        connector.spec.endpoints

  -- `RestConnector.available`
  abbrev pub available : RestConnector → Bool
  available connector = elim connector.availability [ none ↦ true | some up ↦ up ]
