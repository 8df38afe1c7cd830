-- ===== src/Identity/Scopes.antt =====
-- `_extract_scopes` of src/hallpass/identity.py: the scopes that the claims of a token grant.
use hallpass.Prelude.{String, ◌≡◌, refl, Option, none, some, List, [], ◌∷◌, string_eq}
use hallpass.Prelude.Dict
use hallpass.Prelude.Dict.{Dict}
use hallpass.Prelude.Text.{split}
use hallpass.Identity.{Value, str, list, other, Values, nil, cons}

-- `[s for s in scp if isinstance(s, str)]`
unfoldable pub strings : Values → List String
strings nil = []
strings (cons (str s) vs) = s ∷ strings vs
strings (cons (list _) vs) = strings vs
strings (cons (other _) vs) = strings vs

-- The part of the function that reads `claims.get("scp")`.
unfoldable pub scp_scopes : Option Value → List String
scp_scopes (some (list vs)) = strings vs
scp_scopes (some (str s)) = split s
scp_scopes (some (other _)) = []
scp_scopes none = []

unfoldable pub scope_or_scp : Option Value → Option Value → List String
unfolding scp_scopes
scope_or_scp (some (str s)) scp = split s
scope_or_scp (some (list _)) scp = scp_scopes scp
scope_or_scp (some (other _)) scp = scp_scopes scp
scope_or_scp none scp = scp_scopes scp

unfoldable pub extract_scopes : Dict String Value → List String
unfolding scope_or_scp
extract_scopes claims = scope_or_scp (Dict.get claims "scope") (Dict.get claims "scp")

extract_example :
    extract_scopes (("scp", list (cons (str "a") (cons (other "7") (cons (str "b") nil)))) ∷ [])
    ≡ "a" ∷ "b" ∷ []
unfolding extract_scopes strings Dict.get
extract_example = refl
