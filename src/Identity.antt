-- ===== src/Identity.antt =====
-- src/hallpass/identity.py: the authenticated caller. The children hold the JWKS cache, the
-- revocation list and the token verifier.
pub mod Scopes
pub mod Revocation
pub mod Jwks
pub mod Verifier
use hallpass.Prelude.{String, List, Bool, ◌==◌, string_eq}
use hallpass.Prelude.Dict.{Dict}

-- A JSON value of a claim. `other` holds what is neither text nor a list, by its `str()` text.
mutual
  pub data Value : Type 0 where
    str : String → Value
    list : Values → Value
    other : String → Value

  pub data Values : Type 0 where
    nil : Values
    cons : Value → Values → Values

-- `Principal`
pub record Principal : Type 0 where
  pub subject : String
  pub scopes : List String
  pub claims : Dict String Value
  pub kind : String

-- `Principal.is_service`
unfoldable pub is_service : Principal → Bool
is_service p = p.kind == "service"
