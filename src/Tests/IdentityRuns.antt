-- ===== src/Tests/IdentityRuns.antt =====
-- Runs of `TokenVerifier` of src/hallpass/identity.py.
use hallpass.Prelude.{
  String, ℕ, ◌<◌, ◌≡◌, refl, ◌⊎◌, false, [], ◌∷◌, Option, none, some, string_eq, arith,
  if◌then◌else◌, ltb,
}
use hallpass.Prelude.Dict
use hallpass.Prelude.Dict.{Dict, Each}
use hallpass.Identity.{Principal}
use hallpass.Identity.Scopes.{extract_scopes}
use hallpass.Identity.Jwks.{find_key}
use hallpass.Identity.Revocation.{RevocationTable, table_ops, is_revoked}
use hallpass.Identity.Verifier.{
  Decoded, JwtLibrary, JwksOps, Config, Verifier, verify, kind_of, principal_of, key_for, cached,
}
use hallpass.Identity.Verifier.Genuine.{Genuine}
use hallpass.Identity.Verifier.Sound.{is_cut_off, verify-Genuine, cache-verify}

abbrev expiring : Decoded
expiring = record { sub = "ann"; exp = 100; claims = [] }

abbrev decode : String → String → String → String → ℕ → Option Decoded
decode token key audience issuer now = if ltb now 100 then some expiring else none

abbrev jwt : JwtLibrary String String
jwt = record {
  get_unverified_header = λ token. some (record { alg = some "RS256"; kid = some "k" });
  key_of = λ jwk. some jwk.material;
  decode = decode;
  list_text = λ vs. "[]";
}

abbrev keys_at : JwksOps String ℕ
keys_at = record { get = λ force n. (some (record { kid = some "k"; material = "m" } ∷ []), n) }

abbrev config : Config
config = record {
  issuer = "idp";
  audience = "hallpass";
  service_claim = none;
  service_values = [];
  cache_size = 4;
}

abbrev fresh_verifier : Verifier ℕ RevocationTable
fresh_verifier = record { jwks = 0; revocations = record { revoked_by = [] }; cache = [] }

abbrev ann : Principal
ann = record { subject = "ann"; scopes = []; claims = []; kind = "user" }

decode_expires :
    (token key audience issuer : String) (t : ℕ) (d : Decoded)
    → decode token key audience issuer t ≡ some d
    → t < d.exp
decode_expires token key audience issuer t d h = ground arith

verify-Genuine_example :
    (exp : ℕ) × Genuine jwt keys_at config "header.body.mac" (ann, exp)
    × ((5 < exp) ⊎ (6 < exp))
    × (is_cut_off jwt keys_at (some table_ops) config "ann" fresh_verifier.revocations ≡ false)
unfolding table_ops principal_of verify cached Dict.get find_key is_revoked key_for kind_of
    extract_scopes
verify-Genuine_example =
    verify-Genuine jwt keys_at (some table_ops) config decode_expires "header.body.mac" 5 6
      fresh_verifier ann tt refl

cache-verify_example :
    Each
      (Genuine jwt keys_at config)
      (verify jwt keys_at (some table_ops) config "header.body.mac" 5 6 fresh_verifier).1.cache
cache-verify_example =
    cache-verify jwt keys_at (some table_ops) config decode_expires "header.body.mac" 5 6
      fresh_verifier tt
