-- ===== src/Identity/Verifier/Genuine.antt =====
-- What a successful `verify` of src/hallpass/identity.py proves about the token.
use hallpass.Prelude.{
  String, ℕ, zero, suc, Bool, true, false, ◌==◌, string_eq, ◌≡◌, refl, inl, inr, Option, none, some,
  arith, length, drop, leb, Option-cases, if◌then◌else◌,
}
use hallpass.Prelude.Dict.{Dict, Each, Each-put, Each-drop}
use hallpass.Identity.{Principal}
use hallpass.Identity.Jwks.{Jwk, Document, find_key}
use hallpass.Identity.Verifier.{
  ok, Header, Decoded, JwtLibrary, JwksOps, Config, remember, principal_of, refreshed_key, key_for,
}

module _ {M Key J : Type 0} (lib : JwtLibrary M Key) (source : JwksOps M J) where
  -- `key` is the reading of a key with this `kid` in a document that the source has served.
  pub record Published (kid : Option String) (key : Key) : Type 0 where
    pub name : String
    pub named : kid ≡ some name
    pub forced : Bool
    pub state : J
    pub document : Document M
    pub served : (source.get forced state).0 ≡ some document
    pub jwk : Jwk M
    pub found : find_key document name ≡ some jwk
    pub read : lib.key_of jwk ≡ some key

  refreshed_key-Published :
      (kid : String) (j : J) (key : Key)
      → (refreshed_key lib source kid j).0 ≡ ok key
      → Published (some kid) key
  unfolding refreshed_key
  refreshed_key-Published kid j key h = elim (Option-cases (source.get true j).0) [
    | inl e ↦ absurd (ground arith)
    | inr (doc, e) ↦ elim (Option-cases (find_key doc kid)) [
      | inl e' ↦ absurd (ground arith)
      | inr (jwk, e') ↦ record {
        name = kid;
        named = refl;
        forced = true;
        state = j;
        document = doc;
        served = e;
        jwk = jwk;
        found = e';
        read = ground arith;
      }
    ]
  ]

  pub key_for-Published :
      (kid : Option String) (j : J) (key : Key)
      → (key_for lib source kid j).0 ≡ ok key
      → Published kid key
  unfolding key_for
  key_for-Published none j key h = cc
  key_for-Published (some kid) j key h = elim (Option-cases (source.get false j).0) [
    | inl e ↦ absurd (ground arith)
    | inr (doc, e) ↦ elim (Option-cases (find_key doc kid)) [
      | inl e' ↦
          refreshed_key-Published kid (source.get false j).1 key
            (unfold refreshed_key in ground arith)
      | inr (jwk, e') ↦ record {
        name = kid;
        named = refl;
        forced = false;
        state = j;
        document = doc;
        served = e;
        jwk = jwk;
        found = e';
        read = ground arith;
      }
    ]
  ]

  module _ (c : Config) where
    -- The token names an allowed algorithm, a published key verifies it for this issuer and
    -- audience, its subject is not blank, and the principal and the expiry are what it states.
    pub record Genuine (token : String) (entry : Principal × ℕ) : Type 0 where
      pub header : Header
      pub headed : lib.get_unverified_header token ≡ some header
      pub asymmetric : header.alg ≡ some "RS256"
      pub key : Key
      pub published : Published header.kid key
      pub at : ℕ
      pub decoded : Decoded
      pub verified : lib.decode token key c.audience c.issuer at ≡ some decoded
      pub subject_present : (decoded.sub == "") ≡ false
      pub principal : entry.0 ≡ principal_of lib.list_text c decoded
      pub expiry : entry.1 ≡ decoded.exp

    pub remember-Each :
        (n : ℕ) (token : String) (entry : Principal × ℕ) (cache : Dict String (Principal × ℕ))
        → Genuine token entry
        → Each Genuine cache
        → Each Genuine (remember n token entry cache)
    unfolding remember
    remember-Each zero token entry cache g h = h
    remember-Each (suc n) token entry cache g h =
        Each-put Genuine (if leb (suc n) (length cache) then drop 1 cache else cache) token entry g
          (Each-if (leb (suc n) (length cache)))
      where
        Each-if : (b : Bool) → Each Genuine (if b then drop 1 cache else cache)
        Each-if true = Each-drop Genuine 1 cache h
        Each-if false = h
