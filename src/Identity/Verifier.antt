-- ===== src/Identity/Verifier.antt =====
-- `TokenVerifier` of src/hallpass/identity.py. The JWT library, the JWKS source and the revocation
-- list are parameters; a method returns its result beside the new state, and a `Failure` stands
-- for an exception.
pub mod Genuine
pub mod Sound
pub mod Cache
use hallpass.Prelude.{
  String, ℕ, zero, suc, Bool, true, false, not, if◌then◌else◌, List, [], ◌∷◌, ltb, leb, ◌==◌,
  string_eq, Option, none, some, elem, length, drop, ◌≡◌, refl, ap, ◌⊎◌, inl, inr, ==→≡,
}
use hallpass.Prelude.Dict
use hallpass.Prelude.Dict.{Dict}
use hallpass.Identity.{Principal, Value, str, list, other, Values}
use hallpass.Identity.Scopes.{extract_scopes}
use hallpass.Identity.Revocation.{RevocationOps}
use hallpass.Identity.Jwks.{Jwk, Document, find_key}

-- The reasons of a `VerificationError`.
pub data Reason : Type 0 where
  no_token malformed_header disallowed_algorithm no_kid unknown_kid : Reason
  token_rejected empty_subject revoked_subject : Reason

-- `rejected` is a `VerificationError`; `crashed` is any other exception that `verify` lets through:
-- a first JWKS fetch that fails, or key material that the library cannot read.
pub data Failure : Type 0 where
  rejected : Reason → Failure
  crashed : Failure

pub data Result (A : Type 0) : Type 0 where
  ok : A → Result A
  raise : Failure → Result A

pub Result-cases :
    {A : Type 0} (r : Result A) → ((f : Failure) × (r ≡ raise f)) ⊎ ((a : A) × (r ≡ ok a))
Result-cases (raise f) = inl (f, refl)
Result-cases (ok a) = inr (a, refl)

pub record Header : Type 0 where
  pub alg : Option String
  pub kid : Option String

-- The claims of a decoded token; `sub` and `exp` are among those that are required.
pub record Decoded : Type 0 where
  pub sub : String
  pub exp : ℕ
  pub claims : Dict String Value

-- PyJWT, as the verifier calls it. `none` stands for an exception of the library.
pub record JwtLibrary (M Key : Type 0) : Type 0 where
  pub get_unverified_header : String → Option Header
  pub key_of : Jwk M → Option Key
  -- token, key, audience, issuer, time
  pub decode : String → Key → String → String → ℕ → Option Decoded
  -- `str()` of a list
  pub list_text : Values → String

-- `JwksSource`; `none` stands for an exception of the fetch.
pub record JwksOps (M J : Type 0) : Type 0 where
  pub get : Bool → J → Option (Document M) × J

pub record Config : Type 0 where
  pub issuer : String
  pub audience : String
  pub service_claim : Option String
  pub service_values : List String
  pub cache_size : ℕ

pub record Verifier (J R : Type 0) : Type 0 where
  pub jwks : J
  pub revocations : R
  pub cache : Dict String (Principal × ℕ)

abbrev pub allowed_algorithm : Option String → Bool
allowed_algorithm none = false
allowed_algorithm (some alg) = alg == "RS256"

pub eq_of_allowed_algorithm :
    (alg : Option String) → allowed_algorithm alg ≡ true → alg ≡ some "RS256"
eq_of_allowed_algorithm none h = cc
eq_of_allowed_algorithm (some a) h = ap some (==→≡ a "RS256" h)

-- `self._cache.pop(next(iter(self._cache)))` when the cache is full, then the new entry.
-- Times are whole numbers: of an `exp` with a fraction the code keeps the fraction, where the JWT
-- library drops it.
unfoldable pub remember :
    ℕ → String → Principal × ℕ → Dict String (Principal × ℕ) → Dict String (Principal × ℕ)
remember zero token entry cache = cache
remember (suc n) token entry cache =
    Dict.put (if leb (suc n) (length cache) then drop 1 cache else cache) token entry

-- The entry of an unexpired token, if there is one.
unfoldable pub cached : ℕ → String → ℕ → Dict String (Principal × ℕ) → Option Principal
cached zero token now cache = none
cached (suc n) token now cache = elim (Dict.get cache token) [
  | none ↦ none
  | some entry ↦ if ltb now entry.1 then some entry.0 else none
]

-- `str(claims.get(name))`
abbrev pub claim_text : (Values → String) → Option Value → String
claim_text list_text none = "None"
claim_text list_text (some (str s)) = s
claim_text list_text (some (list vs)) = list_text vs
claim_text list_text (some (other t)) = t

unfoldable pub kind_of : (Values → String) → Config → Decoded → String
kind_of list_text c d = elim c.service_claim [
  | none ↦ "user"
  | some name ↦
      if elem (claim_text list_text (Dict.get d.claims name)) c.service_values
      then "service"
      else "user"
]

unfoldable pub principal_of : (Values → String) → Config → Decoded → Principal
principal_of list_text c d = record {
  subject = d.sub;
  scopes = extract_scopes d.claims;
  claims = d.claims;
  kind = kind_of list_text c d;
}

module _ {J R : Type 0} (ops : Option (RevocationOps R)) where
  -- `_deny_if_revoked`, with the principal as the result of a pass.
  unfoldable pub deny_if_revoked : Principal → Verifier J R → Result Principal × Verifier J R
  deny_if_revoked p v = elim ops [
    | none ↦ (ok p, v)
    | some r ↦
        let (hit, revocations) = r.is_revoked p.subject v.revocations in
        (
          if hit then raise (rejected revoked_subject) else ok p,
          record v { revocations = revocations },
        )
  ]

module _ {M Key J : Type 0} (lib : JwtLibrary M Key) (source : JwksOps M J) where
  read_key : Jwk M → Result Key
  read_key jwk = elim (lib.key_of jwk) [ none ↦ raise crashed | some key ↦ ok key ]

  -- The second look-up of `_key_for`, in a forced refresh.
  refreshed_key : String → J → Result Key × J
  unfolding read_key
  refreshed_key kid j =
      let (answer, j') = source.get true j in
      elim answer [
        | none ↦ (raise crashed, j')
        | some doc ↦ elim (find_key doc kid) [
          | none ↦ (raise (rejected unknown_kid), j')
          | some jwk ↦ (read_key jwk, j')
        ]
      ]

  -- `_key_for`
  unfoldable pub key_for : Option String → J → Result Key × J
  unfolding read_key refreshed_key
  key_for none j = (raise (rejected no_kid), j)
  key_for (some kid) j =
      let (answer, j') = source.get false j in
      elim answer [
        | none ↦ (raise crashed, j')
        | some doc ↦ elim (find_key doc kid) [
          | none ↦ refreshed_key kid j'
          | some jwk ↦ (read_key jwk, j')
        ]
      ]

  module _ {R : Type 0} (ops : Option (RevocationOps R)) (c : Config) where
    -- The end of `verify`: the decoded claims become a principal, which is remembered.
    unfoldable pub admit : String → Decoded → Verifier J R → Result Principal × Verifier J R
    unfolding deny_if_revoked
    admit token d v =
        let (answer, v') = deny_if_revoked ops (principal_of lib.list_text c d) v in
        if d.sub == "" then (raise (rejected empty_subject), v) else elim answer [
          | raise f ↦ (raise f, v')
          | ok p ↦ (ok p, record v' { cache = remember c.cache_size token (p, d.exp) v'.cache })
        ]

    -- `verify` on a token that is not in the cache; `now` is the time at which it is decoded.
    unfoldable pub check : String → ℕ → Verifier J R → Result Principal × Verifier J R
    unfolding key_for admit
    check token now v = elim (lib.get_unverified_header token) [
      | none ↦ (raise (rejected malformed_header), v)
      | some h ↦
          let (answer, jwks) = key_for h.kid v.jwks in
          let v' : Verifier J R = record v { jwks = jwks } in
          if not (allowed_algorithm h.alg)
          then (raise (rejected disallowed_algorithm), v)
          else elim answer [
            | raise f ↦ (raise f, v')
            | ok key ↦ elim (lib.decode token key c.audience c.issuer now) [
              | none ↦ (raise (rejected token_rejected), v')
              | some d ↦ admit token d v'
            ]
          ]
    ]

    -- `verify`; the clock is read at `now` for the cache and at `later` by the decoder.
    unfoldable pub verify : String → ℕ → ℕ → Verifier J R → Result Principal × Verifier J R
    unfolding deny_if_revoked check
    verify token now later v =
        if token == ""
        then (raise (rejected no_token), v)
        else elim (cached c.cache_size token now v.cache) [
          | some p ↦ deny_if_revoked ops p v
          | none ↦ check token later v
        ]
