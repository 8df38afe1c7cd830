-- ===== src/Identity/Verifier/Sound.antt =====
-- `verify` of src/hallpass/identity.py answers only with what a genuine token proves.
use mathlib.Core.Path.{subst}
use hallpass.Prelude.{
  String, ℕ, zero, suc, ◌<◌, Bool, false, ◌==◌, string_eq, ◌≡◌, refl, sym, ◌∙◌, ◌⊎◌, inl, inr,
  Option, none, some, arith, Bool-cases, Option-cases,
}
use hallpass.Prelude.Dict
use hallpass.Prelude.Dict.{Dict, Each, Each-put, Each-get, Each-drop}
use hallpass.Identity.{Principal}
use hallpass.Identity.Revocation.{RevocationOps}
use hallpass.Identity.Verifier.{
  Result, Failure, ok, raise, Header, Decoded, JwtLibrary, JwksOps, Config, Verifier,
  allowed_algorithm, eq_of_allowed_algorithm, Result-cases, remember, cached, principal_of, key_for,
  deny_if_revoked, admit, check, verify,
}
use hallpass.Identity.Verifier.Genuine.{Genuine, key_for-Published, remember-Each}

cached_lem :
    (n : ℕ) (token : String) (now : ℕ) (cache : Dict String (Principal × ℕ)) (p : Principal)
    → cached n token now cache ≡ some p
    → (exp : ℕ) × (Dict.get cache token ≡ some (p, exp)) × (now < exp)
unfolding cached
cached_lem zero token now cache p h = cc
cached_lem (suc n) token now cache p h = elim (Option-cases (Dict.get cache token)) [
  | inl e ↦ absurd (ground arith)
  | inr (entry, e) ↦ (entry.1, ground arith, ground arith)
]

module _ {M Key J : Type 0} (lib : JwtLibrary M Key) (source : JwksOps M J) where
  module _ {R : Type 0} (ops : Option (RevocationOps R)) (c : Config) where
    -- Whether the revocation list, if there is one, names the subject.
    abbrev pub is_cut_off : String → R → Bool
    is_cut_off subject revocations = elim ops [
      | none ↦ false
      | some r ↦ (r.is_revoked subject revocations).0
    ]

    -- What holds of an answer of the verifier from the state `v`, at a time that `Live` accepts.
    pub record Sound (Live : ℕ → Type 0) (token : String) (v : Verifier J R)
        (out : Result Principal × Verifier J R) : Type 0 where
      pub cache_genuine : Each (Genuine lib source c) out.1.cache
      pub proven :
          (p : Principal)
          → out.0 ≡ ok p
          → (exp : ℕ) × Genuine lib source c token (p, exp)
            × Live exp
            × (is_cut_off p.subject v.revocations ≡ false)

    deny_lem :
        (p q : Principal) (v : Verifier J R)
        → (deny_if_revoked ops p v).0 ≡ ok q
        → (p ≡ q) × (is_cut_off q.subject v.revocations ≡ false)
    unfolding deny_if_revoked
    deny_lem p q v h = ground arith

    cache-deny : (p : Principal) (v : Verifier J R) → (deny_if_revoked ops p v).1.cache ≡ v.cache
    unfolding deny_if_revoked
    cache-deny p v = ground arith

    -- `admit` answers with the principal of the claims, and remembers it.
    admit_lem :
        (token : String) (d : Decoded) (v : Verifier J R) (p : Principal)
        → (admit lib source ops c token d v).0 ≡ ok p
        → ((d.sub == "") ≡ false)
          × (p ≡ principal_of lib.list_text c d)
          × (is_cut_off p.subject v.revocations ≡ false)
    unfolding admit
    admit_lem token d v p h = ground arith

    cache-admit :
        (token : String) (d : Decoded) (v : Verifier J R)
        → ((admit lib source ops c token d v).1.cache ≡ v.cache)
          ⊎ (((d.sub == "") ≡ false)
              × ((admit lib source ops c token d v).1.cache
                  ≡ remember c.cache_size token (principal_of lib.list_text c d, d.exp) v.cache))
    unfolding admit
    cache-admit token d v = ground arith

    module _
        (fresh : (token : String) (key : Key) (aud iss : String) (t : ℕ) (d : Decoded)
          → lib.decode token key aud iss t ≡ some d
          → t < d.exp) where
      -- The last step of `check`, once a key has been found and the token decoded.
      decoded-Sound :
          (token : String) (now : ℕ) (v v' : Verifier J R) (h : Header) (key : Key) (d : Decoded)
          → lib.get_unverified_header token ≡ some h
          → h.alg ≡ some "RS256"
          → (key_for lib source h.kid v.jwks).0 ≡ ok key
          → lib.decode token key c.audience c.issuer now ≡ some d
          → v'.cache ≡ v.cache
          → v'.revocations ≡ v.revocations
          → Each (Genuine lib source c) v.cache
          → Sound (λ exp. now < exp) token v (admit lib source ops c token d v')
      decoded-Sound token now v v' h key d he ae ke de ce re each =
          let entry : Principal × ℕ = (principal_of lib.list_text c d, d.exp) in
          let genuine : ((d.sub == "") ≡ false → Genuine lib source c token entry) = λ s. record {
            header = h;
            headed = he;
            asymmetric = ae;
            key = key;
            published = key_for-Published lib source h.kid v.jwks key ke;
            at = now;
            decoded = d;
            verified = de;
            subject_present = s;
            principal = refl;
            expiry = refl;
          } in
          record {
            cache_genuine = elim (cache-admit token d v') [
              | inl e ↦ subst (Each (Genuine lib source c)) (sym (e ∙ ce)) each
              | inr (s, e) ↦ subst (Each (Genuine lib source c)) (sym e) (
                  remember-Each lib source c c.cache_size token entry v'.cache (genuine s)
                    (subst (Each (Genuine lib source c)) (sym ce) each))
            ];
            proven = λ p e.
                let (s, pe, live) = admit_lem token d v' p e in
                (
                  d.exp,
                  subst (λ q. Genuine lib source c token (q, d.exp)) (sym pe) (genuine s),
                  fresh token key c.audience c.issuer now d de,
                  subst (λ r. is_cut_off p.subject r ≡ false) re live,
                );
          }

      refused-Sound :
          (Live : ℕ → Type 0) (token : String) (v : Verifier J R)
          (out : Result Principal × Verifier J R) (f : Failure)
          → out.0 ≡ raise f
          → out.1.cache ≡ v.cache
          → Each (Genuine lib source c) v.cache
          → Sound Live token v out
      refused-Sound Live token v out f e ce each = record {
        cache_genuine = subst (Each (Genuine lib source c)) (sym ce) each;
        proven = λ p h. absurd (cc);
      }

      check-Sound :
          (token : String) (now : ℕ) (v : Verifier J R)
          → Each (Genuine lib source c) v.cache
          → Sound (λ exp. now < exp) token v (check lib source ops c token now v)
      unfolding check
      check-Sound token now v each = elim (Option-cases (lib.get_unverified_header token)) [
        | inl e ↦ rw (e, check) (refused-Sound _ token v _ _ refl refl each)
        | inr (h, e) ↦ elim (Bool-cases (allowed_algorithm h.alg)) [
          | inr bad ↦ rw (e, bad, check) (refused-Sound _ token v _ _ refl refl each)
          | inl good ↦ elim (Result-cases (key_for lib source h.kid v.jwks).0) [
            | inl (f, ke) ↦ rw (e, good, ke, check) (refused-Sound _ token v _ _ refl refl each)
            | inr (key, ke) ↦ elim (Option-cases (lib.decode token key c.audience c.issuer now)) [
              | inl de ↦ rw (e, good, ke, de, check) (refused-Sound _ token v _ _ refl refl each)
              | inr (d, de) ↦
                  rw (e, good, ke, de, check)
                    (decoded-Sound token now v _ h key d e (eq_of_allowed_algorithm h.alg good) ke
                      de refl refl each)
            ]
          ]
        ]
      ]

      cached-Sound :
          (token : String) (now : ℕ) (p : Principal) (v : Verifier J R)
          → cached c.cache_size token now v.cache ≡ some p
          → Each (Genuine lib source c) v.cache
          → Sound (λ exp. now < exp) token v (deny_if_revoked ops p v)
      cached-Sound token now p v hit each =
          let (exp, held, live) = cached_lem c.cache_size token now v.cache p hit in
          record {
            cache_genuine = subst (Each (Genuine lib source c)) (sym (cache-deny p v)) each;
            proven = λ q e.
                let (same, clear) = deny_lem p q v e in
                (
                  exp,
                  subst (λ r. Genuine lib source c token (r, exp)) same
                      (Each-get (Genuine lib source c) v.cache token (p, exp) each held),
                  live,
                  clear,
                );
          }

      -- Both parts of what follows.
      verify-Sound :
          (token : String) (now later : ℕ) (v : Verifier J R)
          → Each (Genuine lib source c) v.cache
          → Sound
              (λ exp. (now < exp) ⊎ (later < exp))
              token
              v
              (verify lib source ops c token now later v)
      unfolding verify
      verify-Sound token now later v each = elim (Bool-cases (token == "")) [
        | inl blank ↦ rw (blank, verify) (refused-Sound _ token v _ _ refl refl each)
        | inr named ↦ elim (Option-cases (cached c.cache_size token now v.cache)) [
          | inl miss ↦
              let s = check-Sound token later v each in
              rw (named, miss, verify)
                (record {
                  cache_genuine = s.cache_genuine;
                  proven = λ p e. let (exp, g, l, r) = s.proven p e in (exp, g, inr l, r);
                })
          | inr (p, hit) ↦
              let s = cached-Sound token now p v hit each in
              rw (named, hit, verify)
                (record {
                  cache_genuine = s.cache_genuine;
                  proven = λ q e. let (exp, g, l, r) = s.proven q e in (exp, g, inl l, r);
                })
        ]
      ]

      -- A principal that `verify` answers with, from a genuine cache and whatever the state of the
      -- JWKS source, is that of a token of an allowed algorithm, verified by a published key for
      -- this issuer and audience, whose subject is neither blank nor on the revocation list at this
      -- very call, and unexpired at one of the two readings of the clock, if the decoder lets no
      -- expired token through.
      pub verify-Genuine :
          (token : String) (now later : ℕ) (v : Verifier J R) (p : Principal)
          → Each (Genuine lib source c) v.cache
          → (verify lib source ops c token now later v).0 ≡ ok p
          → (exp : ℕ) × Genuine lib source c token (p, exp)
            × ((now < exp) ⊎ (later < exp))
            × (is_cut_off p.subject v.revocations ≡ false)
      verify-Genuine token now later v p each e = (verify-Sound token now later v each).proven p e

      -- Whatever it answers, `verify` leaves a genuine cache genuine, if the decoder lets no
      -- expired token through.
      pub cache-verify :
          (token : String) (now later : ℕ) (v : Verifier J R)
          → Each (Genuine lib source c) v.cache
          → Each (Genuine lib source c) (verify lib source ops c token now later v).1.cache
      cache-verify token now later v each = (verify-Sound token now later v each).cache_genuine
