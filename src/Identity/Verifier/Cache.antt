-- ===== src/Identity/Verifier/Cache.antt =====
-- The token cache of `TokenVerifier`: its bound, and what it saves.
use hallpass.Prelude.{
  String, ℕ, zero, suc, ◌≤◌, ◌<◌, false, ◌==◌, string_eq, List, [], ◌∷◌, ◌≡◌, Option, some, arith,
  length, drop,
}
use hallpass.Prelude.Dict
use hallpass.Prelude.Dict.{Dict, length-put-le, get-put_self}
use hallpass.Identity.{Principal}
use hallpass.Identity.Revocation.{RevocationOps}
use hallpass.Identity.Verifier.{
  Decoded, JwtLibrary, JwksOps, Config, Verifier, remember, cached, deny_if_revoked, admit, check,
  verify,
}

length-drop_one {ℓ} :
    {A : Type ℓ} (n : ℕ) (xs : List A) → length xs ≤ suc n → length (drop 1 xs) ≤ n
length-drop_one n [] h = omega arith
length-drop_one n (x ∷ xs) h = omega arith

length-remember-le :
    (n : ℕ) (token : String) (entry : Principal × ℕ) (cache : Dict String (Principal × ℕ))
    → length cache ≤ n
    → length (remember n token entry cache) ≤ n
unfolding remember
length-remember-le zero token entry cache h = h
length-remember-le (suc n) token entry cache h = ground (
  arith,
  length-drop_one n cache,
  length-put-le (drop 1 cache) token entry,
  length-put-le cache token entry,
)

cached_hit :
    (n : ℕ) (token : String) (now exp : ℕ) (p : Principal) (cache : Dict String (Principal × ℕ))
    → 0 < n
    → Dict.get cache token ≡ some (p, exp)
    → now < exp
    → cached n token now cache ≡ some p
unfolding cached
cached_hit (suc n) token now exp p cache pos held live = ground arith
cached_hit zero token now exp p cache pos held live = elim pos [ ]

module _ {M Key J R : Type 0} (lib : JwtLibrary M Key) (source : JwksOps M J) where
  module _ (ops : Option (RevocationOps R)) (c : Config) where
    abbrev pub Bounded : Verifier J R → Type 0
    Bounded v = length v.cache ≤ c.cache_size

    deny-Bounded :
        (p : Principal) (v : Verifier J R) → Bounded v → Bounded (deny_if_revoked ops p v).1
    unfolding deny_if_revoked
    deny-Bounded p v h = ground arith

    admit-Bounded :
        (token : String) (d : Decoded) (v : Verifier J R)
        → Bounded v
        → Bounded (admit lib source ops c token d v).1
    unfolding admit
    admit-Bounded token d v h = grind (arith, length-remember-le)

    check-Bounded :
        (token : String) (now : ℕ) (v : Verifier J R)
        → Bounded v
        → Bounded (check lib source ops c token now v).1
    unfolding check
    check-Bounded token now v h = grind (arith, admit-Bounded)

    -- A cache that holds no more entries than its size goes on doing so.
    pub verify-Bounded :
        (token : String) (now later : ℕ) (v : Verifier J R)
        → Bounded v
        → Bounded (verify lib source ops c token now later v).1
    unfolding verify
    verify-Bounded token now later v h = grind (arith, check-Bounded, deny-Bounded)

    -- The cached answer does not depend on the JWKS source: while an entry is held and unexpired,
    -- `verify` reads no key and answers with the entry's principal, unless it is revoked.
    pub verify_hit :
        (token : String) (now later exp : ℕ) (p : Principal) (v : Verifier J R)
        → (token == "") ≡ false
        → 0 < c.cache_size
        → Dict.get v.cache token ≡ some (p, exp)
        → now < exp
        → verify lib source ops c token now later v ≡ deny_if_revoked ops p v
    unfolding verify
    verify_hit token now later exp p v named size held live =
        rw (named, cached_hit c.cache_size token now exp p v.cache size held live)
