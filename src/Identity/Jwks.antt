-- ===== src/Identity/Jwks.antt =====
-- `HttpJwks` of src/hallpass/identity.py: the key document with its time to live, its stale
-- answers and its throttle. Times are numbers; `now - t < d` is written `now < t + d`.
use hallpass.Prelude.{
  String, ℕ, ◌+◌, ◌<◌, ◌≡◌, Bool, true, false, not, ◌&&◌, if◌then◌else◌, List, [], ◌∷◌, ltb, ◌==◌,
  string_eq, Option, none, some, arith, is_some,
}

-- One key of a document: its `kid` and the rest, which only the JWT library reads.
pub record Jwk (M : Type 0) : Type 0 where
  pub kid : Option String
  pub material : M

abbrev pub Document : Type 0 → Type 0
Document M = List (Jwk M)

abbrev pub kid_is : String → Option String → Bool
kid_is wanted none = false
kid_is wanted (some k) = k == wanted

-- `_find_key`; the `kid` of a key that has none is `None`, which equals no text.
unfoldable pub find_key : {M : Type 0} → Document M → String → Option (Jwk M)
find_key [] kid = none
find_key (jwk ∷ doc) kid =
    let rest = find_key doc kid in if kid_is kid jwk.kid then some jwk else rest

pub record HttpJwks (M : Type 0) : Type 0 where
  pub ttl : ℕ
  pub error_retry : ℕ
  pub cached : Option (Document M)
  pub fetched_at : ℕ
  pub last_attempt : ℕ
  pub last_ok : Bool

module _ {M : Type 0} where
  -- `HttpJwks.__init__`
  unfoldable pub init : ℕ → ℕ → HttpJwks M
  init ttl error_retry = record {
    ttl = ttl;
    error_retry = error_retry;
    cached = none;
    fetched_at = 0;
    last_attempt = 0;
    last_ok = true;
  }

  -- The two early returns of `get`: the document that is served with no fetch.
  unfoldable pub served : Bool → ℕ → HttpJwks M → Option (Document M)
  served force now j = elim j.cached [
    | none ↦ none
    | some doc ↦
        if ltb now (j.fetched_at + j.ttl) && not force
        then some doc
        else if not j.last_ok && ltb now (j.last_attempt + j.error_retry)
        then some doc
        else none
  ]

  -- The rest of `get`: the fetch at `now`, whose outcome is `response` (`none` if it raises), and
  -- which ends at `later`. A result `none` re-raises.
  unfoldable pub fetch : ℕ → Option (Document M) → ℕ → HttpJwks M → Option (Document M) × HttpJwks M
  fetch now none later j = (j.cached, record j { last_attempt = now; last_ok = false })
  fetch now (some doc) later j = (
    some doc,
    record j { cached = some doc; fetched_at = later; last_attempt = now; last_ok = true },
  )

  -- `HttpJwks.get`
  unfoldable pub get :
      Bool → ℕ → Option (Document M) → ℕ → HttpJwks M → Option (Document M) × HttpJwks M
  unfolding served fetch
  get force now response later j = elim (served force now j) [
    | some doc ↦ (some doc, j)
    | none ↦ fetch now response later j
  ]

  -- Once a document is cached no call raises, whatever the identity provider does, and the
  -- cache never empties again.
  pub get_warm :
      (force : Bool) (now later : ℕ) (response : Option (Document M)) (j : HttpJwks M)
      → is_some j.cached ≡ true
      → (is_some (get force now response later j).0 ≡ true)
        × (is_some (get force now response later j).1.cached ≡ true)
  unfolding get
  get_warm force now later none j h = ground arith
  get_warm force now later (some d) j h = ground arith

  -- What is served is always the last document that was fetched.
  pub get_served_is_cached :
      (force : Bool) (now later : ℕ) (response : Option (Document M)) (j : HttpJwks M)
      → (get force now response later j).0 ≡ (get force now response later j).1.cached
  unfolding get
  get_served_is_cached force now later none j = ground arith
  get_served_is_cached force now later (some d) j = ground arith

  -- After a failed fetch at `now` the stale document is served, with no further fetch, until
  -- `error_retry` has passed, even to a caller that forces a refresh.
  pub get_throttled :
      (force force' : Bool) (now later now' later' : ℕ) (response : Option (Document M))
      (doc : Document M) (j : HttpJwks M)
      → j.cached ≡ some doc
      → served force now j ≡ none
      → now' < now + j.error_retry
      → let j' = (get force now none later j).1 in
        get force' now' response later' j' ≡ (some doc, j')
  unfolding get
  get_throttled force force' now later now' later' response doc j h s t = ground arith

  -- After a fetch that ended at `later` its document is served without a fetch while it is fresh.
  pub get_fresh :
      (force : Bool) (now later now' later' : ℕ) (response : Option (Document M)) (doc : Document M)
      (j : HttpJwks M)
      → served force now j ≡ none
      → now' < later + j.ttl
      → let j' = (get force now (some doc) later j).1 in
        get false now' response later' j' ≡ (some doc, j')
  unfolding get
  get_fresh force now later now' later' response doc j s t = ground arith
