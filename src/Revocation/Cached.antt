-- ===== src/Revocation/Cached.antt =====
-- `CachedRevocationList` of src/hallpass/revocation.py, over the state of its source.
use hallpass.Prelude.{
  String, ℕ, ◌+◌, ◌≡◌, ◌==◌, ◌&&◌, not, Bool, true, false, if◌then◌else◌, List, [], ◌∷◌, string_eq,
  elem, elem-filter, filter, arith, ltb, eq_iff,
}
use hallpass.Prelude.Order.{sort, str_leb}
use hallpass.Revocation.{SourceOps, SourceLaws}

pub record View : Type 0 where
  pub ttl : ℕ
  pub cache : List String
  pub loaded_at : ℕ
  pub primed : Bool

-- `CachedRevocationList.__init__`
unfoldable pub new_view : ℕ → View
new_view ttl = record { ttl = ttl; cache = []; loaded_at = 0; primed = false }

module _ {S : Type 0} (ops : SourceOps S) where
  -- `_refresh_if_stale`; the clock is read at `now`, and at `later` after the source was read.
  unfoldable pub refresh_if_stale : ℕ → ℕ → S → View → View
  refresh_if_stale now later src c =
      if c.primed && ltb now (c.loaded_at + c.ttl)
      then c
      else record c { cache = ops.revoked src; loaded_at = later; primed = true }

  -- `is_revoked`
  unfoldable pub is_revoked : String → ℕ → ℕ → S → View → Bool × View
  unfolding refresh_if_stale
  is_revoked subject now later src c =
      let c' = refresh_if_stale now later src c in (elem subject c'.cache, c')

  -- `revoke`
  unfoldable pub revoke : String → String → ℕ → S → View → S × View
  revoke subject reason at src c =
      (ops.revoke subject reason at src, record c { cache = subject ∷ c.cache })

  -- `restore`
  unfoldable pub restore : String → S → View → S × View
  restore subject src c =
      (ops.restore subject src, record c { cache = filter (λ s. not (s == subject)) c.cache })

  -- `revoked`
  unfoldable pub revoked : ℕ → ℕ → S → View → List String × View
  unfolding refresh_if_stale
  revoked now later src c = let c' = refresh_if_stale now later src c in (sort str_leb c'.cache, c')

  -- The view answers as the source does.
  pub record Agrees (src : S) (c : View) : Type 0 where
    pub same : (t : String) → elem t c.cache ≡ ops.is_revoked t src

  module _ (laws : SourceLaws ops) where
    -- A look-up through a view that agrees with its source answers what the source says, and the
    -- view still agrees.
    pub is_revoked-Agrees :
        (subject : String) (now later : ℕ) (src : S) (c : View)
        → Agrees src c
        → ((is_revoked subject now later src c).0 ≡ ops.is_revoked subject src)
          × Agrees src (is_revoked subject now later src c).1
    unfolding is_revoked
    is_revoked-Agrees subject now later src c a = (
      ground (arith, laws.listed subject src, a.same subject),
      record { same = λ t. ground (arith, laws.listed t src, a.same t) },
    )

    -- Over a source that keeps its promises, the replica that writes sees its own writes at once:
    -- after a revocation or a restoration through the view, the view agrees with the source again.
    pub revoke-restore-Agrees :
        (subject reason : String) (at : ℕ) (src : S) (c : View)
        → Agrees src c
        → Agrees (revoke subject reason at src c).0 (revoke subject reason at src c).1
          × Agrees (restore subject src c).0 (restore subject src c).1
    unfolding revoke restore elem
    revoke-restore-Agrees subject reason at src c a = (
      record { same = λ t. ground (arith, laws.revokes subject t reason at src, a.same t) },
      record {
        same = λ t. ground (
          arith,
          laws.restores subject t src,
          a.same t,
          elem-filter (λ s. not (s == subject)) t c.cache,
          eq_iff t subject,
          eq_iff subject t,
        );
      },
    )

  -- What is done through one view between two writes of other replicas.
  pub data Use : Type 0 where
    look_up : String → ℕ → ℕ → Use
    revoke_here : String → String → ℕ → Use
    restore_here : String → Use

  abbrev apply : Use → S × View → S × View
  apply (look_up subject now later) (src, c) = (src, (is_revoked subject now later src c).1)
  apply (revoke_here subject reason at) (src, c) = revoke subject reason at src c
  apply (restore_here subject) (src, c) = restore subject src c

  abbrev pub after : List Use → S × View → S × View
  after [] state = state
  after (u ∷ uses) state = after uses (apply u state)
