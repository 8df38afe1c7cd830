-- ===== src/RateLimit/Subjects.antt =====
-- The limiter of src/hallpass/ratelimit.py as a whole: one subject's calls do not count for
-- another.
use mathlib.Core.Path.{subst}
use hallpass.Prelude.{
  String, ℕ, ◌≤◌, ◌<◌, ◌≡◌, refl, sym, ◌∙◌, ◌⊎◌, inl, inr, ==→≡, Bool-cases, ◌==◌, true, false,
  if◌then◌else◌, List, [], string_eq, arith,
}
use hallpass.Prelude.Dict
use hallpass.Prelude.Dict.{get-put}
use hallpass.RateLimit.{Limiter, built, init, hits_of, check_hits, check}
use hallpass.RateLimit.Window.{
  Tracks, Tracks-empty, Tracks-later, after_call, allowed, check_hits-allowed, check_hits-Tracks,
}

-- `check` of one subject is decided by that subject's times alone, which are all that it changes.
pub check_lem :
    (s : String) (now : ℕ) (l : Limiter)
    → ((check s now l).0 ≡ (check_hits l.max_calls l.window now (hits_of s l)).0)
      × ((check s now l).1.max_calls ≡ l.max_calls)
      × ((check s now l).1.window ≡ l.window)
      × ((t : String)
          → hits_of t (check s now l).1 ≡ (
              if s == t
              then (check_hits l.max_calls l.window now (hits_of s l)).1
              else hits_of t l))
unfolding check hits_of
check_lem s now l = (
  refl,
  refl,
  refl,
  λ t. ground (arith, get-put l.hits s t (check_hits l.max_calls l.window now (hits_of s l)).1),
)

-- The limiter stands for the histories of all subjects, of which none has a call after `last`.
pub record IsFaithful (history : String → List ℕ) (last : ℕ) (l : Limiter) : Type 0 where
  pub tracks : (s : String) → Tracks l.window (history s) (hits_of s l) last

-- A new limiter has a budget and a window, and stands for the empty histories.
pub init-IsFaithful :
    (max_calls window : ℕ) (l : Limiter)
    → init max_calls window ≡ built l
    → (0 < l.max_calls)
      × (0 < l.window)
      × (l.max_calls ≡ max_calls)
      × (l.window ≡ window)
      × IsFaithful (λ s. []) 0 l
unfolding init
init-IsFaithful max_calls window l h =
    let e : l ≡ record { max_calls = max_calls; window = window; hits = [] } = ground arith in
    (
      ground arith,
      ground arith,
      ground arith,
      ground arith,
      rw e (record { tracks = λ s. unfold hits_of Dict.get in Tracks-empty window }),
    )

module _ (history : String → List ℕ) (last now : ℕ) (s : String) (l : Limiter) where
  -- The histories after a call of `s` at `now`.
  abbrev pub extended : String → List ℕ
  extended t = if s == t then after_call l.max_calls l.window (history t) now else history t

  -- On a limiter that stands for the histories up to a time not after `now`, `check` lets a
  -- subject's call through exactly if fewer than `max_calls` of that subject's own calls passed in
  -- the window that ends now, and goes on standing for the histories.
  pub check-IsFaithful :
      IsFaithful history last l
      → last ≤ now
      → ((check s now l).0 ≡ allowed l.max_calls l.window now (history s))
        × IsFaithful extended now (check s now l).1
  check-IsFaithful f h =
      let (decision, same_max, same_window, frame) = check_lem s now l in
      (
        decision
            ∙ check_hits-allowed l.max_calls l.window (history s) (hits_of s l) last now
                (f.tracks s) h,
        record {
          tracks = λ t. rw (same_window, frame t) (step t (f.tracks t) (Bool-cases (s == t)));
        },
      )
    where
      step :
          (t : String)
          → Tracks l.window (history t) (hits_of t l) last
          → ((s == t) ≡ true) ⊎ ((s == t) ≡ false)
          → Tracks l.window
              (extended t)
              (if s == t
                then (check_hits l.max_calls l.window now (hits_of s l)).1
                else hits_of t l)
              now
      step t k (inl same) =
          let e : s ≡ t = ==→≡ s t same in
          rw same (
            subst
              (λ u.
                Tracks l.window (after_call l.max_calls l.window (history t) now)
                  (check_hits l.max_calls l.window now (hits_of u l)).1 now)
              (sym e)
              (check_hits-Tracks l.max_calls l.window (history t) (hits_of t l) last now k h))
      step t k (inr other) = rw other (Tracks-later l.window (history t) (hits_of t l) last now k h)
