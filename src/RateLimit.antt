-- ===== src/RateLimit.antt =====
-- src/hallpass/ratelimit.py: the per-subject sliding window. Times are numbers, and
-- `hits[0] <= now - window` is written `hits[0] + window <= now`.
pub mod Window
pub mod Subjects
use hallpass.Prelude.{
  String, ℕ, ◌+◌, Bool, true, false, if◌then◌else◌, List, [], ◌∷◌, ◌++◌, leb, ltb, length, Option,
  none, some, string_eq,
}
use hallpass.Prelude.Dict
use hallpass.Prelude.Dict.{Dict}

pub record Limiter : Type 0 where
  pub max_calls : ℕ
  pub window : ℕ
  pub hits : Dict String (List ℕ)

-- What the constructor raises (`ValueError`), or the limiter.
pub data Built : Type 0 where
  built : Limiter → Built
  bad_max_calls bad_window : Built

-- `FixedWindowRateLimiter.__init__`
unfoldable pub init : ℕ → ℕ → Built
init max_calls window =
    if ltb max_calls 1
    then bad_max_calls
    else if leb window 0
    then bad_window
    else built (record { max_calls = max_calls; window = window; hits = [] })

-- `while hits and hits[0] <= cutoff: hits.popleft()`
unfoldable pub expire : ℕ → ℕ → List ℕ → List ℕ
expire window now [] = []
expire window now (hit ∷ hits) =
    let rest = expire window now hits in if leb (hit + window) now then rest else hit ∷ hits

-- `self._hits.setdefault(subject, deque())`
unfoldable pub hits_of : String → Limiter → List ℕ
hits_of subject l = elim (Dict.get l.hits subject) [ none ↦ [] | some hits ↦ hits ]

-- The decision of `check` on one deque: `true` if the call passes and is counted. The expired times
-- are gone either way.
unfoldable pub check_hits : ℕ → ℕ → ℕ → List ℕ → Bool × List ℕ
unfolding expire
check_hits max_calls window now hits =
    let kept = expire window now hits in
    if leb max_calls (length kept) then (false, kept) else (true, kept ++ now ∷ [])

-- `check`: `false` stands for the exception `RateLimited`.
unfoldable pub check : String → ℕ → Limiter → Bool × Limiter
unfolding hits_of check_hits
check subject now l =
    let (passes, hits) = check_hits l.max_calls l.window now (hits_of subject l) in
    (passes, record l { hits = Dict.put l.hits subject hits })
