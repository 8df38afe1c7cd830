-- ===== src/RateLimit/Window.antt =====
-- One subject's window: the deque of src/hallpass/ratelimit.py against the whole history of the
-- calls that passed.
use mathlib.Core.Path.{ap₂}
use hallpass.Prelude.{
  ℕ, ◌+◌, ◌≤◌, ◌<◌, ◌≡◌, refl, ◌∙◌, sym, ap, Bool, true, false, if◌then◌else◌, List, [], ◌∷◌, ◌++◌,
  leb, ltb, length, filter, arith, Bool-cases, inl, inr,
}
use hallpass.RateLimit.{expire, check_hits}

-- `hit` still counts at `now`.
abbrev pub recent : ℕ → ℕ → ℕ → Bool
recent window now hit = ltb now (hit + window)

-- The calls of a history that still count.
abbrev pub live : ℕ → ℕ → List ℕ → List ℕ
live window now = filter (recent window now)

-- Times in order, none after `now`.
abbrev pub Between : ℕ → List ℕ → ℕ → Type 0
Between from [] now = from ≤ now
Between from (x ∷ xs) now = (from ≤ x) × Between x xs now

module _ (window : ℕ) where
  live-all :
      (from now : ℕ) (hits : List ℕ) (last : ℕ)
      → now < from + window
      → Between from hits last
      → live window now hits ≡ hits
  unfolding filter
  live-all from now [] last h b = refl
  live-all from now (x ∷ xs) last h b = ground (arith, live-all x now xs last (omega arith) b.1)

  -- On times in order, what the loop drops is exactly what no longer counts.
  pub expire-live :
      (from now : ℕ) (hits : List ℕ) (last : ℕ)
      → Between from hits last
      → expire window now hits ≡ live window now hits
  unfolding expire filter
  expire-live from now [] last b = refl
  expire-live from now (x ∷ xs) last b = elim (Bool-cases (leb (x + window) now)) [
    | inl old ↦ ground (arith, expire-live x now xs last b.1)
    | inr new ↦ ground (arith, live-all x now xs last (ground arith) b.1)
  ]

  live-live :
      (before now : ℕ) (hits : List ℕ)
      → before ≤ now
      → live window now (live window before hits) ≡ live window now hits
  unfolding filter
  live-live before now [] h = refl
  live-live before now (x ∷ xs) h = ground (arith, live-live before now xs h)

  live-append :
      (now : ℕ) (xs ys : List ℕ)
      → live window now (xs ++ ys) ≡ live window now xs ++ live window now ys
  unfolding filter
  live-append now [] ys = refl
  live-append now (x ∷ xs) ys = ground (arith, live-append now xs ys)

  Between-weaken :
      (from from' : ℕ) (hits : List ℕ) (last : ℕ)
      → from ≤ from'
      → Between from' hits last
      → Between from hits last
  Between-weaken from from' [] last h b = omega arith
  Between-weaken from from' (x ∷ xs) last h b = (omega arith, b.1)

  Between-live :
      (from now : ℕ) (hits : List ℕ) (last : ℕ)
      → Between from hits last
      → Between from (live window now hits) last
  unfolding filter
  Between-live from now [] last b = b
  Between-live from now (x ∷ xs) last b =
      let rest = Between-live x now xs last b.1 in
      elim (Bool-cases (recent window now x)) [
        | inl keep ↦ rw keep (b.0, rest)
        | inr drop ↦ rw drop (Between-weaken from x (live window now xs) last b.0 rest)
      ]

  Between-later :
      (from : ℕ) (hits : List ℕ) (last now : ℕ)
      → last ≤ now
      → Between from hits last
      → Between from hits now
  Between-later from [] last now h b = omega arith
  Between-later from (x ∷ xs) last now h b = (b.0, Between-later x xs last now h b.1)

  Between-snoc :
      (from now : ℕ) (hits : List ℕ) (last : ℕ)
      → Between from hits last
      → last ≤ now
      → Between from (hits ++ now ∷ []) now
  Between-snoc from now [] last b h = (omega arith, omega arith)
  Between-snoc from now (x ∷ xs) last b h = (b.0, Between-snoc x now xs last b.1 h)

  -- The deque stands for the history: at the time of the last call both have the same live calls,
  -- and the deque is in order.
  pub record Tracks (history hits : List ℕ) (last : ℕ) : Type 0 where
    pub same : live window last history ≡ live window last hits
    pub ordered : Between 0 hits last

  module _ (history hits : List ℕ) (last now : ℕ) (t : Tracks history hits last)
      (h : last ≤ now) where
    -- The deque, after the loop, is the live part of the history.
    pub expire-history : expire window now hits ≡ live window now history
    expire-history =
        expire-live 0 now hits last t.ordered
        ∙ sym (live-live last now hits h)
        ∙ ap (live window now) (sym t.same)
        ∙ live-live last now history h

    -- A refused call drops the expired times, and the deque still stands for the history.
    pub refuse-Tracks : Tracks history (expire window now hits) now
    refuse-Tracks = record {
      same = rw expire-history (sym (live-live now now history (omega arith)));
      ordered = rw (expire-live 0 now hits last t.ordered) (
          Between-later 0 (live window now hits) last now h
            (Between-live 0 now hits last t.ordered));
    }

    -- A call that passes is added to both.
    pub accept-Tracks : Tracks (history ++ now ∷ []) (expire window now hits ++ now ∷ []) now
    accept-Tracks = record {
      same =
          rw
            (
              live-append now history (now ∷ []),
              live-append now (expire window now hits) (now ∷ []),
            )
            (ap (λ xs. xs ++ live window now (now ∷ [])) refuse-Tracks.same);
      ordered = Between-snoc 0 now (expire window now hits) now refuse-Tracks.ordered (omega arith);
    }

    pub Tracks-later : Tracks history hits now
    Tracks-later = record {
      same =
          sym (live-live last now history h)
          ∙ ap (live window now) t.same
          ∙ live-live last now hits h;
      ordered = Between-later 0 hits last now h t.ordered;
    }

  pub Tracks-empty : Tracks [] [] 0
  Tracks-empty = record { same = refl; ordered = omega arith }

-- The promise of the limiter, over the history of the calls that passed: a call passes exactly if
-- fewer than `max_calls` of them lie in the window that ends now.
abbrev pub allowed : ℕ → ℕ → ℕ → List ℕ → Bool
allowed max_calls window now history = ltb (length (live window now history)) max_calls

abbrev pub promised : ℕ → ℕ → List ℕ → List ℕ → List Bool
promised max_calls window history [] = []
promised max_calls window history (now ∷ times) =
    let passes = allowed max_calls window now history in
    passes ∷ promised max_calls window (if passes then history ++ now ∷ [] else history) times

-- The decisions of `check` at these times.
abbrev pub decisions : ℕ → ℕ → List ℕ → List ℕ → List Bool
decisions max_calls window hits [] = []
decisions max_calls window hits (now ∷ times) =
    let r = check_hits max_calls window now hits in r.0 ∷ decisions max_calls window r.1 times

-- No time before the one before it.
abbrev pub Monotone : ℕ → List ℕ → Type 0
Monotone last [] = Unit
Monotone last (now ∷ times) = (last ≤ now) × Monotone now times

module _ (max_calls window : ℕ) where
  -- A call's decision is the promised one.
  pub check_hits-allowed :
      (history hits : List ℕ) (last now : ℕ)
      → Tracks window history hits last
      → last ≤ now
      → (check_hits max_calls window now hits).0 ≡ allowed max_calls window now history
  unfolding check_hits
  check_hits-allowed history hits last now t h =
      ground (arith, expire-history window history hits last now t h)

  -- The history after a call at `now`.
  abbrev pub after_call : List ℕ → ℕ → List ℕ
  after_call history now =
      if allowed max_calls window now history then history ++ now ∷ [] else history

  pub check_hits-Tracks :
      (history hits : List ℕ) (last now : ℕ)
      → Tracks window history hits last
      → last ≤ now
      → Tracks window (after_call history now) (check_hits max_calls window now hits).1 now
  unfolding check_hits
  check_hits-Tracks history hits last now t h =
      let kept = expire-history window history hits last now t h in
      elim (Bool-cases (leb max_calls (length (expire window now hits)))) [
        | inl full ↦
            let closed : allowed max_calls window now history ≡ false = ground (arith, kept) in
            rw (full, closed) (refuse-Tracks window history hits last now t h)
        | inr room ↦
            let granted : allowed max_calls window now history ≡ true = ground (arith, kept) in
            rw (room, granted) (accept-Tracks window history hits last now t h)
      ]

  decisions_from :
      (history hits times : List ℕ) (last : ℕ)
      → Tracks window history hits last
      → Monotone last times
      → decisions max_calls window hits times ≡ promised max_calls window history times
  decisions_from history hits [] last t m = refl
  decisions_from history hits (now ∷ times) last t m =
      ap₂ ◌∷◌ (check_hits-allowed history hits last now t m.0) (
        decisions_from (after_call history now) (check_hits max_calls window now hits).1 times now
          (check_hits-Tracks history hits last now t m.0) m.1)

  -- From an empty deque, at any times in order, `check` takes the promised decisions: at no moment
  -- have more than `max_calls` calls passed in the window that ends there, and no call is refused
  -- while fewer have.
  pub decisions-promised :
      (times : List ℕ)
      → Monotone 0 times
      → decisions max_calls window [] times ≡ promised max_calls window [] times
  decisions-promised times m = decisions_from [] [] times 0 (Tracks-empty window) m
