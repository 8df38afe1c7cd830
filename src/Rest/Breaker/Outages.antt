-- ===== src/Rest/Breaker/Outages.antt =====
-- When the breaker of src/hallpass/rest.py is open, and what it then keeps from the downstream.
use mathlib.Core.Path.{subst}
use hallpass.Prelude.{
  ℕ, suc, ◌+◌, ◌≤◌, ◌<◌, ◌≡◌, refl, ◌∙◌, ap, true, false, if◌then◌else◌, leb, List, [], ◌∷◌, some,
  is_some, arith, sym, ◌⊎◌, ◌++◌, Bool-cases, inl, inr,
}
use hallpass.Rest.{Response, body, failed, raised_other, HttpClient}
use hallpass.Rest.Breaker.{
  BreakerPolicy, Breaker, closed, circuit_open, blocks, is_outage, after_answer, guarded,
}

-- A call: its request, and the clock before and after the inner client.
pub record Call (Request : Type 0) : Type 0 where
  pub request : Request
  pub now : ℕ
  pub later : ℕ

module _ (policy : BreakerPolicy) where
  -- The outages since the last body, of `n` and these answers: what `failures` promises to be. A
  -- failure that is no outage counts for nothing, and no more does any other exception.
  abbrev pub outages : {Body : Type 0} → ℕ → List (Response Body) → ℕ
  outages n [] = n
  outages n (body _ ∷ answers) = outages 0 answers
  outages n (raised_other ∷ answers) = outages n answers
  outages n (failed e ∷ answers) = outages (if is_outage policy e.status then suc n else n) answers

  module _ {Request Body W : Type 0} (inner : HttpClient Request Body W) where
    -- The state after these calls.
    abbrev pub run_calls : List (Call Request) → Breaker → W → Breaker × W
    run_calls [] b w = (b, w)
    run_calls (c ∷ calls) b w =
        let r = guarded policy inner c.now c.later c.request b w in run_calls calls r.1 r.2

    -- The answers of the inner client, to those of the calls that reached it.
    abbrev pub reached : List (Call Request) → Breaker → W → List (Response Body)
    reached [] b w = []
    reached (c ∷ calls) b w =
        let r = guarded policy inner c.now c.later c.request b w in
        let rest = reached calls r.1 r.2 in
        if blocks policy c.now b.opened_at then rest else (inner c.request w).0 ∷ rest

    -- The breaker is open exactly when its count has met the threshold.
    pub record IsConsistent (b : Breaker) : Type 0 where
      pub opened : is_some b.opened_at ≡ leb policy.failure_threshold b.failures

    after_answer-IsConsistent :
        (later : ℕ) (r : Response Body) (b : Breaker)
        → 1 ≤ policy.failure_threshold
        → IsConsistent b
        → IsConsistent (after_answer policy later r b)
    unfolding after_answer
    after_answer-IsConsistent later (body _) b pos h = record { opened = ground arith }
    after_answer-IsConsistent later raised_other b pos h = h
    after_answer-IsConsistent later (failed e) b pos h = record {
      opened = ground (arith, h.opened);
    }

    failures-after_answer :
        (later : ℕ) (r : Response Body) (b : Breaker) (rest : List (Response Body))
        → outages (after_answer policy later r b).failures rest ≡ outages b.failures (r ∷ rest)
    unfolding after_answer
    failures-after_answer later (body _) b rest = refl
    failures-after_answer later raised_other b rest = refl
    failures-after_answer later (failed e) b rest = ground arith

    guarded_fast :
        (c : Call Request) (b : Breaker) (w : W)
        → blocks policy c.now b.opened_at ≡ true
        → guarded policy inner c.now c.later c.request b w ≡ (failed circuit_open, b, w)
    unfolding guarded
    guarded_fast c b w e = rw e refl

    guarded_through :
        (c : Call Request) (b : Breaker) (w : W)
        → blocks policy c.now b.opened_at ≡ false
        → guarded policy inner c.now c.later c.request b w ≡ (
          (inner c.request w).0,
          after_answer policy c.later (inner c.request w).0 b,
          (inner c.request w).1,
        )
    unfolding guarded
    guarded_through c b w e = rw e refl

    counts_outages :
        (calls : List (Call Request)) (b : Breaker) (w : W)
        → 1 ≤ policy.failure_threshold
        → IsConsistent b
        → ((run_calls calls b w).0.failures ≡ outages b.failures (reached calls b w))
          × IsConsistent (run_calls calls b w).0
    counts_outages [] b w pos h = (refl, h)
    counts_outages (c ∷ calls) b w pos h = elim (Bool-cases (blocks policy c.now b.opened_at)) [
      | inl fast ↦ rw (guarded_fast c b w fast, run_calls, fast) (counts_outages calls b w pos h)
      | inr through ↦
          let b' = after_answer policy c.later (inner c.request w).0 b in
          let w' = (inner c.request w).1 in
          let (count, end) =
            counts_outages calls b' w' pos
              (after_answer-IsConsistent c.later (inner c.request w).0 b pos h) in
          rw (guarded_through c b w through, run_calls, through)
            (
              count ∙ failures-after_answer c.later (inner c.request w).0 b (reached calls b' w'),
              end,
            )
    ]

    -- From a new breaker, after any calls at any times: the count is the number of outages since the
    -- inner client last answered with a body, and the breaker is open exactly when that number has
    -- met the threshold, if the threshold is positive.
    pub opens_at_threshold :
        (calls : List (Call Request)) (w : W)
        → 1 ≤ policy.failure_threshold
        → ((run_calls calls closed w).0.failures ≡ outages 0 (reached calls closed w))
          × (is_some (run_calls calls closed w).0.opened_at
              ≡ leb policy.failure_threshold (outages 0 (reached calls closed w)))
    opens_at_threshold calls w pos =
        let start : IsConsistent closed = record { opened = ground arith } in
        let (count, end) = counts_outages calls closed w pos start in
        (count, end.opened ∙ ap (leb policy.failure_threshold) count)

    -- Calls that all come before an open breaker may probe again.
    abbrev pub AllBefore : ℕ → List (Call Request) → Type 0
    AllBefore limit [] = Unit
    AllBefore limit (c ∷ calls) = (c.now < limit) × AllBefore limit calls

    stays_open :
        (calls : List (Call Request)) (at : ℕ) (b : Breaker) (w : W)
        → b.opened_at ≡ some at
        → AllBefore (at + policy.reset_after) calls
        → (run_calls calls b w ≡ (b, w)) × (reached calls b w ≡ [])
    stays_open [] at b w e h = (refl, refl)
    stays_open (c ∷ calls) at b w e h =
        let fast : blocks policy c.now b.opened_at ≡ true = ground arith in
        rw (guarded_fast c b w fast, run_calls, fast) (stays_open calls at b w e h.1)

    -- The breaker after the probe of an open one: closed by a body, open anew since the clock after
    -- the probe by an outage, and as it was after any other failure or exception.
    abbrev pub Probed : Breaker → ℕ → Response Body → Breaker → Type 0
    Probed b later (body _) b' = b' ≡ closed
    Probed b later raised_other b' = b' ≡ b
    Probed b later (failed e) b' =
        ((is_outage policy e.status ≡ false) × (b' ≡ b))
        ⊎ ((is_outage policy e.status ≡ true)
            × (b'.opened_at ≡ some later)
            × (b'.failures ≡ suc b.failures))

    after_answer-Probed :
        (later at : ℕ) (r : Response Body) (b : Breaker)
        → IsConsistent b
        → b.opened_at ≡ some at
        → Probed b later r (after_answer policy later r b)
    unfolding after_answer
    after_answer-Probed later at (body _) b h e = refl
    after_answer-Probed later at raised_other b h e = refl
    after_answer-Probed later at (failed x) b h e = elim (Bool-cases (is_outage policy x.status)) [
      | inr other ↦ inl (other, rw other refl)
      | inl outage ↦ inr (outage, ground (arith, h.opened), ground arith)
    ]

    reached-append :
        (calls : List (Call Request)) (c : Call Request) (b b' : Breaker) (w w' : W)
        → run_calls calls b w ≡ (b', w')
        → reached calls b w ≡ []
        → (reached (calls ++ c ∷ []) b w ≡ reached (c ∷ []) b' w')
          × (run_calls (calls ++ c ∷ []) b w ≡ run_calls (c ∷ []) b' w')
    reached-append [] c b b' w w' e h = (
      ap (λ (s : Breaker × W). reached (c ∷ []) s.0 s.1) e,
      ap (λ (s : Breaker × W). run_calls (c ∷ []) s.0 s.1) e,
    )
    reached-append (d ∷ calls) c b b' w w' e h =
        let r = guarded policy inner d.now d.later d.request b w in
        elim (Bool-cases (blocks policy d.now b.opened_at)) [
          | inl fast ↦
              let ih = reached-append calls c r.1 b' r.2 w' e (rw fast at h) in (rw fast ih.0, ih.1)
          | inr through ↦ absurd (let k : (inner d.request w).0 ∷ _ ≡ [] = rw through at h in cc)
        ]

    -- A breaker whose count meets its threshold and that opened at `at`: of any calls whose clock
    -- reads less than `at` and `reset_after`, followed by one whose clock reads at least that, only
    -- the last reaches the inner client, which sees the world as it was at first; and that call
    -- closes the breaker if it answers a body, opens it anew if it is an outage, and leaves it as it
    -- was if it raises anything else.
    pub probes_at_reset :
        (calls : List (Call Request)) (probe : Call Request) (at : ℕ) (b : Breaker) (w : W)
        → IsConsistent b
        → b.opened_at ≡ some at
        → AllBefore (at + policy.reset_after) calls
        → at + policy.reset_after ≤ probe.now
        → (reached (calls ++ probe ∷ []) b w ≡ (inner probe.request w).0 ∷ [])
          × ((run_calls (calls ++ probe ∷ []) b w).1 ≡ (inner probe.request w).1)
          × Probed b probe.later (inner probe.request w).0 (run_calls (calls ++ probe ∷ []) b w).0
    probes_at_reset calls probe at b w good e before due =
        let (still, none_reached) = stays_open calls at b w e before in
        let (r, s) = reached-append calls probe b b w w still none_reached in
        let through : blocks policy probe.now b.opened_at ≡ false = ground arith in
        let passed = guarded_through probe b w through in
        (
          r ∙ rw through refl,
          ap (λ (x : Breaker × W). x.1) s ∙ rw passed refl,
          subst (Probed b probe.later (inner probe.request w).0)
              (sym (ap (λ (x : Breaker × W). x.0) s ∙ rw passed refl))
              (after_answer-Probed probe.later at (inner probe.request w).0 b good e),
        )
