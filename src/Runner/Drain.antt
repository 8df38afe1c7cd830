-- ===== src/Runner/Drain.antt =====
-- The loop of src/hallpass/runner.py ends, and leaves nothing pending.
use mathlib.Core.Path.{subst}
use hallpass.Prelude.{
  String, ℕ, zero, suc, ◌+◌, ◌<◌, ◌≡◌, refl, sym, ◌∙◌, ap, Bool, true, false, not, if◌then◌else◌,
  length, filter, List, [], ◌∷◌, Option, none, some, string_eq, arith, Option-cases, inl, inr,
}
use hallpass.Prelude.Dict
use hallpass.Prelude.Dict.{Dict, values, get-put_self, Each, Each-get}
use hallpass.TaskQueue.{
  Task, Queue, LeasedTask, is_done, is_pending, handed, lease_to, finish, claim, complete,
  claimable, pending_count,
}
use hallpass.TaskQueue.Steps.{IsValid, put-IsValid, claim-cases, apply-IsValid, complete_call}
use hallpass.Prelude.Views.{min_by}
use hallpass.Runner.{
  Ran, finished, failed, QueueHandler, Hooks, Options, Serving, Pass, going, left, beat, asks_stop,
  report, dispatch, after_claim, claim_one, one_pass, passes, serve_queue,
}

abbrev one_if : Bool → ℕ
one_if true = 1
one_if false = 0

-- A task replaced in the queue changes a count by what it counted before and after.
count-put :
    (p : Task → Bool) (q : Queue) (k : String) (t u : Task)
    → Dict.get q k ≡ some t
    → length (filter p (values (Dict.put q k u))) + one_if (p t)
      ≡ length (filter p (values q)) + one_if (p u)
unfolding Dict.get Dict.put filter
count-put p [] k t u h = cc
count-put p ((j, x) ∷ q) k t u h = ground (arith, count-put p q k t u)

-- How many tasks have no result.
abbrev pub unfinished : Queue → ℕ
unfinished q = length (filter (λ (t : Task). not (is_done t.status)) (values q))

unfinished-claim :
    (worker : String) (lease now later : ℕ) (q : Queue)
    → IsValid q
    → unfinished (claim worker lease now later q).1 ≡ unfinished q
unfinished-claim worker lease now later q v = elim (claim-cases worker lease now later q v) [
  | inl e ↦ ap (λ (r : Option LeasedTask × Queue). unfinished r.1) e
  | inr (t, ready, here, e) ↦
      let step =
        count-put (λ (t : Task). not (is_done t.status)) q t.id t (lease_to worker later t) here in
      ap (λ (r : Option LeasedTask × Queue). unfinished r.1) e
      ∙ (unfold claimable in ground (arith, step))
]

min_by-none : (key : Task → ℕ) (ts : List Task) → min_by key ts ≡ none → ts ≡ []
unfolding min_by
min_by-none key [] h = refl
min_by-none key (t ∷ ts) h = elim (Option-cases (min_by key ts)) [
  | inl e ↦ absurd (ground arith)
  | inr (u, e) ↦ absurd (ground arith)
]

none_pending :
    (now lease : ℕ) (ts : List Task)
    → filter (claimable now lease) ts ≡ []
    → length (filter (λ (t : Task). is_pending t.status) ts) ≡ 0
unfolding filter claimable
none_pending now lease [] h = refl
none_pending now lease (t ∷ ts) h = ground (arith, none_pending now lease ts)

claim-none :
    (worker : String) (lease now later : ℕ) (q : Queue)
    → claim worker lease now later q ≡ (none, q)
    → pending_count q ≡ 0
unfolding claim pending_count
claim-none worker lease now later q h = none_pending now lease (values q) (
    min_by-none (λ (t : Task). t.created_at) (filter (claimable now lease) (values q))
      (elim (Option-cases
        (min_by (λ (t : Task). t.created_at) (filter (claimable now lease) (values q)))) [
          | inl e ↦ e
          | inr (t, e) ↦ absurd (ground arith)
        ]))

unfinished-complete :
    (id worker note : String) (ok : Bool) (fields : Dict String String) (q : Queue) (t : Task)
    → Dict.get q id ≡ some t
    → is_done t.status ≡ false
    → suc (unfinished (complete id worker ok fields note q).1) ≡ unfinished q
unfolding complete
unfinished-complete id worker note ok fields q t here open_still =
    rw (here, complete, open_still)
      (ground (
        arith,
        count-put (λ (t : Task). not (is_done t.status)) q id t (finish worker ok fields note t)
            here,
      ))

-- No handler changes the queue that it is served from.
abbrev pub LeaveQueue : {W : Type 0} → Dict String (QueueHandler W) → Type 0
LeaveQueue {W} handlers =
    Each (λ action handler. (task : LeasedTask) (q : Queue) (w : W) → (handler task q w).1 ≡ q)
      handlers

module _ {W : Type 0} (hooks : Hooks W) (options : Options)
    (handlers : Dict String (QueueHandler W)) (leave : LeaveQueue handlers) where
  -- What a pass makes of the loop's variables: either nothing was left to claim, or one more task
  -- has a result.
  abbrev pub Step : Serving W → Pass W → Type 0
  Step s (left s') =
      (s'.completed ≡ s.completed)
      × (unfinished s'.queue ≡ unfinished s.queue)
      × (pending_count s'.queue ≡ 0)
  Step s (going s') =
      (s'.completed ≡ suc s.completed)
      × (suc (unfinished s'.queue) ≡ unfinished s.queue)
      × IsValid s'.queue

  dispatch-unfinished :
      (task : LeasedTask) (q : Queue) (w : W) (t : Task)
      → Dict.get q task.id ≡ some t
      → is_done t.status ≡ false
      → IsValid q
      → (suc (unfinished (dispatch hooks options handlers task q w).0) ≡ unfinished q)
        × IsValid (dispatch hooks options handlers task q w).0
  unfolding dispatch
  dispatch-unfinished task q w t here still v =
      elim (Option-cases (Dict.get handlers task.action)) [
        | inl e ↦
            rw (e, dispatch)
              (
                unfinished-complete task.id options.worker "no handler" false [] q t here still,
                apply-IsValid (complete_call task.id options.worker false [] "no handler") q v,
              )
        | inr (handler, e) ↦
            rw (e, dispatch, Each-get _ handlers task.action handler leave e task q w)
              (of_ran (handler task q w).0)
      ]
    where
      of_ran :
          (ran : Ran)
          → (suc (unfinished (report hooks options handlers task ran q)) ≡ unfinished q)
            × IsValid (report hooks options handlers task ran q)
      of_ran (finished fields) = (
        unfinished-complete task.id options.worker "" true fields q t here still,
        apply-IsValid (complete_call task.id options.worker true fields "") q v,
      )
      of_ran (failed name) = (
        unfinished-complete task.id options.worker name false [] q t here still,
        apply-IsValid (complete_call task.id options.worker false [] name) q v,
      )

  module _ (no_stop : hooks.stop ≡ none) (no_bound : options.max_idle_rounds ≡ none) where
    claim_one-Step : (s : Serving W) → IsValid s.queue → Step s (claim_one hooks options handlers s)
    unfolding claim_one after_claim
    claim_one-Step s v =
        let (now, later, w) = hooks.clock s.world in
        elim (claim-cases options.worker options.lease_seconds now later s.queue v) [
          | inl e ↦
              subst
                (λ (r : Option LeasedTask × Queue).
                  Step s
                    (after_claim hooks options handlers r.0 (record s { queue = r.1; world = w })))
                (sym e)
                (rw (no_stop, no_bound, after_claim)
                  (refl, refl, claim-none options.worker options.lease_seconds now later s.queue e))
          | inr (t, ready, here, e) ↦
              let q = Dict.put s.queue t.id (lease_to options.worker later t) in
              let same : unfinished q ≡ unfinished s.queue =
                sym (ap (λ (r : Option LeasedTask × Queue). unfinished r.1) e)
                ∙ unfinished-claim options.worker options.lease_seconds now later s.queue v in
              let (fewer, v') =
                dispatch-unfinished (handed options.worker t) q w (lease_to options.worker later t)
                  (get-put_self s.queue t.id (lease_to options.worker later t)) refl
                  (put-IsValid s.queue t.id (lease_to options.worker later t) refl v) in
              subst
                (λ (r : Option LeasedTask × Queue).
                  Step s
                    (after_claim hooks options handlers r.0 (record s { queue = r.1; world = w })))
                (sym e) (refl, fewer ∙ same, v')
        ]

    goes_on : (w : W) → asks_stop hooks options handlers w ≡ (false, w)
    goes_on w = ap (λ (x : Option (W → Bool × W)). asked x) no_stop
      where
        asked : Option (W → Bool × W) → Bool × W
        asked x = elim x [ none ↦ (false, w) | some stop ↦ stop w ]

    one_pass-Step : (s : Serving W) → IsValid s.queue → Step s (one_pass hooks options handlers s)
    unfolding one_pass
    one_pass-Step s v =
        subst
          (λ (r : Bool × W). Step s (
            if r.0
            then left (record s { world = r.1 })
            else claim_one hooks options handlers
                (record s { world = beat hooks options handlers r.1 })))
          (sym (goes_on s.world))
          (claim_one-Step (record s { world = beat hooks options handlers s.world }) v)

    -- The loop has ended, and every pass that went on has given one task its result.
    abbrev Drained : Serving W → Option (Serving W) → Type 0
    Drained s r =
        (s' : Serving W) × (r ≡ some s')
        × (s'.completed + unfinished s'.queue ≡ s.completed + unfinished s.queue)
        × (pending_count s'.queue ≡ 0)

    after_pass :
        (fuel : ℕ) (s : Serving W) (x : Pass W)
        → one_pass hooks options handlers s ≡ x
        → Step s x
        → unfinished s.queue < suc fuel
        → ((s1 : Serving W)
            → IsValid s1.queue
            → unfinished s1.queue < fuel
            → Drained s1 (passes hooks options handlers fuel s1))
        → Drained s (passes hooks options handlers (suc fuel) s)
    unfolding passes
    after_pass fuel s (left s') e (c, u, p) h ih = (s', rw (e, passes) refl, omega (arith, c, u), p)
    after_pass fuel s (going s1) e (c, u, v1) h ih =
        let (s', r, total, p) = ih s1 v1 (omega (arith, u, h)) in
        (s', rw (e, passes) r, omega (arith, c, u, total), p)

    -- With fuel for each unfinished task and one pass more, the loop ends.
    passes-ends :
        (fuel : ℕ) (s : Serving W)
        → IsValid s.queue
        → unfinished s.queue < fuel
        → Drained s (passes hooks options handlers fuel s)
    passes-ends zero s v h = absurd (omega arith)
    passes-ends (suc fuel) s v h =
        after_pass fuel s (one_pass hooks options handlers s) refl (one_pass-Step s v) h
          (λ s1 v1 h1. passes-ends fuel s1 v1 h1)

    -- Without a stop predicate and an idle bound, on a queue whose ids are distinct and name their
    -- tasks, with handlers that leave that queue alone, and hooks and a clock that do too, whatever
    -- else they do and whether handlers return or raise: the loop returns within one pass more than
    -- there are tasks without a result. The number that it returns is the number of tasks that got
    -- their result, and no task is left pending.
    pub serve_queue_drains :
        (fuel : ℕ) (q : Queue) (w : W)
        → IsValid q
        → unfinished q < fuel
        → (s : Serving W) × (serve_queue hooks options handlers fuel q w ≡ some s)
          × (s.completed + unfinished s.queue ≡ unfinished q)
          × (pending_count s.queue ≡ 0)
    unfolding serve_queue
    serve_queue_drains fuel q w v h =
        let start : Serving W = record { completed = 0; idle = 0; queue = q; world = w } in
        let (s, r, total, p) = passes-ends fuel start v h in (s, r, omega (arith, total), p)
