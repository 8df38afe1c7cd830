-- ===== src/Runner.antt =====
-- `serve_queue` of src/hallpass/runner.py: the loop of a worker on a task queue. The
-- handlers act on the queue and on a world; the clock and the hooks on the world.
pub mod Drain
use hallpass.Prelude.{
  String, ℕ, zero, suc, ◌+◌, Bool, true, false, ◌&&◌, not, if◌then◌else◌, leb, List, [], ◌∷◌,
  Option, none, some, is_some, string_eq,
}
use hallpass.Prelude.Dict
use hallpass.Prelude.Dict.{Dict}
use hallpass.TaskQueue.{LeasedTask, Queue, claim, complete}

-- What a handler returns, or the type of the exception that it raises.
pub data Ran : Type 0 where
  finished : Dict String String → Ran
  failed : String → Ran

-- A `QueueHandler`, a callable: it may also enqueue to the queue that it is served from, claim there,
-- or complete its own task and others.
abbrev pub QueueHandler : Type 0 → Type 0
QueueHandler W = LeasedTask → Queue → W → Ran × Queue × W

-- The clock, as the queue reads it for the cutoff and for the lease, and the hooks of the loop.
pub record Hooks (W : Type 0) : Type 0 where
  pub clock : W → ℕ × ℕ × W
  pub stop : Option (W → Bool × W)
  pub heartbeat : Option (W → W)
  pub sleep : W → W

pub record Options : Type 0 where
  pub worker : String
  pub lease_seconds : ℕ
  pub max_idle_rounds : Option ℕ

-- The loop's variables, with the queue and the world.
pub record Serving (W : Type 0) : Type 0 where
  pub completed : ℕ
  pub idle : ℕ
  pub queue : Queue
  pub world : W

-- One pass of the loop: it goes on, or it has left the loop.
pub data Pass (W : Type 0) : Type 0 where
  going : Serving W → Pass W
  left : Serving W → Pass W

module _ {W : Type 0} (hooks : Hooks W) (options : Options)
    (handlers : Dict String (QueueHandler W)) where
  -- `stop is not None and stop()`
  abbrev pub asks_stop : W → Bool × W
  asks_stop w = elim hooks.stop [ none ↦ (false, w) | some stop ↦ stop w ]

  abbrev pub beat : W → W
  beat w = elim hooks.heartbeat [ none ↦ w | some heartbeat ↦ heartbeat w ]

  -- `_terminates`
  abbrev pub terminates : Bool
  terminates = not (is_some hooks.stop) && not (is_some options.max_idle_rounds)

  -- `max_idle_rounds is not None and idle >= max_idle_rounds`
  abbrev pub idled_out : ℕ → Bool
  idled_out idle = elim options.max_idle_rounds [ none ↦ false | some rounds ↦ leb rounds idle ]

  -- The completion of a task by what its handler did.
  abbrev pub report : LeasedTask → Ran → Queue → Queue
  report task (finished fields) q = (complete task.id options.worker true fields "" q).1
  report task (failed name) q = (complete task.id options.worker false [] name q).1

  -- The dispatch to `handlers[task.do]`.
  unfoldable pub dispatch : LeasedTask → Queue → W → Queue × W
  dispatch task q w = elim (Dict.get handlers task.action) [
    | none ↦ ((complete task.id options.worker false [] "no handler" q).1, w)
    | some handler ↦ let (ran, q', w') = handler task q w in (report task ran q', w')
  ]

  -- The loop's body after `claim`.
  unfoldable pub after_claim : Option LeasedTask → Serving W → Pass W
  unfolding dispatch
  after_claim none s =
      let idle = suc s.idle in
      if idled_out idle
      then left (record s { idle = idle })
      else if terminates
      then left (record s { idle = idle })
      else going (record s { idle = idle; world = hooks.sleep s.world })
  after_claim (some task) s =
      let (q, w) = dispatch task s.queue s.world in
      going (record { completed = suc s.completed; idle = 0; queue = q; world = w })

  -- `claim` and what follows it
  unfoldable pub claim_one : Serving W → Pass W
  unfolding after_claim
  claim_one s =
      let (now, later, w) = hooks.clock s.world in
      let (task, q) = claim options.worker options.lease_seconds now later s.queue in
      after_claim task (record s { queue = q; world = w })

  -- The body of the loop.
  unfoldable pub one_pass : Serving W → Pass W
  unfolding claim_one
  one_pass s =
      let (stopped, w) = asks_stop s.world in
      let next = claim_one (record s { world = beat w }) in
      if stopped then left (record s { world = w }) else next

  -- The loop; `none` is a loop that ran out of fuel.
  unfoldable pub passes : ℕ → Serving W → Option (Serving W)
  unfolding one_pass
  passes zero s = none
  passes (suc fuel) s = elim (one_pass s) [ left s' ↦ some s' | going s' ↦ passes fuel s' ]

  -- `serve_queue`
  unfoldable pub serve_queue : ℕ → Queue → W → Option (Serving W)
  unfolding passes
  serve_queue fuel q w = passes fuel (record { completed = 0; idle = 0; queue = q; world = w })
