-- ===== src/Tests/QueueRuns.antt =====
-- Runs of the task queue, of the worker's loop, of the router and of a direct channel.
use hallpass.Prelude.{
  String, ℕ, ◌≡◌, ◌≤◌, refl, true, false, Bool, List, [], ◌∷◌, Option, none, some, string_eq, elem,
  if◌then◌else◌, ◌==◌, arith, ◌+◌, ◌⊎◌, inl, inr,
}
use hallpass.Prelude.Dict
use hallpass.Prelude.Dict.{get}
use hallpass.Prelude.Sets.{subset}
use hallpass.TaskQueue.{
  Task, Queue, Result, new_task, pending, claimable, claim, handed, lease_to, result, enqueue,
  pending_count, outstanding,
}
use hallpass.TaskQueue.Steps.{
  IsValid, Call, enqueue_call, claim_call, complete_call, apply_all, put-IsValid, apply-IsValid,
}
use hallpass.TaskQueue.Records.{result-apply_all}
use hallpass.TaskQueue.Lease.{claimed_excludes, claimed, Taken}
use hallpass.TaskQueue.Oldest.{claim_oldest}
use hallpass.Runner.{Hooks, Options, Serving, finished, serve_queue}
use hallpass.Runner.Drain.{serve_queue_drains, unfinished}
use hallpass.Routing.{Router, route}
use hallpass.Routing.Capable.{route_capable}
use hallpass.A2a.Bus.{Bus, declare_channel}
use hallpass.A2a.Bus.Delivery.{reads, posts}
use hallpass.Direct.{DirectChannel, policy_of, open_dm}
use hallpass.Direct.Private.{open_dm_private}
use hallpass.A2a.Store.{empty}
use hallpass.TaskQueue.Sqlite as Sqlite
use hallpass.TaskQueue.Sqlite.{Query, QueryLaws, Row}
use hallpass.TaskQueue.Sqlite.Untied as Untied
use hallpass.Prelude.Views.{min_by, min_by-In, min_by-le}
use hallpass.TaskQueue.Sqlite.History.{run_calls, replies, run_calls-replies}
use hallpass.Tests.Codec.{codec, codec-JsonLaws}
use hallpass.Tests.Fixtures.{ann}

nothing-IsValid : IsValid []
nothing-IsValid = record { distinct = tt; named = λ k t h. unfold get in ground (arith, h) }

abbrev waiting : Queue
waiting = enqueue "1" "resize" [] "" 5 []

waiting-IsValid : IsValid waiting
unfolding enqueue
waiting-IsValid = put-IsValid [] "1" (new_task "1" "resize" [] "" 5) refl nothing-IsValid

abbrev done_queue : Queue
done_queue = (hallpass.TaskQueue.complete "1" "w" true (("size", "9") ∷ []) "" waiting).1

done-IsValid : IsValid done_queue
done-IsValid =
    apply-IsValid (complete_call "1" "w" true (("size", "9") ∷ []) "") waiting waiting-IsValid

abbrev nine : Result
nine = record { task_id = "1"; worker = "w"; ok = true; fields = ("size", "9") ∷ []; note = "" }

abbrev later_calls : List Call
later_calls =
    enqueue_call "2" "resize" [] "" 7
    ∷ claim_call "v" 10 50 50
    ∷ complete_call "1" "v" false [] "late"
    ∷ []

result-apply_all_example : result "1" (apply_all later_calls done_queue) ≡ some nine
unfolding result get hallpass.TaskQueue.complete enqueue Dict.put
result-apply_all_example =
    result-apply_all later_calls "1" done_queue nine done-IsValid (refl, (tt, (tt, tt))) refl

abbrev leased_queue : Queue
leased_queue = (claim "w" 10 20 21 waiting).1

leased-IsValid : IsValid leased_queue
leased-IsValid = apply-IsValid (claim_call "w" 10 20 21) waiting waiting-IsValid

abbrev rivals : List Call
rivals = claim_call "v" 10 30 30 ∷ complete_call "1" "v" true [] "" ∷ claim_call "v" 10 31 31 ∷ []

leased-Taken : Taken "1" 21 leased_queue
unfolding get claim enqueue Dict.put hallpass.Prelude.Views.min_by hallpass.Prelude.filter claimable
leased-Taken = record {
  task = lease_to "w" 21 (new_task "1" "resize" [] "" 5);
  there = refl;
  held = inr (refl, refl);
}

claimed_excludes_example : elem "1" (claimed rivals leased_queue) ≡ false
claimed_excludes_example =
    claimed_excludes rivals "1" 21 leased_queue leased-IsValid leased-Taken
      (omega arith, (tt, (omega arith, tt)))

claim_oldest_example :
    (t : Task) × (Dict.get waiting t.id ≡ some t)
    × (claimable 6 10 t ≡ true)
    × (t.created_at ≤ 5)
    × (claim "w" 10 6 6 waiting ≡ (some (handed "w" t), Dict.put waiting t.id (lease_to "w" 6 t)))
unfolding get enqueue Dict.put claimable
claim_oldest_example =
    claim_oldest "w" "1" 10 6 6 waiting (new_task "1" "resize" [] "" 5) waiting-IsValid refl refl

abbrev hooks : Hooks ℕ
hooks = record { clock = λ n. (n, n, n + 1); stop = none; heartbeat = none; sleep = λ n. n }

abbrev options : Options
options = record { worker = "w"; lease_seconds = 60; max_idle_rounds = none }

serve_queue_drains_example :
    (s : Serving ℕ) × (serve_queue hooks options
        (("resize", λ task q n. (finished [], q, n)) ∷ [])
        3
        waiting
        0
      ≡ some s)
    × (s.completed + unfinished s.queue ≡ unfinished waiting)
    × (pending_count s.queue ≡ 0)
unfolding hallpass.Prelude.filter enqueue Dict.put
serve_queue_drains_example =
    serve_queue_drains hooks options (("resize", λ task q n. (finished [], q, n)) ∷ [])
      (λ task q w. refl, tt) refl refl 3 waiting 0 waiting-IsValid (omega arith)

abbrev router : Router
router = record { workers = ("a", "x" ∷ []) ∷ ("b", "x" ∷ "y" ∷ []) ∷ []; turn = 1 }

route_capable_example :
    ((worker : String) × (scopes : List String) × ((route ("x" ∷ []) router).0 ≡ some worker)
      × (Dict.get router.workers worker ≡ some scopes)
      × (subset ("x" ∷ []) scopes ≡ true))
    ⊎ ((route ("x" ∷ []) router ≡ (none, router))
        × ((worker : String) (scopes : List String)
            → Dict.get router.workers worker ≡ some scopes
            → subset ("x" ∷ []) scopes ≡ false))
unfolding get
route_capable_example = route_capable ("x" ∷ []) router (refl, (refl, tt))

abbrev history : List Call
history =
    enqueue_call "1" "resize" (("size", "9") ∷ []) "" 5
    ∷ claim_call "w" 10 20 21
    ∷ complete_call "1" "w" true [] ""
    ∷ []

abbrev first_oldest : Query
first_oldest = record { oldest = λ rows rs. min_by (λ (r : Row). r.created_at) rs }

min_by-nothing : (rs : List Row) → min_by (λ (r : Row). r.created_at) rs ≡ none → rs ≡ []
min_by-nothing [] h = refl
min_by-nothing (r ∷ rs) h =
    let (x, e, _) = min_by-le (λ (r : Row). r.created_at) (r ∷ rs) r (inl refl) in
    absurd (ground (arith, e))

first_oldest-QueryLaws : QueryLaws first_oldest
first_oldest-QueryLaws = record {
  oldest_some = λ rows rs r e. (
    min_by-In (λ (r : Row). r.created_at) rs r e,
    λ s m.
        let (x, e', le) = min_by-le (λ (r : Row). r.created_at) rs s m in ground (arith, e, e', le),
  );
  oldest_none = λ rows rs e. min_by-nothing rs e;
}

run_calls-replies_example :
    ((run_calls codec first_oldest history []).0 ≡ replies history [])
    × (Sqlite.result codec "1" (run_calls codec first_oldest history []).1
        ≡ result "1" (apply_all history []))
    × (Sqlite.outstanding (run_calls codec first_oldest history []).1
        ≡ outstanding (apply_all history []))
    × (Sqlite.pending_count (run_calls codec first_oldest history []).1
        ≡ pending_count (apply_all history []))
unfolding get
run_calls-replies_example =
    run_calls-replies codec first_oldest codec-JsonLaws first_oldest-QueryLaws history [] "1"
      ((refl, λ k t h. cc), (tt, (tt, tt))) Untied.empty-IsValid tt

abbrev bus : Bus
bus = record { policies = []; has_audit = true; sanitize_reads = true; store = empty; audit = [] }

abbrev pair_channel : DirectChannel
pair_channel = record { name = "dm:00"; scope = "dm:00"; parties = ("ann", "bob") }

abbrev opened_bus : Bus
opened_bus = declare_channel "dm:00" (policy_of pair_channel) bus

open_dm_private_example :
    (open_dm (λ s. "00") "ann" "bob" bus ≡ some (pair_channel, opened_bus))
    × (posts ann "dm:00" opened_bus ≡ (
        if hallpass.Prelude.◌==◌ {A = String} "dm:00" "dm:00"
        then elem "dm:00" ann.scopes
        else posts ann "dm:00" bus))
    × (reads ann "dm:00" opened_bus ≡ (
        if hallpass.Prelude.◌==◌ {A = String} "dm:00" "dm:00"
        then elem "dm:00" ann.scopes
        else reads ann "dm:00" bus))
unfolding open_dm hallpass.Prelude.Order.str_leb
open_dm_private_example =
    open_dm_private (λ s. "00") "bob" "ann" "dm:00" pair_channel bus opened_bus ann refl
