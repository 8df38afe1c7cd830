-- ===== src/TaskQueue.antt =====
-- src/hallpass/taskqueue.py: tasks that workers claim under a lease, over the in-memory backend.
-- Times are numbers, and `leased_at < now - lease` is written `leased_at + lease < now`.
pub mod Sqlite
pub mod Steps
pub mod Lease
pub mod Records
pub mod Oldest
use hallpass.Prelude.{
  String, ℕ, ◌+◌, Bool, true, false, ◌||◌, ◌&&◌, not, if◌then◌else◌, ltb, leb, List, [], ◌∷◌, map,
  filter, length, Option, none, some, string_eq,
}
use hallpass.Prelude.Dict
use hallpass.Prelude.Dict.{Dict, values}
use hallpass.Prelude.Order.{sort}
use hallpass.Prelude.Views.{min_by}

pub data Status : Type 0 where
  pending leased done : Status

-- `LeasedTask`; `action` is the field `do`.
pub record LeasedTask : Type 0 where
  pub id : String
  pub action : String
  pub args : Dict String String
  pub note : String
  pub worker : String

-- `Result` of src/hallpass/orchestrator.py
pub record Result : Type 0 where
  pub task_id : String
  pub worker : String
  pub ok : Bool
  pub fields : Dict String String
  pub note : String

-- `_Task`
pub record Task : Type 0 where
  pub id : String
  pub action : String
  pub args : Dict String String
  pub note : String
  pub status : Status
  pub created_at : ℕ
  pub leased_at : ℕ
  pub ok : Bool
  pub fields : Dict String String
  pub worker : String

-- `InMemoryTaskQueueBackend`
abbrev pub Queue : Type 0
Queue = Dict String Task

abbrev pub is_pending : Status → Bool
is_pending pending = true
is_pending leased = false
is_pending done = false

abbrev pub is_leased : Status → Bool
is_leased pending = false
is_leased leased = true
is_leased done = false

abbrev pub is_done : Status → Bool
is_done pending = false
is_done leased = false
is_done done = true

-- A task as `enqueue` stores it.
abbrev pub new_task : String → String → Dict String String → String → ℕ → Task
new_task id action args note now = record {
  id = id;
  action = action;
  args = args;
  note = note;
  status = pending;
  created_at = now;
  leased_at = 0;
  ok = false;
  fields = [];
  worker = "";
}

-- `enqueue`, with the id that it draws.
unfoldable pub enqueue : String → String → Dict String String → String → ℕ → Queue → Queue
enqueue id action args note now q = Dict.put q id (new_task id action args note now)

-- The test of `claim`.
unfoldable pub claimable : ℕ → ℕ → Task → Bool
claimable now lease t = is_pending t.status || (is_leased t.status && ltb (t.leased_at + lease) now)

abbrev pub lease_to : String → ℕ → Task → Task
lease_to worker at t = record t { status = leased; worker = worker; leased_at = at }

abbrev pub handed : String → Task → LeasedTask
handed worker t = record {
  id = t.id;
  action = t.action;
  args = t.args;
  note = t.note;
  worker = worker;
}

-- `claim`; the clock is read at `now` for the cutoff and at `later` for the lease.
unfoldable pub claim : String → ℕ → ℕ → ℕ → Queue → Option LeasedTask × Queue
claim worker lease now later q =
    elim (min_by (λ (t : Task). t.created_at) (filter (claimable now lease) (values q))) [
      | none ↦ (none, q)
      | some t ↦ (some (handed worker t), Dict.put q t.id (lease_to worker later t))
    ]

abbrev pub finish : String → Bool → Dict String String → String → Task → Task
finish worker ok fields note t = record t {
  status = done;
  ok = ok;
  fields = fields;
  worker = worker;
  note = note;
}

-- `complete`
unfoldable pub complete :
    String → String → Bool → Dict String String → String → Queue → Bool × Queue
complete id worker ok fields note q = elim (Dict.get q id) [
  | none ↦ (false, q)
  | some t ↦
      if is_done t.status
      then (false, q)
      else (true, Dict.put q id (finish worker ok fields note t))
]

-- `result`
unfoldable pub result : String → Queue → Option Result
result id q = elim (Dict.get q id) [
  | none ↦ none
  | some t ↦
      if is_done t.status
      then some
          (record { task_id = id; worker = t.worker; ok = t.ok; fields = t.fields; note = t.note })
      else none
]

-- `outstanding`
unfoldable pub outstanding : Queue → List String
outstanding q =
    map (λ (t : Task). t.id)
      (sort (λ a b. leb a.created_at b.created_at)
        (filter (λ t. not (is_done t.status)) (values q)))

-- `pending_count`
unfoldable pub pending_count : Queue → ℕ
pending_count q = length (filter (λ (t : Task). is_pending t.status) (values q))
