-- ===== src/TaskQueue/Sqlite.antt =====
-- `SqliteTaskQueueBackend` of src/hallpass/taskqueue.py: the rows of the table `tasks`, by their
-- primary key, each statement as it acts on them. Which of several rows with the least `created_at`
-- `claim` takes is left open by SQL, and is a parameter; `outstanding` lists such rows as they were
-- inserted, which SQL leaves open too.
pub mod Untied
pub mod Refines
pub mod History
use hallpass.Prelude.{
  String, ℕ, ◌+◌, ◌≡◌, Bool, true, false, ◌||◌, ◌&&◌, not, if◌then◌else◌, ltb, leb, List, [], ◌∷◌,
  map, filter, length, Option, none, some, is_some, string_eq, ◌==◌, In, ◌≤◌,
}
use hallpass.Prelude.Dict
use hallpass.Prelude.Dict.{Dict, values}
use hallpass.Prelude.Order.{sort}
use hallpass.TaskQueue.{
  Status, pending, leased, done, is_pending, is_leased, is_done, LeasedTask, Result,
}

-- `json.dumps` and `json.loads` of a dictionary of texts.
pub record Json : Type 0 where
  pub dumps : Dict String String → String
  pub loads : String → Dict String String

-- What is documented of them: a dictionary comes back, and its text is not empty.
pub record JsonLaws (json : Json) : Type 0 where
  pub loads_dumps : (d : Dict String String) → json.loads (json.dumps d) ≡ d
  pub dumps_nonempty : (d : Dict String String) → (json.dumps d == "") ≡ false

-- A row; `none` is NULL, `action` the column `do`, `fields` the column `result`.
pub record Row : Type 0 where
  pub id : String
  pub action : String
  pub args : String
  pub note : String
  pub status : Status
  pub leased_by : Option String
  pub leased_at : Option ℕ
  pub ok : Option Bool
  pub fields : Option String
  pub worker : Option String
  pub created_at : ℕ

abbrev pub Table : Type 0
Table = Dict String Row

-- `ORDER BY created_at LIMIT 1`, on a table and the rows of it that satisfy the condition.
pub record Query : Type 0 where
  pub oldest : Table → List Row → Option Row

-- What is documented of it: a row with the least time, and none only where there is no row.
pub record QueryLaws (query : Query) : Type 0 where
  pub oldest_some :
      (rows : Table) (rs : List Row) (r : Row)
      → query.oldest rows rs ≡ some r
      → In r rs × ((s : Row) → In s rs → r.created_at ≤ s.created_at)
  pub oldest_none : (rows : Table) (rs : List Row) → query.oldest rows rs ≡ none → rs ≡ []

-- The condition of the SELECT: a comparison with NULL fails.
abbrev pub run_out : ℕ → ℕ → Option ℕ → Bool
run_out now lease none = false
run_out now lease (some at) = ltb (at + lease) now

unfoldable pub claimable : ℕ → ℕ → Row → Bool
claimable now lease r = is_pending r.status || (is_leased r.status && run_out now lease r.leased_at)

abbrev pub lease_row : String → ℕ → Row → Row
lease_row worker at r = record r { status = leased; leased_by = some worker; leased_at = some at }

-- `x or ""`
abbrev pub or_empty : Option String → String
or_empty none = ""
or_empty (some t) = t

-- `COUNT(*) WHERE status='pending'`
unfoldable pub pending_count : Table → ℕ
pending_count rows = length (filter (λ (r : Row). is_pending r.status) (values rows))

-- `outstanding`
unfoldable pub outstanding : Table → List String
outstanding rows =
    map (λ (r : Row). r.id)
      (sort (λ a b. leb a.created_at b.created_at)
        (filter (λ r. not (is_done r.status)) (values rows)))

module _ (json : Json) where
  -- `json.loads(column) if column else {}`
  abbrev pub loads_or_empty : Option String → Dict String String
  loads_or_empty none = []
  loads_or_empty (some t) = if t == "" then [] else json.loads t

  abbrev pub new_row : String → String → Dict String String → String → ℕ → Row
  new_row id action args note now = record {
    id = id;
    action = action;
    args = json.dumps args;
    note = note;
    status = pending;
    leased_by = none;
    leased_at = none;
    ok = none;
    fields = none;
    worker = none;
    created_at = now;
  }

  -- `enqueue`: `false` stands for the `IntegrityError` of an id that is taken.
  unfoldable pub enqueue : String → String → Dict String String → String → ℕ → Table → Bool × Table
  enqueue id action args note now rows =
      if Dict.has rows id
      then (false, rows)
      else (true, Dict.put rows id (new_row id action args note now))

  abbrev pub handed_row : String → Row → LeasedTask
  handed_row worker r = record {
    id = r.id;
    action = r.action;
    args = json.loads r.args;
    note = r.note;
    worker = worker;
  }

  -- `claim`
  unfoldable pub claim : Query → String → ℕ → ℕ → ℕ → Table → Option LeasedTask × Table
  unfolding claimable
  claim query worker lease now later rows =
      elim (query.oldest rows (filter (claimable now lease) (values rows))) [
        | none ↦ (none, rows)
        | some r ↦ (some (handed_row worker r), Dict.put rows r.id (lease_row worker later r))
      ]

  abbrev pub finish_row : String → Bool → Dict String String → String → Row → Row
  finish_row worker ok fields note r = record r {
    status = done;
    ok = some ok;
    fields = some (json.dumps fields);
    worker = some worker;
    note = note;
  }

  -- `complete`
  unfoldable pub complete :
      String → String → Bool → Dict String String → String → Table → Bool × Table
  complete id worker ok fields note rows = elim (Dict.get rows id) [
    | none ↦ (false, rows)
    | some r ↦
        if is_done r.status
        then (false, rows)
        else (true, Dict.put rows id (finish_row worker ok fields note r))
  ]

  -- `bool(ok)` of a column
  abbrev pub truth : Option Bool → Bool
  truth none = false
  truth (some b) = b

  -- `result`
  unfoldable pub result : String → Table → Option Result
  result id rows = elim (Dict.get rows id) [
    | none ↦ none
    | some r ↦
        if is_done r.status
        then some (record {
          task_id = id;
          worker = or_empty r.worker;
          ok = truth r.ok;
          fields = loads_or_empty r.fields;
          note = r.note;
        })
        else none
  ]
