-- ===== src/HumanGate/Sqlite.antt =====
-- `SqliteHumanGateLedger` of src/hallpass/humangate.py: the rows of the table `human_gates`, by
-- their primary key, each statement as it acts on them.
pub mod Refines
use hallpass.Prelude.{
  String, ℕ, Bool, true, false, Option, none, some, List, [], string_eq, if◌then◌else◌, filter, map,
}
use hallpass.Prelude.Dict
use hallpass.Prelude.Dict.{Dict, values}
use hallpass.Prelude.Order.{sort, str_leb}
use hallpass.Identity.{Principal}
use hallpass.HumanGate.{
  Status, pending, Gate, is_pending, is_approved, Decision, decided, by_service, already_decided,
  not_open, decide_gate,
}

-- A row; `none` is NULL.
pub record Row : Type 0 where
  pub id : String
  pub reason : String
  pub status : Status
  pub decided_by : Option String
  pub decided_at : Option ℕ
  pub note : String

abbrev pub Table : Type 0
Table = Dict String Row

-- The `Gate` of a row.
abbrev pub gate_of_row : Row → Gate
gate_of_row r = record {
  id = r.id;
  reason = r.reason;
  status = r.status;
  decided_by = r.decided_by;
  decided_at = r.decided_at;
  note = r.note;
}

-- `_row`
unfoldable pub row_of : String → Table → Option Gate
row_of gate_id t = elim (Dict.get t gate_id) [ none ↦ none | some r ↦ some (gate_of_row r) ]

-- The INSERT, which sets every column again where the id is there.
unfoldable pub open_row : String → String → Table → Table
open_row gate_id reason t = Dict.put t gate_id (record {
  id = gate_id;
  reason = reason;
  status = pending;
  decided_by = none;
  decided_at = none;
  note = "";
})

-- `require`
unfoldable pub require : String → String → Table → Gate × Table
unfolding row_of open_row
require gate_id reason t =
    let opened : Gate = record {
      id = gate_id;
      reason = reason;
      status = pending;
      decided_by = none;
      decided_at = none;
      note = "";
    } in
    elim (row_of gate_id t) [
      | none ↦ (opened, open_row gate_id reason t)
      | some existing ↦
          if is_pending existing.status then (existing, t) else (opened, open_row gate_id reason t)
    ]

-- The UPDATE: it sets four columns of the row, if there is one.
unfoldable pub update : String → Gate → String → Table → Table
update gate_id g note t = elim (Dict.get t gate_id) [
  | none ↦ t
  | some r ↦ Dict.put t gate_id (record r {
    status = g.status;
    decided_by = g.decided_by;
    decided_at = g.decided_at;
    note = note;
  })
]

-- The table after a decision; an exception leaves it as it is.
unfoldable pub record_decision : String → String → Decision → Table → Table
unfolding update
record_decision gate_id note (decided g) t = update gate_id g note t
record_decision gate_id note by_service t = t
record_decision gate_id note already_decided t = t
record_decision gate_id note not_open t = t

-- `decide`
unfoldable pub decide : String → Principal → Bool → String → ℕ → Table → Decision × Table
unfolding row_of decide_gate record_decision
decide gate_id p agreed note at t = elim (row_of gate_id t) [
  | none ↦ (not_open, t)
  | some gate ↦
      let outcome = decide_gate gate p agreed note at in
      (outcome, record_decision gate_id note outcome t)
]

-- `pending`
unfoldable pub pending_ids : Table → List String
pending_ids t =
    sort str_leb (map (λ (r : Row). r.id) (filter (λ r. is_pending r.status) (values t)))

-- `cleared`
unfoldable pub cleared : String → Table → Bool
unfolding row_of
cleared gate_id t = elim (row_of gate_id t) [ none ↦ false | some gate ↦ is_approved gate.status ]
