-- ===== src/HumanGate.antt =====
-- src/hallpass/humangate.py: the actions that wait for a human's decision, and the in-memory
-- ledger.
pub mod Decisions
pub mod Sqlite
use hallpass.Prelude.{
  String, ℕ, Bool, true, false, Option, none, some, List, [], string_eq, if◌then◌else◌, filter, map,
}
use hallpass.Prelude.Dict
use hallpass.Prelude.Dict.{Dict, values}
use hallpass.Prelude.Order.{sort, str_leb}
use hallpass.Identity.{Principal, is_service}

pub data Status : Type 0 where
  pending approved denied : Status

-- `Gate`
pub record Gate : Type 0 where
  pub id : String
  pub reason : String
  pub status : Status
  pub decided_by : Option String
  pub decided_at : Option ℕ
  pub note : String

abbrev pub is_pending : Status → Bool
is_pending pending = true
is_pending approved = false
is_pending denied = false

-- `Gate.cleared`, by the status
abbrev pub is_approved : Status → Bool
is_approved pending = false
is_approved approved = true
is_approved denied = false

-- `InMemoryHumanGateLedger`
abbrev pub Ledger : Type 0
Ledger = Dict String Gate

-- What `decide` returns or raises: a `HumanGateError` of either kind, or the `KeyError`.
pub data Decision : Type 0 where
  decided : Gate → Decision
  by_service already_decided not_open : Decision

-- `_decide`
unfoldable pub decide_gate : Gate → Principal → Bool → String → ℕ → Decision
decide_gate gate p agreed note at =
    let outcome : Gate = record {
      id = gate.id;
      reason = gate.reason;
      status = if agreed then approved else denied;
      decided_by = some p.subject;
      decided_at = some at;
      note = note;
    } in
    if is_service p
    then by_service
    else if is_pending gate.status
    then decided outcome
    else already_decided

-- `require`: a gate that is not pending is opened, again if it was decided.
unfoldable pub require : String → String → Ledger → Gate × Ledger
require gate_id reason l =
    let opened : Gate = record {
      id = gate_id;
      reason = reason;
      status = pending;
      decided_by = none;
      decided_at = none;
      note = "";
    } in
    elim (Dict.get l gate_id) [
      | none ↦ (opened, Dict.put l gate_id opened)
      | some existing ↦
          if is_pending existing.status then (existing, l) else (opened, Dict.put l gate_id opened)
    ]

-- The ledger after a decision.
unfoldable pub record_decision : String → Decision → Ledger → Ledger
record_decision gate_id (decided gate) l = Dict.put l gate_id gate
record_decision gate_id by_service l = l
record_decision gate_id already_decided l = l
record_decision gate_id not_open l = l

-- `decide`
unfoldable pub decide : String → Principal → Bool → String → ℕ → Ledger → Decision × Ledger
unfolding decide_gate record_decision
decide gate_id p agreed note at l = elim (Dict.get l gate_id) [
  | none ↦ (not_open, l)
  | some gate ↦
      let outcome = decide_gate gate p agreed note at in
      (outcome, record_decision gate_id outcome l)
]

-- `get`
unfoldable pub gate_of : String → Ledger → Option Gate
gate_of gate_id l = Dict.get l gate_id

-- `pending`
unfoldable pub pending_ids : Ledger → List String
pending_ids l =
    sort str_leb (map (λ (g : Gate). g.id) (filter (λ g. is_pending g.status) (values l)))

-- `cleared`
unfoldable pub cleared : String → Ledger → Bool
cleared gate_id l = elim (Dict.get l gate_id) [ none ↦ false | some gate ↦ is_approved gate.status ]
