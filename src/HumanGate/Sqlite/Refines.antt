-- ===== src/HumanGate/Sqlite/Refines.antt =====
-- The SQLite ledger of src/hallpass/humangate.py answers as the in-memory one does.
use hallpass.Prelude.{
  String, ℕ, ◌≡◌, refl, sym, ◌∙◌, ap, Bool, if◌then◌else◌, List, [], map, filter, Option, none,
  some, string_eq, arith, Bool-cases, Option-cases, inl, inr,
}
use hallpass.Prelude.Dict
use hallpass.Prelude.Dict.{Dict, values}
use hallpass.Prelude.Order.{sort, str_leb}
use hallpass.Prelude.Views.{
  map_values, map_option, values-map_values, get-map_values, put-map_values, filter-map, map-map,
}
use hallpass.Prelude.Simulation.{run_all, Any, every_call, Simulates, run_all-Simulates}
use hallpass.Identity.{Principal, is_service}
use hallpass.HumanGate.{
  Ledger, Gate, is_pending, is_approved, Decision, decided, by_service, already_decided, not_open,
  decide_gate, pending, approved, denied,
}
use hallpass.HumanGate as Memory
use hallpass.HumanGate.Sqlite.{
  Row, Table, gate_of_row, row_of, open_row, require, update, record_decision, decide, pending_ids,
  cleared,
}

abbrev pub seen : Table → Ledger
seen = map_values gate_of_row

row_of-seen : (gate_id : String) (t : Table) → row_of gate_id t ≡ Dict.get (seen t) gate_id
unfolding row_of
row_of-seen gate_id t = ground (arith, get-map_values gate_of_row t gate_id)

abbrev opened_row : String → String → Row
opened_row gate_id reason = record {
  id = gate_id;
  reason = reason;
  status = pending;
  decided_by = none;
  decided_at = none;
  note = "";
}

require-seen :
    (gate_id reason : String) (t : Table)
    → ((require gate_id reason t).0 ≡ (Memory.require gate_id reason (seen t)).0)
      × (seen (require gate_id reason t).1 ≡ (Memory.require gate_id reason (seen t)).1)
unfolding require Memory.require open_row row_of
require-seen gate_id reason t =
    let same = get-map_values gate_of_row t gate_id in
    let put = put-map_values gate_of_row t gate_id (opened_row gate_id reason) in
    elim (Option-cases (Dict.get t gate_id)) [
      | inl e ↦
          let e' = same ∙ ap (map_option gate_of_row) e in
          rw (e, require, row_of, e', Memory.require) (refl, put)
      | inr (r, e) ↦
          let e' = same ∙ ap (map_option gate_of_row) e in
          elim (Bool-cases (is_pending r.status)) [
            | inl waits ↦ rw (e, require, row_of, e', Memory.require, waits) (refl, refl)
            | inr over ↦ rw (e, require, row_of, e', Memory.require, over) (refl, put)
          ]
    ]

decide-seen :
    (gate_id note : String) (p : Principal) (agreed : Bool) (at : ℕ) (t : Table)
    → ((decide gate_id p agreed note at t).0 ≡ (Memory.decide gate_id p agreed note at (seen t)).0)
      × (seen (decide gate_id p agreed note at t).1
          ≡ (Memory.decide gate_id p agreed note at (seen t)).1)
unfolding decide Memory.decide decide_gate record_decision Memory.record_decision update row_of
decide-seen gate_id note p agreed at t =
    let same = get-map_values gate_of_row t gate_id in
    elim (Option-cases (Dict.get t gate_id)) [
      | inl e ↦
          let e' = same ∙ ap (map_option gate_of_row) e in
          rw (e, decide, row_of, e', Memory.decide) (refl, refl)
      | inr (r, e) ↦
          let e' = same ∙ ap (map_option gate_of_row) e in
          elim (Bool-cases (is_service p)) [
            | inl service ↦
                rw (e, decide, row_of, e', Memory.decide, decide_gate, service) (refl, refl)
            | inr human ↦ elim (Bool-cases (is_pending r.status)) [
              | inr over ↦
                  rw (e, decide, row_of, e', Memory.decide, decide_gate, human, over) (refl, refl)
              | inl waits ↦
                  rw (e, decide, row_of, e', Memory.decide, decide_gate, human, waits, update, e)
                    (
                      refl,
                      put-map_values gate_of_row t gate_id (record r {
                        status = if agreed then approved else denied;
                        decided_by = some p.subject;
                        decided_at = some at;
                        note = note;
                      }),
                    )
            ]
          ]
    ]

pending_ids-seen : (t : Table) → pending_ids t ≡ Memory.pending_ids (seen t)
unfolding pending_ids Memory.pending_ids
pending_ids-seen t = sym (
    ap (λ gs. sort str_leb (map (λ (g : Gate). g.id) (filter (λ g. is_pending g.status) gs)))
      (values-map_values gate_of_row t)
    ∙ ap (λ gs. sort str_leb (map (λ (g : Gate). g.id) gs))
        (filter-map gate_of_row (λ g. is_pending g.status) (values t))
    ∙ ap (sort str_leb) (
        map-map (λ (g : Gate). g.id) gate_of_row
          (filter (λ (r : Row). is_pending r.status) (values t))))

cleared-seen : (gate_id : String) (t : Table) → cleared gate_id t ≡ Memory.cleared gate_id (seen t)
unfolding cleared Memory.cleared row_of
cleared-seen gate_id t = ground (arith, get-map_values gate_of_row t gate_id)

-- The calls on a ledger; a decision with the time of its call.
pub data Call : Type 0 where
  require_call : String → String → Call
  decide_call : String → Principal → Bool → String → ℕ → Call
  get_call : String → Call
  pending_call : Call
  cleared_call : String → Call

pub data Reply : Type 0 where
  required : Gate → Reply
  answered : Decision → Reply
  got : Option Gate → Reply
  waiting : List String → Reply
  tested : Bool → Reply

abbrev pub on_memory : Call → Ledger → Reply × Ledger
on_memory (require_call gate_id reason) l =
    let r = Memory.require gate_id reason l in (required r.0, r.1)
on_memory (decide_call gate_id p agreed note at) l =
    let r = Memory.decide gate_id p agreed note at l in (answered r.0, r.1)
on_memory (get_call gate_id) l = (got (Memory.gate_of gate_id l), l)
on_memory pending_call l = (waiting (Memory.pending_ids l), l)
on_memory (cleared_call gate_id) l = (tested (Memory.cleared gate_id l), l)

abbrev pub on_sqlite : Call → Table → Reply × Table
on_sqlite (require_call gate_id reason) t = let r = require gate_id reason t in (required r.0, r.1)
on_sqlite (decide_call gate_id p agreed note at) t =
    let r = decide gate_id p agreed note at t in (answered r.0, r.1)
on_sqlite (get_call gate_id) t = (got (row_of gate_id t), t)
on_sqlite pending_call t = (waiting (pending_ids t), t)
on_sqlite (cleared_call gate_id) t = (tested (cleared gate_id t), t)

sqlite-Simulates : Simulates Any (λ _. Unit {0}) seen on_memory on_sqlite
unfolding Memory.gate_of
sqlite-Simulates (require_call gate_id reason) t w i =
    let (a, b) = require-seen gate_id reason t in (ap required a, b, tt)
sqlite-Simulates (decide_call gate_id p agreed note at) t w i =
    let (a, b) = decide-seen gate_id note p agreed at t in (ap answered a, b, tt)
sqlite-Simulates (get_call gate_id) t w i = (ap got (row_of-seen gate_id t), refl, tt)
sqlite-Simulates pending_call t w i = (ap waiting (pending_ids-seen t), refl, tt)
sqlite-Simulates (cleared_call gate_id) t w i = (ap tested (cleared-seen gate_id t), refl, tt)

-- On any history of calls from a new ledger, the SQLite ledger gives the answers of the in-memory
-- one, call by call: the gates that are opened, each decision or refusal, the pending ids, and which
-- gates are cleared.
pub sqlite_gates :
    (calls : List Call) → (run_all on_sqlite calls []).0 ≡ (run_all on_memory calls []).0
sqlite_gates calls =
    (run_all-Simulates Any (λ _. Unit {0}) seen on_memory on_sqlite sqlite-Simulates calls []
      (every_call calls) tt).0
