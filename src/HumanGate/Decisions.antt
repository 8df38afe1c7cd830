-- ===== src/HumanGate/Decisions.antt =====
-- Who can have cleared a gate of src/hallpass/humangate.py.
use mathlib.Core.Path.{ap₂}
use hallpass.Prelude.{
  String, ℕ, ◌≡◌, ◌⊎◌, inl, inr, Bool, true, false, none, some, List, [], ◌∷◌, In, string_eq, arith,
  if◌then◌else◌, eq_iff, Option-cases,
}
use hallpass.Prelude.Dict
use hallpass.Prelude.Dict.{get-put}
use hallpass.Identity.{Principal, is_service}
use hallpass.HumanGate.{
  Ledger, pending, approved, denied, decide_gate, require, record_decision, decide, cleared,
}

-- The calls that change a ledger.
pub data Call : Type 0 where
  require_call : String → String → Call
  decide_call : String → Principal → Bool → String → ℕ → Call

abbrev pub apply : Call → Ledger → Ledger
apply (require_call gate_id reason) l = (require gate_id reason l).1
apply (decide_call gate_id p agreed note at) l = (decide gate_id p agreed note at l).1

-- The ledger after these calls on a new one, the last call first.
abbrev pub after_calls : List Call → Ledger
after_calls [] = []
after_calls (c ∷ calls) = apply c (after_calls calls)

cleared-require :
    (gate_id id reason : String) (l : Ledger)
    → cleared id (require gate_id reason l).1 ≡ true
    → cleared id l ≡ true
unfolding cleared require
cleared-require gate_id id reason l h = elim (Option-cases (Dict.get l gate_id)) [
  | inl e ↦ ground (
    arith,
    get-put l gate_id id (record {
      id = gate_id;
      reason = reason;
      status = pending;
      decided_by = none;
      decided_at = none;
      note = "";
    }),
  )
  | inr (g, e) ↦ ground (
    arith,
    get-put l gate_id id (record {
      id = gate_id;
      reason = reason;
      status = pending;
      decided_by = none;
      decided_at = none;
      note = "";
    }),
  )
]

cleared-decide :
    (gate_id id note : String) (p : Principal) (agreed : Bool) (at : ℕ) (l : Ledger)
    → cleared id (decide gate_id p agreed note at l).1 ≡ true
    → (cleared id l ≡ true) ⊎ ((gate_id ≡ id) × (agreed ≡ true) × (is_service p ≡ false))
unfolding cleared decide decide_gate record_decision
cleared-decide gate_id id note p agreed at l h = elim (Option-cases (Dict.get l gate_id)) [
  | inl e ↦ inl (ground arith)
  | inr (g, e) ↦ ground (
    arith,
    get-put l gate_id id (record {
      id = g.id;
      reason = g.reason;
      status = if agreed then approved else denied;
      decided_by = some p.subject;
      decided_at = some at;
      note = note;
    }),
    eq_iff gate_id id,
  )
]

-- However the calls on a ledger went, a gate that is cleared was approved by a principal that is
-- not a service: no sequence of calls by agents clears one.
pub cleared_by_human :
    (calls : List Call) (id : String)
    → cleared id (after_calls calls) ≡ true
    → (p : Principal) × (note : String) × (at : ℕ) × In (decide_call id p true note at) calls
      × (is_service p ≡ false)
cleared_by_human [] id h = absurd (unfold cleared Dict.get in ground arith)
cleared_by_human (require_call gate_id reason ∷ calls) id h =
    let (p, note, at, m, human) =
      cleared_by_human calls id (cleared-require gate_id id reason (after_calls calls) h) in
    (p, note, at, inr m, human)
cleared_by_human (decide_call gate_id p agreed note at ∷ calls) id h =
    elim (cleared-decide gate_id id note p agreed at (after_calls calls) h) [
      | inl before ↦
          let (q, note', at', m, human) = cleared_by_human calls id before in
          (q, note', at', inr m, human)
      | inr (same, granted, human) ↦
          (p, note, at, inl (ap₂ (λ i b. decide_call i p b note at) same granted), human)
    ]
