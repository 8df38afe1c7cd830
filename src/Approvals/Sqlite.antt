-- ===== src/Approvals/Sqlite.antt =====
-- `SqliteApprovalLedger` of src/hallpass/approvals.py: the rows of the table `approvals`, by their
-- primary key, each statement as it acts on them.
pub mod Refines
use hallpass.Prelude.{
  String, ℕ, Bool, if◌then◌else◌, leb, length, List, map, filter, Option, none, some, string_eq,
  pair_eq, ◌==◌,
}
use hallpass.Prelude.Dict
use hallpass.Prelude.Dict.{Dict, values}
use hallpass.Prelude.Order.{sort, str_leb}
use hallpass.Approvals.{Approval}

pub record Row : Type 0 where
  pub artifact : String
  pub approver : String
  pub approved_at : ℕ
  pub note : String

abbrev pub Table : Type 0
Table = Dict (String × String) Row

-- `record`: `none` stands for the `ApprovalError`.
unfoldable pub sign : String → String → String → String → ℕ → Table → Option Approval × Table
sign artifact approver author note now t =
    let row : Row = record {
      artifact = artifact;
      approver = approver;
      approved_at = now;
      note = note;
    } in
    let approval : Approval = record {
      artifact = artifact;
      approver = approver;
      approved_at = now;
      note = note;
    } in
    if approver == author then (none, t) else (some approval, Dict.put t (artifact, approver) row)

-- `WHERE artifact = ?`
unfoldable pub rows_of : String → Table → List Row
rows_of artifact t = filter (λ (r : Row). r.artifact == artifact) (values t)

-- `approvers`
unfoldable pub approvers : String → Table → List String
unfolding rows_of
approvers artifact t = sort str_leb (map (λ (r : Row). r.approver) (rows_of artifact t))

-- The `Approval` of a row that was asked for by its artifact.
abbrev pub approval_of : String → Row → Approval
approval_of artifact r = record {
  artifact = artifact;
  approver = r.approver;
  approved_at = r.approved_at;
  note = r.note;
}

-- `approvals`
unfoldable pub approvals : String → Table → List Approval
unfolding rows_of
approvals artifact t =
    map (approval_of artifact)
      (sort (λ (a b : Row). str_leb a.approver b.approver) (rows_of artifact t))

-- `approved`
unfoldable pub approved : String → ℕ → Table → Bool
unfolding rows_of
approved artifact min_approvals t = leb min_approvals (length (rows_of artifact t))
