-- ===== src/Approvals.antt =====
-- src/hallpass/approvals.py: sign-offs by someone other than the author; the in-memory ledger and
-- the check of a scope set.
pub mod Signed
pub mod Sqlite
pub mod Duties
use Prim.Native.Char.{Char, code}
use hallpass.Prelude.{
  String, ℕ, Bool, true, false, if◌then◌else◌, leb, length, List, [], ◌∷◌, elem, filter, Option,
  none, some, string_eq, nat_eq, ◌==◌,
}
use hallpass.Prelude.Dict
use hallpass.Prelude.Dict.{Dict, keys, values}
use hallpass.Prelude.Order.{sort, str_leb}
use hallpass.Prelude.Text.{chars, text}

-- `Approval`; a time is a whole number of one unit.
pub record Approval : Type 0 where
  pub artifact : String
  pub approver : String
  pub approved_at : ℕ
  pub note : String

-- What follows a prefix: `none` where `x.startswith(prefix)` is false, else `x[len(prefix):]`.
unfoldable pub after_prefix : List Char → List Char → Option (List Char)
after_prefix [] cs = some cs
after_prefix (p ∷ ps) [] = none
after_prefix (p ∷ ps) (c ∷ cs) =
    let rest = after_prefix ps cs in if code p == code c then rest else none

-- `{x[len(prefix):] for x in s if x.startswith(prefix)}`
unfoldable pub stripped : String → List String → List String
unfolding after_prefix
stripped prefix [] = []
stripped prefix (x ∷ xs) = elim (after_prefix (chars prefix) (chars x)) [
  | none ↦ stripped prefix xs
  | some rest ↦ text rest ∷ stripped prefix xs
]

-- `separation_of_duties`
unfoldable pub separation_of_duties : String → String → List String → List String
unfolding stripped
separation_of_duties author_prefix approve_prefix scopes =
    filter (λ a. elem a (stripped approve_prefix scopes)) (stripped author_prefix scopes)

-- `InMemoryApprovalLedger`
abbrev pub Ledger : Type 0
Ledger = Dict String (Dict String Approval)

-- `self._by_artifact.get(artifact, {})`
unfoldable pub here : String → Ledger → Dict String Approval
here artifact l = elim (Dict.get l artifact) [ none ↦ [] | some signed ↦ signed ]

-- `record`: `none` stands for the `ApprovalError`.
unfoldable pub sign : String → String → String → String → ℕ → Ledger → Option Approval × Ledger
unfolding here
sign artifact approver author note now l =
    let approval : Approval = record {
      artifact = artifact;
      approver = approver;
      approved_at = now;
      note = note;
    } in
    if approver == author
    then (none, l)
    else (some approval, Dict.put l artifact (Dict.put (here artifact l) approver approval))

-- `approvers`
unfoldable pub approvers : String → Ledger → List String
unfolding here
approvers artifact l = sort str_leb (keys (here artifact l))

-- `approvals`
unfoldable pub approvals : String → Ledger → List Approval
unfolding here
approvals artifact l =
    sort (λ (a b : Approval). str_leb a.approver b.approver) (values (here artifact l))

-- `approved`
unfoldable pub approved : String → ℕ → Ledger → Bool
unfolding here
approved artifact min_approvals l = leb min_approvals (length (here artifact l))
