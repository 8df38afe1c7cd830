-- ===== src/Revocation/Sqlite.antt =====
-- `SqliteRevocationList` of src/hallpass/revocation.py: the rows of the table, by their primary
-- key.
use hallpass.Prelude.{String, ℕ, ◌∙◌, Bool, List, none, some, string_eq, arith, is_some}
use hallpass.Prelude.Dict
use hallpass.Prelude.Dict.{Dict, keys, get-put, get-remove, elem-keys}
use hallpass.Prelude.Order.{sort, str_leb, elem-sort}
use hallpass.Revocation.{SourceOps, SourceLaws}

-- A row without its key.
pub record Row : Type 0 where
  pub reason : String
  pub at : ℕ

abbrev pub Table : Type 0
Table = Dict String Row

-- `INSERT … ON CONFLICT(subject) DO UPDATE SET reason`, which keeps the first time.
unfoldable pub revoke : String → String → ℕ → Table → Table
revoke subject reason now rows = Dict.put rows subject (elim (Dict.get rows subject) [
  | none ↦ record { reason = reason; at = now }
  | some row ↦ record { reason = reason; at = row.at }
])

unfoldable pub restore : String → Table → Table
restore subject rows = Dict.remove rows subject

unfoldable pub is_revoked : String → Table → Bool
is_revoked subject rows = is_some (Dict.get rows subject)

unfoldable pub revoked : Table → List String
revoked rows = sort str_leb (keys rows)

unfoldable pub sqlite_ops : SourceOps Table
unfolding revoke restore is_revoked revoked
sqlite_ops = record {
  revoke = revoke;
  restore = restore;
  is_revoked = is_revoked;
  revoked = revoked;
}

-- The SQLite list is a source: its list and its test agree, a revocation reaches its subject and
-- no other, and so does a restoration.
pub sqlite-SourceLaws : SourceLaws sqlite_ops
unfolding sqlite_ops
sqlite-SourceLaws = record {
  listed = λ t rows.
      elem-sort str_leb t (keys rows) ∙ elem-keys rows t ∙ (unfold is_revoked in ground arith);
  revokes = λ s t reason at rows.
      (unfold is_revoked revoke in
        ground (
          arith,
          get-put rows s t (elim (Dict.get rows s) [
            | none ↦ record { reason = reason; at = at }
            | some row ↦ record { reason = reason; at = row.at }
          ]),
        ));
  restores = λ s t rows. (unfold is_revoked restore in ground (arith, get-remove rows s t));
}
