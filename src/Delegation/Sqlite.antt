-- ===== src/Delegation/Sqlite.antt =====
-- `SqliteDelegationLedger` of src/hallpass/delegation.py: the rows of the table `delegations`, by
-- their primary key, each statement as it acts on them.
pub mod Refines
use hallpass.Prelude.{
  String, ℕ, Bool, true, false, ◌&&◌, if◌then◌else◌, ltb, List, [], ◌∷◌, ◌++◌, map, filter, Option,
  none, some, string_eq, pair_eq, ◌==◌,
}
use hallpass.Prelude.Dict
use hallpass.Prelude.Dict.{Dict, values}
use hallpass.Prelude.Order.{sort, str_leb}
use hallpass.Prelude.Words.{join, words}
use hallpass.Delegation.{
  Delegation, bounded, over, bounded_by, expiry, new_record, Delegated, delegated, refused,
}

-- A row; `none` is NULL.
pub record Row : Type 0 where
  pub grantor : String
  pub grantee : String
  pub scopes : String
  pub granted_at : ℕ
  pub expires_at : Option ℕ
  pub note : String

abbrev pub Table : Type 0
Table = Dict (String × String) Row

-- `expires_at IS NULL OR expires_at > ?`
abbrev pub is_alive : Option ℕ → ℕ → Bool
is_alive none now = true
is_alive (some at) now = ltb now at

-- The values of the INSERT.
abbrev pub row_of : Delegation → Row
row_of d = record {
  grantor = d.grantor;
  grantee = d.grantee;
  scopes = join d.scopes;
  granted_at = d.granted_at;
  expires_at = d.expires_at;
  note = d.note;
}

-- `delegate`
unfoldable pub delegate :
    String → String → List String → List String → Option ℕ → String → ℕ → Table → Delegated × Table
unfolding bounded_by
delegate grantor grantee scopes grantor_scopes ttl note now t =
    elim (bounded_by scopes grantor_scopes) [
      | over beyond ↦ (refused beyond, t)
      | bounded wanted ↦
          let d = new_record grantor grantee wanted ttl note now in
          (delegated d, Dict.put t (grantor, grantee) (row_of d))
    ]

-- `_active_rows`
unfoldable pub active_rows : String → ℕ → Table → List Row
active_rows grantee now t =
    sort (λ (a b : Row). str_leb a.grantor b.grantor)
      (filter (λ r. r.grantee == grantee && is_alive r.expires_at now) (values t))

-- The loop of `active_scopes`.
unfoldable pub all_words : List Row → List String
all_words [] = []
all_words (r ∷ rows) = words r.scopes ++ all_words rows

-- `active_scopes`
unfoldable pub active_scopes : String → ℕ → Table → List String
unfolding active_rows all_words
active_scopes grantee now t = all_words (active_rows grantee now t)

-- The `Delegation` of a row that was asked for by its grantee.
abbrev pub delegation_of : String → Row → Delegation
delegation_of grantee r = record {
  grantor = r.grantor;
  grantee = grantee;
  scopes = words r.scopes;
  granted_at = r.granted_at;
  expires_at = r.expires_at;
  note = r.note;
}

-- `granted`
unfoldable pub granted : String → ℕ → Table → List Delegation
unfolding active_rows
granted grantee now t = map (delegation_of grantee) (active_rows grantee now t)

-- `revoke`
unfoldable pub revoke : String → String → Table → Bool × Table
revoke grantor grantee t = (Dict.has t (grantor, grantee), Dict.remove t (grantor, grantee))
