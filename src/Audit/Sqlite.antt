-- ===== src/Audit/Sqlite.antt =====
-- `SqliteAuditLog` of src/hallpass/audit.py: the rows of the table `audit` in the order of their ids,
-- each statement as it acts on them. A row is kept as its event.
pub mod Newest
use hallpass.Prelude.{
  String, ℕ, Bool, true, false, ◌&&◌, leb, List, [], ◌∷◌, ◌++◌, filter, take, Option, none, some,
  string_eq, ◌==◌,
}
use hallpass.Audit.{AuditEvent}

abbrev pub Table : Type 0
Table = List AuditEvent

-- `record`: the id that the table draws is above every other.
unfoldable pub append : AuditEvent → Table → Table
append event rows = rows ++ event ∷ []

-- The arguments of `query` that filter.
pub record Query : Type 0 where
  pub subject : Option String
  pub tool : Option String
  pub decision : Option String
  pub action : Option String
  pub since : Option ℕ

-- `column = ?`, where the value is given
abbrev pub asked : Option String → String → Bool
asked none column = true
asked (some value) column = column == value

-- The same for a column that may be NULL.
abbrev pub asked_nullable : Option String → Option String → Bool
asked_nullable none column = true
asked_nullable (some value) none = false
asked_nullable (some value) (some column) = column == value

-- `at >= ?`, where a time is given
abbrev pub is_since : Option ℕ → ℕ → Bool
is_since none at = true
is_since (some from) at = leb from at

-- The WHERE clause.
unfoldable pub matches : Query → AuditEvent → Bool
matches q e =
    asked q.subject e.subject
    && asked_nullable q.tool e.tool
    && asked q.decision e.decision
    && asked q.action e.action
    && is_since q.since e.at

-- `ORDER BY id DESC`
unfoldable pub newest_first : Table → Table
newest_first [] = []
newest_first (e ∷ rows) = newest_first rows ++ e ∷ []

-- `query`; a limit below zero counts as zero.
unfoldable pub query : Query → ℕ → Table → List AuditEvent
unfolding matches newest_first
query q limit rows = take limit (newest_first (filter (matches q) rows))
