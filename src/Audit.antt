-- ===== src/Audit.antt =====
-- src/hallpass/audit.py: the events that a decision leaves, and the bounded in-memory sink.
pub mod Bounded
pub mod Sqlite
use hallpass.Prelude.{
  String, ℕ, ◌+◌, Option, none, List, [], ◌∷◌, ◌++◌, if◌then◌else◌, ltb, length, drop,
}

-- The reason of an event: a text, or `hits=<n>`.
pub data Reason : Type 0 where
  text : String → Reason
  hits : ℕ → Reason

-- `AuditEvent`
pub record AuditEvent : Type 0 where
  pub subject : String
  pub action : String
  pub decision : String
  pub tool : Option String
  pub reason : Reason
  pub at : ℕ
  pub duration : Option ℕ

-- The subject of a call whose token never verified.
abbrev pub unverified : String
unverified = "<unverified>"

-- `InMemoryAuditLog`
pub record MemoryLog : Type 0 where
  pub capacity : ℕ
  pub events : List AuditEvent

-- `InMemoryAuditLog.record`
unfoldable pub append : AuditEvent → MemoryLog → MemoryLog
append event log =
    let events = log.events ++ event ∷ [] in
    record log { events = if ltb log.capacity (length events) then drop 1 events else events }
