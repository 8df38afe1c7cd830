-- ===== src/A2a/Store.antt =====
-- `InMemoryA2AStore` of src/hallpass/a2a.py: the logs, the cursors and the presence.
pub mod Log
pub mod Cursors
pub mod Sqlite
use hallpass.Prelude.{
  String, ℕ, zero, suc, ◌+◌, max, Bool, true, false, List, [], ◌∷◌, ◌++◌, Option, none, some,
  string_eq, pair_eq, ◌==◌, ◌&&◌, if◌then◌else◌, ltb, leb, length, filter, take, map,
}
use hallpass.Prelude.Dict
use hallpass.Prelude.Dict.{Dict}
use hallpass.Prelude.Order.{sort, str_leb}

-- `StoredMessage`
pub record Stored : Type 0 where
  pub seq : ℕ
  pub sender : String
  pub body : String
  pub created_at : ℕ

pub record A2aStore : Type 0 where
  pub msgs : Dict String (List Stored)
  pub cursors : Dict (String × String) ℕ
  pub presence : Dict (String × String) ℕ

abbrev pub empty : A2aStore
empty = record { msgs = []; cursors = []; presence = [] }

-- `self._msgs.get(channel, [])`
unfoldable pub log_of : String → A2aStore → List Stored
log_of channel s = elim (Dict.get s.msgs channel) [ none ↦ [] | some log ↦ log ]

-- `append`: the new sequence number, and the store.
unfoldable pub append : String → String → String → ℕ → A2aStore → ℕ × A2aStore
unfolding log_of
append channel sender body created_at s =
    let log = log_of channel s in
    let seq = length log + 1 in
    let m : Stored = record { seq = seq; sender = sender; body = body; created_at = created_at } in
    (seq, record s { msgs = Dict.put s.msgs channel (log ++ m ∷ []) })

-- `read_after`
unfoldable pub read_after : String → ℕ → ℕ → A2aStore → List Stored
unfolding log_of
read_after channel after_seq limit s =
    take limit (filter (λ m. ltb after_seq m.seq) (log_of channel s))

-- `rows[-1][0]`, and `d` if there is no row.
unfoldable pub last_seq : ℕ → List Stored → ℕ
last_seq d [] = d
last_seq d (m ∷ ms) = last_seq m.seq ms

-- `head`
unfoldable pub head : String → A2aStore → ℕ
unfolding log_of last_seq
head channel s = last_seq 0 (log_of channel s)

-- `cursor`
unfoldable pub cursor : String → String → A2aStore → ℕ
cursor subject channel s = elim (Dict.get s.cursors (subject, channel)) [ none ↦ 0 | some n ↦ n ]

-- `advance_cursor`
unfoldable pub advance_cursor : String → String → ℕ → A2aStore → ℕ × A2aStore
unfolding cursor
advance_cursor subject channel up_to s =
    let position = max (cursor subject channel s) up_to in
    (position, record s { cursors = Dict.put s.cursors (subject, channel) position })

-- `touch_presence`
unfoldable pub touch_presence : String → String → ℕ → A2aStore → A2aStore
touch_presence channel subject at s = record s {
  presence = Dict.put s.presence (channel, subject) at;
}

-- `roster`
unfoldable pub roster : String → ℕ → A2aStore → List String
roster channel since s = sort str_leb (
    map (λ (e : (String × String) × ℕ). e.0.1)
      (filter (λ e. e.0.0 == channel && leb since e.1) s.presence))
