-- ===== src/A2a/Store/Sqlite.antt =====
-- `SqliteA2AStore` of src/hallpass/a2a.py: the rows of its three tables in the order of insertion,
-- each statement as it acts on them.
pub mod Agrees
pub mod Refines
use hallpass.Prelude.{
  String, ℕ, suc, max, ◌+◌, Bool, List, [], ◌∷◌, ◌++◌, Option, none, some, string_eq, pair_eq, ◌==◌,
  ◌&&◌, if◌then◌else◌, ltb, leb, filter, take, map,
}
use hallpass.Prelude.Dict
use hallpass.Prelude.Dict.{Dict}
use hallpass.Prelude.Order.{sort, str_leb}
use hallpass.A2a.Store.{Stored}

-- A row of `a2a_messages`.
pub record Row : Type 0 where
  pub channel : String
  pub seq : ℕ
  pub sender : String
  pub body : String
  pub created_at : ℕ

-- The tables `a2a_messages`, `a2a_cursors` and `a2a_presence`.
pub record Tables : Type 0 where
  pub messages : List Row
  pub cursors : Dict (String × String) ℕ
  pub presence : Dict (String × String) ℕ

-- `COALESCE(MAX(seq), 0) … WHERE channel = ?`
unfoldable pub max_seq : String → List Row → ℕ
max_seq channel [] = 0
max_seq channel (r ∷ rows) =
    let rest = max_seq channel rows in if r.channel == channel then max r.seq rest else rest

-- `append`: the new sequence number, and the tables.
unfoldable pub append : String → String → String → ℕ → Tables → ℕ × Tables
unfolding max_seq
append channel sender body created_at t =
    let seq = max_seq channel t.messages + 1 in
    let row : Row = record {
      channel = channel;
      seq = seq;
      sender = sender;
      body = body;
      created_at = created_at;
    } in
    (seq, record t { messages = t.messages ++ row ∷ [] })

-- The columns that `read_after` selects.
abbrev pub stored : Row → Stored
stored r = record { seq = r.seq; sender = r.sender; body = r.body; created_at = r.created_at }

-- `read_after`
unfoldable pub read_after : String → ℕ → ℕ → Tables → List Stored
read_after channel after_seq limit t = map stored (
    take limit (
      sort (λ (a b : Row). leb a.seq b.seq)
        (filter (λ r. r.channel == channel && ltb after_seq r.seq) t.messages)))

-- `head`
unfoldable pub head : String → Tables → ℕ
unfolding max_seq
head channel t = max_seq channel t.messages

-- `cursor`
unfoldable pub cursor : String → String → Tables → ℕ
cursor subject channel t = elim (Dict.get t.cursors (subject, channel)) [ none ↦ 0 | some n ↦ n ]

-- `MAX(acked_seq, excluded.acked_seq)` on the row that is there, or the value of a new one.
abbrev pub upserted : Option ℕ → ℕ → ℕ
upserted none up_to = up_to
upserted (some acked) up_to = max acked up_to

-- `advance_cursor`
unfoldable pub advance_cursor : String → String → ℕ → Tables → ℕ × Tables
advance_cursor subject channel up_to t =
    let position = upserted (Dict.get t.cursors (subject, channel)) up_to in
    (position, record t { cursors = Dict.put t.cursors (subject, channel) position })

-- `touch_presence`
unfoldable pub touch_presence : String → String → ℕ → Tables → Tables
touch_presence channel subject at t = record t {
  presence = Dict.put t.presence (channel, subject) at;
}

-- `roster`
unfoldable pub roster : String → ℕ → Tables → List String
roster channel since t = sort str_leb (
    map (λ (e : (String × String) × ℕ). e.0.1)
      (filter (λ e. e.0.0 == channel && leb since e.1) t.presence))
