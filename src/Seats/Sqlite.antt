-- ===== src/Seats/Sqlite.antt =====
-- `SqliteSeatLedger` of src/hallpass/seats.py: the rows of the table `seats`, by their primary key,
-- each statement as it acts on them.
pub mod Refines
use hallpass.Prelude.{
  String, ℕ, Bool, ◌&&◌, ◌||◌, not, List, map, filter, Option, none, some, string_eq, pair_eq, ◌==◌,
}
use hallpass.Prelude.Dict
use hallpass.Prelude.Dict.{Dict, values}
use hallpass.Prelude.Order.{sort, str_leb}
use hallpass.Seats.{Seat}

pub record Row : Type 0 where
  pub channel : String
  pub role : String
  pub subject : String
  pub bound_at : ℕ

abbrev pub Table : Type 0
Table = Dict (String × String) Row

-- `bind`
unfoldable pub bind : String → String → String → ℕ → Table → Seat × Table
bind channel role subject at t =
    let row : Row = record { channel = channel; role = role; subject = subject; bound_at = at } in
    (
      record { channel = channel; role = role; subject = subject; bound_at = at },
      Dict.put t (channel, role) row,
    )

-- `holder`
unfoldable pub holder : String → String → Table → Option String
holder channel role t = elim (Dict.get t (channel, role)) [
  | none ↦ none
  | some row ↦ some row.subject
]

-- `unbind`
unfoldable pub unbind : String → String → Table → Bool × Table
unbind channel role t = (Dict.has t (channel, role), Dict.remove t (channel, role))

-- The `Seat` of a row that was asked for by its channel.
abbrev pub seat_on : String → Row → Seat
seat_on channel r = record {
  channel = channel;
  role = r.role;
  subject = r.subject;
  bound_at = r.bound_at;
}

-- `seats`
unfoldable pub seats : String → Table → List Seat
seats channel t =
    map (seat_on channel)
      (sort (λ (a b : Row). str_leb a.role b.role) (filter (λ r. r.channel == channel) (values t)))

-- The `Seat` of a row that was asked for by its subject.
abbrev pub seat_of : String → Row → Seat
seat_of subject r = record {
  channel = r.channel;
  role = r.role;
  subject = subject;
  bound_at = r.bound_at;
}

-- `ORDER BY channel, role`
abbrev pub row_leb : Row → Row → Bool
row_leb a b =
    not (a.channel == b.channel) && str_leb a.channel b.channel
    || a.channel == b.channel && str_leb a.role b.role

-- `held_by`
unfoldable pub held_by : String → Table → List Seat
held_by subject t =
    map (seat_of subject) (sort row_leb (filter (λ (r : Row). r.subject == subject) (values t)))
