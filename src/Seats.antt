-- ===== src/Seats.antt =====
-- src/hallpass/seats.py: who holds a role on a channel, until someone binds it again; the in-memory
-- ledger.
pub mod Sqlite
use hallpass.Prelude.{
  String, ℕ, Bool, true, false, ◌&&◌, ◌||◌, not, List, [], ◌∷◌, filter, Option, none, some,
  string_eq, pair_eq, ◌==◌,
}
use hallpass.Prelude.Dict
use hallpass.Prelude.Dict.{Dict, values}
use hallpass.Prelude.Order.{sort, str_leb}

-- `Seat`; a time is a whole number of one unit.
pub record Seat : Type 0 where
  pub channel : String
  pub role : String
  pub subject : String
  pub bound_at : ℕ

-- `InMemorySeatLedger`
abbrev pub Ledger : Type 0
Ledger = Dict (String × String) Seat

-- `bind`
unfoldable pub bind : String → String → String → ℕ → Ledger → Seat × Ledger
bind channel role subject at l =
    let seat : Seat = record { channel = channel; role = role; subject = subject; bound_at = at } in
    (seat, Dict.put l (channel, role) seat)

-- `holder`
unfoldable pub holder : String → String → Ledger → Option String
holder channel role l = elim (Dict.get l (channel, role)) [
  | none ↦ none
  | some seat ↦ some seat.subject
]

-- `unbind`
unfoldable pub unbind : String → String → Ledger → Bool × Ledger
unbind channel role l = (Dict.has l (channel, role), Dict.remove l (channel, role))

-- `seats`
unfoldable pub seats : String → Ledger → List Seat
seats channel l =
    sort (λ (a b : Seat). str_leb a.role b.role) (values (filter (λ e. e.0.0 == channel) l))

-- `(s.channel, s.role) <= (t.channel, t.role)`
abbrev pub seat_leb : Seat → Seat → Bool
seat_leb a b =
    not (a.channel == b.channel) && str_leb a.channel b.channel
    || a.channel == b.channel && str_leb a.role b.role

-- `held_by`
unfoldable pub held_by : String → Ledger → List Seat
held_by subject l = sort seat_leb (filter (λ (s : Seat). s.subject == subject) (values l))
