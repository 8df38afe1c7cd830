-- ===== src/Seats/Sqlite/Refines.antt =====
-- The SQLite ledger of src/hallpass/seats.py answers as the in-memory one does.
use hallpass.Prelude.{
  String, ℕ, ◌≡◌, refl, sym, ◌∙◌, ap, Bool, List, [], map, filter, In, In-filter, Option, string_eq,
  pair_eq, ◌==◌, arith,
}
use hallpass.Prelude.Dict.{values, Each, Each-put, Each-remove}
use hallpass.Prelude.Order.{sort, str_leb, In-sort}
use hallpass.Prelude.Views.{
  map_values, values-map_values, get-map_values, has-map_values, put-map_values, remove-map_values,
  filter-map, filter-map_values, sort-map, values-filter, Each-map, map-In,
}
use hallpass.Prelude.Simulation.{run_all, Any, every_call, Simulates, run_all-Simulates}
use hallpass.Seats.{Seat, Ledger, seat_leb}
use hallpass.Seats as Memory
use hallpass.Seats.Sqlite.{
  Row, Table, bind, holder, unbind, seats, held_by, seat_on, seat_of, row_leb,
}

abbrev pub seen_row : Row → Seat
seen_row r = seat_on r.channel r

abbrev pub seen : Table → Ledger
seen = map_values seen_row

-- A row stands under its own key.
abbrev pub Keyed : String × String → Row → Type 0
Keyed k r = (r.channel, r.role) ≡ k

holder-seen :
    (channel role : String) (t : Table)
    → holder channel role t ≡ Memory.holder channel role (seen t)
unfolding holder Memory.holder
holder-seen channel role t = ground (arith, get-map_values seen_row t (channel, role))

seats-seen :
    (channel : String) (t : Table) → Each Keyed t → seats channel t ≡ Memory.seats channel (seen t)
unfolding seats Memory.seats
seats-seen channel t k =
    let le = λ (a b : Seat). str_leb a.role b.role in
    let here = λ (r : Row). r.channel == channel in
    map-In (seat_on channel) seen_row
      (sort (λ (a b : Row). str_leb a.role b.role) (filter here (values t))) same
    ∙ sym (sort-map seen_row le (filter here (values t)))
    ∙ ap (λ rs. sort le (map seen_row rs))
        (sym (
          values-filter (λ e. e.0.0 == channel) here t
            (Each-map Keyed (λ j r. (j.0 == channel) ≡ here r) t
              (λ j r e. ap (λ (i : String × String). i.0 == channel) (sym e)) k)))
    ∙ ap (sort le) (sym (values-map_values seen_row (filter (λ e. e.0.0 == channel) t)))
    ∙ ap (λ l. sort le (values l)) (sym (filter-map_values seen_row (λ e. e.0.0 == channel) t))
  where
    same :
        (r : Row)
        → In r (
            sort
              (λ (a b : Row). str_leb a.role b.role)
              (filter (λ (r : Row). r.channel == channel) (values t)))
        → seat_on channel r ≡ seen_row r
    same r m =
        let chosen =
          (In-filter (λ (r : Row). r.channel == channel) r (values t)
            ((In-sort (λ (a b : Row). str_leb a.role b.role) r
                (filter (λ (r : Row). r.channel == channel) (values t))).0
              m)).1 in
        let e : channel ≡ r.channel = ground (arith, string_eq.beq_iff r.channel channel) in
        ap (λ c. seat_on c r) e

held_by-seen : (subject : String) (t : Table) → held_by subject t ≡ Memory.held_by subject (seen t)
unfolding held_by Memory.held_by
held_by-seen subject t =
    let mine = λ (r : Row). r.subject == subject in
    map-In (seat_of subject) seen_row (sort row_leb (filter mine (values t))) same
    ∙ sym (sort-map seen_row seat_leb (filter mine (values t)))
    ∙ ap (sort seat_leb) (sym (filter-map seen_row (λ s. s.subject == subject) (values t)))
    ∙ ap (λ ss. sort seat_leb (filter (λ (s : Seat). s.subject == subject) ss))
        (sym (values-map_values seen_row t))
  where
    same :
        (r : Row)
        → In r (sort row_leb (filter (λ (r : Row). r.subject == subject) (values t)))
        → seat_of subject r ≡ seen_row r
    same r m =
        let chosen =
          (In-filter (λ (r : Row). r.subject == subject) r (values t)
            ((In-sort row_leb r (filter (λ (r : Row). r.subject == subject) (values t))).0 m)).1 in
        let e : subject ≡ r.subject = ground (arith, string_eq.beq_iff r.subject subject) in
        ap (λ s. seat_of s r) e

-- The calls on a ledger; a bind has the time of its call.
pub data Call : Type 0 where
  bind_call : String → String → String → ℕ → Call
  unbind_call : String → String → Call
  holder_call : String → String → Call
  seats_call : String → Call
  held_by_call : String → Call

pub data Reply : Type 0 where
  bound : Seat → Reply
  unbound : Bool → Reply
  held : Option String → Reply
  listed : List Seat → Reply

abbrev pub on_memory : Call → Ledger → Reply × Ledger
on_memory (bind_call channel role subject at) l =
    let r = Memory.bind channel role subject at l in (bound r.0, r.1)
on_memory (unbind_call channel role) l = let r = Memory.unbind channel role l in (unbound r.0, r.1)
on_memory (holder_call channel role) l = (held (Memory.holder channel role l), l)
on_memory (seats_call channel) l = (listed (Memory.seats channel l), l)
on_memory (held_by_call subject) l = (listed (Memory.held_by subject l), l)

abbrev pub on_sqlite : Call → Table → Reply × Table
on_sqlite (bind_call channel role subject at) t =
    let r = bind channel role subject at t in (bound r.0, r.1)
on_sqlite (unbind_call channel role) t = let r = unbind channel role t in (unbound r.0, r.1)
on_sqlite (holder_call channel role) t = (held (holder channel role t), t)
on_sqlite (seats_call channel) t = (listed (seats channel t), t)
on_sqlite (held_by_call subject) t = (listed (held_by subject t), t)

sqlite-Simulates : Simulates Any (Each Keyed) seen on_memory on_sqlite
unfolding bind Memory.bind unbind Memory.unbind
sqlite-Simulates (bind_call channel role subject at) t w k =
    let row : Row = record { channel = channel; role = role; subject = subject; bound_at = at } in
    (
      refl,
      put-map_values seen_row t (channel, role) row,
      Each-put Keyed t (channel, role) row refl k,
    )
sqlite-Simulates (unbind_call channel role) t w k = (
  ap unbound (sym (has-map_values seen_row t (channel, role))),
  remove-map_values seen_row t (channel, role),
  Each-remove Keyed t (channel, role) k,
)
sqlite-Simulates (holder_call channel role) t w k = (ap held (holder-seen channel role t), refl, k)
sqlite-Simulates (seats_call channel) t w k = (ap listed (seats-seen channel t k), refl, k)
sqlite-Simulates (held_by_call subject) t w k = (ap listed (held_by-seen subject t), refl, k)

-- On any history of calls from a new ledger, the SQLite ledger gives the answers of the in-memory
-- one, call by call.
pub sqlite_seats :
    (calls : List Call) → (run_all on_sqlite calls []).0 ≡ (run_all on_memory calls []).0
sqlite_seats calls =
    (run_all-Simulates Any (Each Keyed) seen on_memory on_sqlite sqlite-Simulates calls []
      (every_call calls) tt).0
