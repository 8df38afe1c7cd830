-- ===== src/A2a/Store/Sqlite/Agrees.antt =====
-- What relates the tables of src/hallpass/a2a.py to the in-memory store, and how each call keeps it.
use mathlib.Core.Path.{subst, ap₂}
use hallpass.Prelude.{
  String, ℕ, zero, suc, max, ◌+◌, ◌≤◌, ◌≡◌, refl, sym, ◌∙◌, ap, Bool, true, ◌&&◌, List, [], ◌∷◌,
  ◌++◌, Option, none, some, string_eq, pair_eq, ◌==◌, if◌then◌else◌, ltb, leb, filter, take, map,
  length, arith, Bool-cases, inl, inr, ==→≡,
}
use hallpass.Prelude.Dict
use hallpass.Prelude.Dict.{Dict}
use hallpass.Prelude.Order.{insert, sort}
use hallpass.Prelude.Views.{filter-map}
use hallpass.A2a.Store.{Stored, A2aStore, log_of, empty}
use hallpass.A2a.Store as Memory
use hallpass.A2a.Store.Log.{Numbered, IsNumbered, next_message, append-IsNumbered}
use hallpass.A2a.Store.Sqlite.{
  Row, Tables, max_seq, append, stored, read_after, upserted, advance_cursor,
}

-- The rows of a channel, as the in-memory store would hold them.
abbrev rows_of : String → List Row → List Row
rows_of channel rows = filter (λ (r : Row). r.channel == channel) rows

-- Each channel has the same log in both, and the cursors and the presence are the same.
pub record SameLogs (s : A2aStore) (t : Tables) : Type 0 where
  pub logs : (channel : String) → log_of channel s ≡ map stored (rows_of channel t.messages)
  pub numbered : IsNumbered s
  pub cursors : s.cursors ≡ t.cursors
  pub presence : s.presence ≡ t.presence

max_seq-rows :
    (channel : String) (rows : List Row) (from : ℕ)
    → Numbered from (map stored (rows_of channel rows))
    → max from (max_seq channel rows) ≡ from + length (map stored (rows_of channel rows))
unfolding max_seq filter
max_seq-rows channel [] from n = omega arith
max_seq-rows channel (r ∷ rows) from n = elim (Bool-cases (r.channel == channel)) [
  | inr other ↦ rw other (max_seq-rows channel rows from (rw other at n))
  | inl here ↦
      let (first, rest) : (r.seq ≡ suc from)
          × Numbered (suc from) (map stored (rows_of channel rows)) =
        rw here at n in
      rw here (omega (arith, first, max_seq-rows channel rows (suc from) rest))
]

rows_of_last :
    (channel : String) (rows : List Row) (r : Row)
    → rows_of channel (rows ++ r ∷ [])
      ≡ (if r.channel == channel then rows_of channel rows ++ r ∷ [] else rows_of channel rows)
unfolding filter
rows_of_last channel [] r = ground arith
rows_of_last channel (x ∷ rows) r = ground (arith, rows_of_last channel rows r)

abbrev by_seq : Row → Row → Bool
by_seq a b = leb a.seq b.seq

abbrev is_after : ℕ → Row → Bool
is_after after r = ltb after r.seq

-- A row goes before later ones.
insert_first :
    (after from : ℕ) (r : Row) (rows : List Row)
    → Numbered from (map stored rows)
    → r.seq ≤ from
    → insert by_seq r (filter (is_after after) rows) ≡ r ∷ filter (is_after after) rows
unfolding insert filter
insert_first after from r [] n h = refl
insert_first after from r (x ∷ rows) n h = elim (Bool-cases (is_after after x)) [
  | inr out ↦ rw out (insert_first after (suc from) r rows n.1 (omega (arith, h)))
  | inl kept ↦ let first : leb r.seq x.seq ≡ true = ground (arith, n.0, h) in rw (kept, first) refl
]

-- A selection of a numbered log is sorted as it stands.
sorted_rows :
    (after from : ℕ) (rows : List Row)
    → Numbered from (map stored rows)
    → sort by_seq (filter (is_after after) rows) ≡ filter (is_after after) rows
unfolding sort filter
sorted_rows after from [] n = refl
sorted_rows after from (r ∷ rows) n = elim (Bool-cases (is_after after r)) [
  | inr out ↦ rw out (sorted_rows after (suc from) rows n.1)
  | inl kept ↦ rw kept (
      ap (insert by_seq r) (sorted_rows after (suc from) rows n.1)
      ∙ insert_first after (suc from) r rows n.1 (omega (arith, n.0)))
]

filter_both :
    (channel : String) (after : ℕ) (rows : List Row)
    → filter (λ (r : Row). r.channel == channel && ltb after r.seq) rows
      ≡ filter (is_after after) (rows_of channel rows)
unfolding filter
filter_both channel after [] = refl
filter_both channel after (r ∷ rows) = ground (arith, filter_both channel after rows)

take-map : (n : ℕ) (rows : List Row) → take n (map stored rows) ≡ map stored (take n rows)
take-map zero rows = refl
take-map (suc n) [] = refl
take-map (suc n) (r ∷ rows) = ap (λ ms. stored r ∷ ms) (take-map n rows)

map-append :
    (rows : List Row) (r : Row) → map stored (rows ++ r ∷ []) ≡ map stored rows ++ stored r ∷ []
map-append [] r = refl
map-append (x ∷ rows) r = ap (λ ms. stored x ∷ ms) (map-append rows r)

pub head-SameLogs :
    (channel : String) (s : A2aStore) (t : Tables)
    → SameLogs s t
    → max_seq channel t.messages ≡ length (log_of channel s)
head-SameLogs channel s t same =
    let n = subst (Numbered 0) (same.logs channel) (same.numbered.log channel) in
    omega (arith, max_seq-rows channel t.messages 0 n, ap length (same.logs channel))

pub read_after-SameLogs :
    (channel : String) (after limit : ℕ) (s : A2aStore) (t : Tables)
    → SameLogs s t
    → read_after channel after limit t ≡ Memory.read_after channel after limit s
unfolding read_after Memory.read_after
read_after-SameLogs channel after limit s t same =
    let n = subst (Numbered 0) (same.logs channel) (same.numbered.log channel) in
    let rows = rows_of channel t.messages in
    ap (λ rs. map stored (take limit (sort by_seq rs))) (filter_both channel after t.messages)
    ∙ ap (λ rs. map stored (take limit rs)) (sorted_rows after 0 rows n)
    ∙ sym (take-map limit (filter (is_after after) rows))
    ∙ ap (take limit) (sym (filter-map stored (λ m. ltb after m.seq) rows))
    ∙ ap (λ log. take limit (filter (λ (m : Stored). ltb after m.seq) log))
        (sym (same.logs channel))

pub append-SameLogs :
    (channel sender body : String) (at : ℕ) (s : A2aStore) (t : Tables)
    → SameLogs s t
    → ((append channel sender body at t).0 ≡ (Memory.append channel sender body at s).0)
      × SameLogs (Memory.append channel sender body at s).1 (append channel sender body at t).1
unfolding append Memory.append
append-SameLogs channel sender body at s t same =
    let (number, logs, numbered) = append-IsNumbered channel sender body at s same.numbered in
    (
      ap (λ n. n + 1) size,
      record {
        logs = λ other. logs other ∙ after other;
        numbered = numbered;
        cursors = same.cursors;
        presence = same.presence;
      },
    )
  where
    size : max_seq channel t.messages ≡ length (log_of channel s)
    size = head-SameLogs channel s t same

    row : Row
    row = record {
      channel = channel;
      seq = max_seq channel t.messages + 1;
      sender = sender;
      body = body;
      created_at = at;
    }

    next : Stored
    next = next_message channel sender body at s

    message : ℕ → Stored
    message n = record { seq = n + 1; sender = sender; body = body; created_at = at }

    after :
        (other : String)
        → (if channel == other then log_of channel s ++ next ∷ [] else log_of other s)
          ≡ map stored (rows_of other (t.messages ++ row ∷ []))
    after other = elim (Bool-cases (channel == other)) [
      | inr apart ↦ rw apart (
          same.logs other
          ∙ sym (ap (map stored) (rows_of_last other t.messages row ∙ (rw apart refl))))
      | inl hit ↦ rw hit (
          ap (λ log. log ++ next ∷ []) (same.logs channel)
          ∙ ap (λ c. map stored (rows_of c t.messages) ++ next ∷ []) (==→≡ channel other hit)
          ∙ ap (λ n. map stored (rows_of other t.messages) ++ message n ∷ []) (sym size)
          ∙ sym (map-append (rows_of other t.messages) row)
          ∙ sym (ap (map stored) (rows_of_last other t.messages row ∙ (rw hit refl))))
    ]

pub advance-SameLogs :
    (subject channel : String) (up_to : ℕ) (s : A2aStore) (t : Tables)
    → SameLogs s t
    → ((advance_cursor subject channel up_to t).0
        ≡ (Memory.advance_cursor subject channel up_to s).0)
      × SameLogs
          (Memory.advance_cursor subject channel up_to s).1
          (advance_cursor subject channel up_to t).1
unfolding advance_cursor Memory.advance_cursor Memory.cursor log_of
advance-SameLogs subject channel up_to s t same =
    let k : String × String = (subject, channel) in
    let position : upserted (Dict.get t.cursors k) up_to
        ≡ max (Memory.cursor subject channel s) up_to =
      of_get (Dict.get t.cursors k)
      ∙ ap (λ d. max (elim (Dict.get d k) [ none ↦ 0 | some n ↦ n ]) up_to) (sym same.cursors) in
    (
      position,
      record {
        logs = same.logs;
        numbered = record { log = same.numbered.log };
        cursors = ap₂ (λ d n. Dict.put d k n) same.cursors (sym position);
        presence = same.presence;
      },
    )
  where
    of_get : (o : Option ℕ) → upserted o up_to ≡ max (elim o [ none ↦ 0 | some n ↦ n ]) up_to
    of_get none = omega arith
    of_get (some n) = refl
