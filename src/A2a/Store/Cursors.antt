-- ===== src/A2a/Store/Cursors.antt =====
-- The cursors of src/hallpass/a2a.py only move forward, and one at a time.
use hallpass.Prelude.{String, ℕ, ◌≡◌, max, pair_eq, string_eq, ◌==◌, if◌then◌else◌, arith}
use hallpass.Prelude.Dict.{get-put}
use hallpass.A2a.Store.{A2aStore, cursor, advance_cursor}

-- The key of a cursor.
abbrev pub key : String → String → String × String
key subject channel = (subject, channel)

-- An ack moves its own cursor to the greater of the old and the new position, and no other cursor.
pub cursor-advance_cursor :
    (subject channel : String) (up_to : ℕ) (s : A2aStore) (reader place : String)
    → cursor reader place (advance_cursor subject channel up_to s).1 ≡ (
        if key subject channel == key reader place
        then max (cursor subject channel s) up_to
        else cursor reader place s)
unfolding cursor advance_cursor
cursor-advance_cursor subject channel up_to s reader place = ground (
  arith,
  get-put s.cursors (subject, channel) (reader, place) (max (cursor subject channel s) up_to),
)
