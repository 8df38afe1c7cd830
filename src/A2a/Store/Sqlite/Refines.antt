-- ===== src/A2a/Store/Sqlite/Refines.antt =====
-- The SQLite store of the channels of src/hallpass/a2a.py answers as the in-memory one does.
use hallpass.Prelude.{
  String, ℕ, ◌≡◌, refl, sym, ◌∙◌, ap, ◌&&◌, List, [], none, some, string_eq, pair_eq, ◌==◌, leb,
  filter, map,
}
use hallpass.Prelude.Dict
use hallpass.Prelude.Dict.{Dict}
use hallpass.Prelude.Order.{sort, str_leb}
use hallpass.Prelude.Simulation.{run_all, Any, every_call, Related, run_all-Related}
use hallpass.A2a.Store.{Stored, A2aStore, log_of, empty}
use hallpass.A2a.Store as Memory
use hallpass.A2a.Store.Log.{head-length}
use hallpass.A2a.Store.Sqlite.{
  Tables, append, read_after, head, cursor, advance_cursor, touch_presence, roster,
}
use hallpass.A2a.Store.Sqlite.Agrees.{
  SameLogs, head-SameLogs, read_after-SameLogs, append-SameLogs, advance-SameLogs,
}

-- The calls on a store.
pub data Call : Type 0 where
  append_call : String → String → String → ℕ → Call
  read_call : String → ℕ → ℕ → Call
  head_call : String → Call
  cursor_call : String → String → Call
  advance_call : String → String → ℕ → Call
  touch_call : String → String → ℕ → Call
  roster_call : String → ℕ → Call

pub data Reply : Type 0 where
  number : ℕ → Reply
  messages : List Stored → Reply
  subjects : List String → Reply
  touched : Reply

abbrev pub on_memory : Call → A2aStore → Reply × A2aStore
on_memory (append_call channel sender body at) s =
    let r = Memory.append channel sender body at s in (number r.0, r.1)
on_memory (read_call channel after limit) s =
    (messages (Memory.read_after channel after limit s), s)
on_memory (head_call channel) s = (number (Memory.head channel s), s)
on_memory (cursor_call subject channel) s = (number (Memory.cursor subject channel s), s)
on_memory (advance_call subject channel up_to) s =
    let r = Memory.advance_cursor subject channel up_to s in (number r.0, r.1)
on_memory (touch_call channel subject at) s = (touched, Memory.touch_presence channel subject at s)
on_memory (roster_call channel since) s = (subjects (Memory.roster channel since s), s)

abbrev pub on_sqlite : Call → Tables → Reply × Tables
on_sqlite (append_call channel sender body at) t =
    let r = append channel sender body at t in (number r.0, r.1)
on_sqlite (read_call channel after limit) t = (messages (read_after channel after limit t), t)
on_sqlite (head_call channel) t = (number (head channel t), t)
on_sqlite (cursor_call subject channel) t = (number (cursor subject channel t), t)
on_sqlite (advance_call subject channel up_to) t =
    let r = advance_cursor subject channel up_to t in (number r.0, r.1)
on_sqlite (touch_call channel subject at) t = (touched, touch_presence channel subject at t)
on_sqlite (roster_call channel since) t = (subjects (roster channel since t), t)

sqlite-Related : Related Any SameLogs on_memory on_sqlite
unfolding head cursor Memory.cursor touch_presence Memory.touch_presence roster Memory.roster log_of
sqlite-Related (append_call channel sender body at) s t p same =
    let (a, b) = append-SameLogs channel sender body at s t same in (ap number a, b)
sqlite-Related (read_call channel after limit) s t p same =
    (ap messages (read_after-SameLogs channel after limit s t same), same)
sqlite-Related (head_call channel) s t p same =
    (ap number (head-SameLogs channel s t same ∙ sym (head-length channel s same.numbered)), same)
sqlite-Related (cursor_call subject channel) s t p same = (
  ap (λ d. number (elim (Dict.get d (subject, channel)) [ none ↦ 0 | some n ↦ n ]))
      (sym same.cursors),
  same,
)
sqlite-Related (advance_call subject channel up_to) s t p same =
    let (a, b) = advance-SameLogs subject channel up_to s t same in (ap number a, b)
sqlite-Related (touch_call channel subject at) s t p same = (
  refl,
  record {
    logs = same.logs;
    numbered = record { log = same.numbered.log };
    cursors = same.cursors;
    presence = ap (λ d. Dict.put d (channel, subject) at) same.presence;
  },
)
sqlite-Related (roster_call channel since) s t p same = (
  ap
      (λ d. subjects (
        sort str_leb (
          map (λ (e : (String × String) × ℕ). e.0.1)
            (filter (λ e. e.0.0 == channel && leb since e.1) d))))
      (sym same.presence),
  same,
)

-- On any history of calls from an empty store, the SQLite store gives the answers of the in-memory
-- one, call by call: the numbers of the messages, the pages, the heads, the cursors and the rosters.
pub sqlite_messages :
    (calls : List Call)
    → (run_all on_sqlite calls (record { messages = []; cursors = []; presence = [] })).0
      ≡ (run_all on_memory calls empty).0
unfolding log_of Dict.get filter
sqlite_messages calls =
    run_all-Related Any SameLogs on_memory on_sqlite sqlite-Related calls empty
      (record { messages = []; cursors = []; presence = [] }) (every_call calls)
      (record {
        logs = λ c. refl;
        numbered = record { log = λ c. tt };
        cursors = refl;
        presence = refl;
      })
