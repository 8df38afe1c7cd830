-- ===== src/Tests/ChannelRuns.antt =====
-- Runs of src/hallpass/a2a.py.
use hallpass.Prelude.{
  String, inl, ◌≡◌, refl, true, [], ◌∷◌, ◌==◌, string_eq, pair_eq, arith, if◌then◌else◌, map, drop,
  ◌-◌,
}
use hallpass.Prelude.Dict
use hallpass.A2a.Store.{A2aStore, empty, append, advance_cursor, cursor, log_of, head, last_seq}
use hallpass.A2a.Store.Cursors.{key}
use hallpass.A2a.Bus.{Bus, reply, needed, admits, delivered, note, post, catch_up}
use hallpass.A2a.Bus.Delivery.{
  IsValid, unread, catch_up-unread, append-unread, advance_cursor-unread,
}
use hallpass.A2a.Bus.{authorized, declare_channel}
use hallpass.A2a.Bus.Posted as Posted
use hallpass.Prelude.Sets.{subset}
use hallpass.Prelude.{elem}
use hallpass.Prelude.{List}
use hallpass.Prelude.Simulation.{run_all}
use hallpass.A2a.Store.Sqlite.Refines as Calls
use hallpass.A2a.Store.Sqlite.Refines.{sqlite_messages}
use hallpass.Tests.Fixtures.{ann, bob}

empty-IsValid : IsValid empty
unfolding log_of cursor Dict.get
empty-IsValid = record {
  numbered = record { log = λ channel. tt };
  behind = λ subject channel. omega arith;
}

abbrev said : A2aStore
said = (append "lab" "ann" "hi" 7 empty).1

said-IsValid : IsValid said
said-IsValid = (append-unread "lab" "ann" "hi" 7 empty empty-IsValid).1

abbrev bus : Bus
bus = record {
  policies =
      ("lab", record { post_scopes = "notes:write" ∷ []; read_scopes = "notes:write" ∷ [] }) ∷ [];
  has_audit = true;
  sanitize_reads = true;
  store = said;
  audit = [];
}

catch_up-unread_example : catch_up 5 (λ s. s) ann "lab" 1 9 bus ≡ (
  reply (map (delivered (λ s. s) true "lab") (unread "ann" "lab" said)),
  note "ann" "a2a_read" "allow" "lab" "" 9 bus,
)
unfolding needed admits Dict.get subset elem append log_of Dict.put
catch_up-unread_example =
    catch_up-unread 5 (λ s. s) ann "lab" 1 9 bus said-IsValid refl (omega arith) (omega arith)

advance_cursor-unread_example :
    ((reader place : String)
      → unread reader place (advance_cursor "bob" "lab" 1 said).1 ≡ (
          if key "bob" "lab" == key reader place
          then drop (1 - cursor "bob" "lab" said) (unread reader place said)
          else unread reader place said))
    × IsValid (advance_cursor "bob" "lab" 1 said).1
unfolding head last_seq append log_of Dict.get Dict.put
advance_cursor-unread_example = advance_cursor-unread "bob" "lab" 1 said said-IsValid (omega arith)

-- A bus where `ann` may post and `bob` may not, and what both tried, the last call first.
abbrev quiet : Bus
quiet = record bus { policies = []; store = hallpass.A2a.Store.empty }

abbrev tried : List Posted.Call
tried =
    Posted.post_call bob "lab" "me too" 3
    ∷ Posted.post_call ann "lab" "hi" 2
    ∷ Posted.declare_call "lab"
        (record { post_scopes = "notes:write" ∷ []; read_scopes = "notes:write" ∷ [] })
    ∷ []

messages-Posted_example :
    Posted.Posted
      (λ s. s)
      tried
      quiet
      "lab"
      (record { seq = 1; sender = "ann"; body = "hi"; created_at = 2 })
unfolding log_of post authorized needed admits declare_channel Dict.get Dict.put subset elem append
    note
messages-Posted_example =
    Posted.messages-Posted (λ s. s) tried quiet "lab"
      (record { seq = 1; sender = "ann"; body = "hi"; created_at = 2 }) (λ place. refl) (inl refl)

abbrev traffic : List Calls.Call
traffic =
    Calls.append_call "lab" "ann" "hi" 7
    ∷ Calls.append_call "ops" "bob" "yo" 8
    ∷ Calls.append_call "lab" "bob" "ok" 9
    ∷ Calls.read_call "lab" 1 5
    ∷ Calls.advance_call "ann" "lab" 2
    ∷ Calls.advance_call "ann" "lab" 1
    ∷ Calls.touch_call "lab" "ann" 9
    ∷ Calls.roster_call "lab" 5
    ∷ []

sqlite_messages_example :
    (run_all Calls.on_sqlite traffic (record { messages = []; cursors = []; presence = [] })).0
    ≡ (run_all Calls.on_memory traffic empty).0
sqlite_messages_example = sqlite_messages traffic
