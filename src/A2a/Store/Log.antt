-- ===== src/A2a/Store/Log.antt =====
-- The logs of src/hallpass/a2a.py are numbered without gaps, from 1.
use hallpass.Prelude.{
  String, ℕ, zero, suc, ◌+◌, ◌≤◌, ◌≡◌, refl, ◌∙◌, ap, ◌==◌, List, [], ◌∷◌, ◌++◌, string_eq,
  if◌then◌else◌, ltb, length, filter, take, drop, arith, Bool-cases, inl, inr,
}
use hallpass.Prelude.Dict.{get-put}
use hallpass.A2a.Store.{Stored, A2aStore, log_of, append, read_after, last_seq, head}

-- The messages have the numbers that follow `from`.
abbrev pub Numbered : ℕ → List Stored → Type 0
Numbered from [] = Unit
Numbered from (m ∷ ms) = (m.seq ≡ suc from) × Numbered (suc from) ms

Numbered-snoc :
    (from : ℕ) (log : List Stored) (m : Stored)
    → Numbered from log
    → m.seq ≡ from + length log + 1
    → Numbered from (log ++ m ∷ [])
Numbered-snoc from [] m n e = (omega arith, tt)
Numbered-snoc from (x ∷ log) m n e = (n.0, Numbered-snoc (suc from) log m n.1 (omega arith))

-- Every channel's log is numbered from 1.
pub record IsNumbered (s : A2aStore) : Type 0 where
  pub log : (channel : String) → Numbered 0 (log_of channel s)

-- The message that `append` stores.
abbrev pub next_message : String → String → String → ℕ → A2aStore → Stored
next_message channel sender body at s = record {
  seq = length (log_of channel s) + 1;
  sender = sender;
  body = body;
  created_at = at;
}

-- What a channel's log is after a message was appended.
pub log_of-append :
    (channel sender body : String) (at : ℕ) (s : A2aStore) (other : String)
    → log_of other (append channel sender body at s).1 ≡ (
        if channel == other
        then log_of channel s ++ next_message channel sender body at s ∷ []
        else log_of other s)
unfolding append
log_of-append channel sender body at s other = ground (
  arith,
  get-put s.msgs channel other (log_of channel s ++ next_message channel sender body at s ∷ []),
)

-- An appended message gets the next number of its channel and stands last in that channel's log;
-- the other logs are what they were, and the numbering has no gap.
pub append-IsNumbered :
    (channel sender body : String) (at : ℕ) (s : A2aStore)
    → IsNumbered s
    → ((append channel sender body at s).0 ≡ length (log_of channel s) + 1)
      × ((other : String)
          → log_of other (append channel sender body at s).1 ≡ (
              if channel == other
              then log_of channel s ++ next_message channel sender body at s ∷ []
              else log_of other s))
      × IsNumbered (append channel sender body at s).1
append-IsNumbered channel sender body at s v =
    let frame = log_of-append channel sender body at s in
    (
      unfold append in refl,
      frame,
      record {
        log = λ other. elim (Bool-cases (channel == other)) [
          | inl same ↦
              rw (frame other, same)
                (Numbered-snoc 0 (log_of channel s) (next_message channel sender body at s)
                  (v.log channel) (omega arith))
          | inr apart ↦ rw (frame other, apart) (v.log other)
        ];
      },
    )

pub last_seq-Numbered :
    (from : ℕ) (log : List Stored) → Numbered from log → last_seq from log ≡ from + length log
unfolding last_seq
last_seq-Numbered from [] n = omega arith
last_seq-Numbered from (m ∷ log) n = rw (n.0) (last_seq-Numbered (suc from) log n.1 ∙ omega arith)

-- The head of a channel is the number of its messages.
pub head-length :
    (channel : String) (s : A2aStore) → IsNumbered s → head channel s ≡ length (log_of channel s)
unfolding head
head-length channel s v = last_seq-Numbered 0 (log_of channel s) (v.log channel) ∙ omega arith

filter-all :
    (after from : ℕ) (log : List Stored)
    → Numbered from log
    → after ≤ from
    → filter (λ m. ltb after m.seq) log ≡ log
unfolding filter
filter-all after from [] n h = refl
filter-all after from (m ∷ log) n h =
    ground (arith, n.0, filter-all after (suc from) log n.1 (omega arith))

filter-drop :
    (k from after : ℕ) (log : List Stored)
    → Numbered from log
    → after ≡ from + k
    → filter (λ m. ltb after m.seq) log ≡ drop k log
unfolding filter
filter-drop zero from after log n e = filter-all after from log n (omega arith)
filter-drop (suc k) from after [] n e = refl
filter-drop (suc k) from after (m ∷ log) n e =
    ground (arith, n.0, filter-drop k (suc from) after log n.1 (omega arith))

-- A page after `after` is the next `limit` messages of the log.
pub read_after-drop :
    (channel : String) (after limit : ℕ) (s : A2aStore)
    → IsNumbered s
    → read_after channel after limit s ≡ take limit (drop after (log_of channel s))
unfolding read_after
read_after-drop channel after limit s v =
    ap (take limit) (filter-drop after 0 after (log_of channel s) (v.log channel) (omega arith))
