-- ===== src/A2a/Bus/Delivery.antt =====
-- What a reader of src/hallpass/a2a.py has not acked, and what `catch_up`, `post` and `ack` do to
-- it.
use hallpass.Prelude.{
  String, ℕ, zero, suc, ◌-◌, ◌≤◌, ◌<◌, ◌≡◌, refl, ◌∙◌, ap, max, Bool, true, List, [], ◌∷◌, ◌++◌,
  length, length-append, drop, map, arith, inl, inr, if◌then◌else◌, pair_eq, string_eq, ◌==◌,
  Bool-cases, ==→≡,
}
use hallpass.Identity.{Principal}
use hallpass.A2a.Store.{A2aStore, Stored, log_of, append, head, cursor, advance_cursor}
use hallpass.A2a.Store.Log.{IsNumbered, head-length, next_message, append-IsNumbered}
use hallpass.A2a.Store.Cursors.{key, cursor-advance_cursor}
use hallpass.A2a.Bus.{Bus, reply, needed, admits, authorized, note, delivered, catch_up}
use hallpass.A2a.Bus.Pages.{pages-drop, length-drop, drop-drop}

-- The principal may read the channel.
abbrev pub reads : Principal → String → Bus → Bool
reads p channel bus = admits p channel (needed (λ policy. policy.read_scopes) channel bus) bus

-- The principal may post to the channel.
abbrev pub posts : Principal → String → Bus → Bool
posts p channel bus = admits p channel (needed (λ policy. policy.post_scopes) channel bus) bus

-- The logs are numbered, and no cursor stands behind its log's end.
pub record IsValid (s : A2aStore) : Type 0 where
  pub numbered : IsNumbered s
  pub behind : (subject channel : String) → cursor subject channel s ≤ length (log_of channel s)

-- The stored messages of a channel that a subject has not acked.
abbrev pub unread : String → String → A2aStore → List Stored
unread subject channel s = drop (cursor subject channel s) (log_of channel s)

-- From a valid store, with more fuel than the channel has messages, an admitted catch-up returns
-- every message that the reader has not acked, in order, whatever the positive page size, and
-- records one `allow`; the store stays as it was.
pub catch_up-unread :
    (fuel : ℕ) (clean : String → String) (p : Principal) (channel : String) (size now : ℕ)
    (bus : Bus)
    → IsValid bus.store
    → reads p channel bus ≡ true
    → 1 ≤ size
    → length (log_of channel bus.store) < fuel
    → catch_up fuel clean p channel size now bus ≡ (
      reply (map (delivered clean bus.sanitize_reads channel) (unread p.subject channel bus.store)),
      note p.subject "a2a_read" "allow" channel "" now bus,
    )
unfolding catch_up authorized
catch_up-unread fuel clean p channel size now bus v may w f =
    let position = cursor p.subject channel bus.store in
    let all_read =
      pages-drop fuel channel size position bus.store v.numbered w
        (omega (arith, length-drop position (log_of channel bus.store))) in
    rw (may, all_read) refl

drop-snoc :
    (n : ℕ) (xs : List Stored) (x : Stored)
    → n ≤ length xs
    → drop n (xs ++ x ∷ []) ≡ drop n xs ++ x ∷ []
drop-snoc zero xs x h = refl
drop-snoc (suc n) [] x h = ground arith
drop-snoc (suc n) (y ∷ xs) x h = drop-snoc n xs x (omega arith)

cursor-append :
    (channel sender body : String) (at : ℕ) (s : A2aStore) (reader place : String)
    → cursor reader place (append channel sender body at s).1 ≡ cursor reader place s
unfolding cursor append
cursor-append channel sender body at s reader place = refl

log_of-advance_cursor :
    (subject channel : String) (up_to : ℕ) (s : A2aStore) (place : String)
    → log_of place (advance_cursor subject channel up_to s).1 ≡ log_of place s
unfolding log_of advance_cursor
log_of-advance_cursor subject channel up_to s place = refl

-- In a valid store, what a post stores is unread for every reader of the channel, behind what was
-- unread before; no other channel changes, and the store stays valid.
pub append-unread :
    (channel sender body : String) (at : ℕ) (s : A2aStore)
    → IsValid s
    → ((reader place : String)
        → unread reader place (append channel sender body at s).1 ≡ (
            if channel == place
            then unread reader place s ++ next_message channel sender body at s ∷ []
            else unread reader place s))
      × IsValid (append channel sender body at s).1
append-unread channel sender body at s v =
    let m = next_message channel sender body at s in
    let facts = append-IsNumbered channel sender body at s v.numbered in
    let frame = facts.1 in
    let grown : (place : String)
        → (channel == place) ≡ true
        → log_of place (append channel sender body at s).1 ≡ log_of place s ++ m ∷ [] =
      λ place same.
        frame place ∙ rw (same) (ap (λ c. log_of c s ++ m ∷ []) (==→≡ channel place same)) in
    (
      λ reader place. elim (Bool-cases (channel == place)) [
        | inl same ↦
            rw (cursor-append channel sender body at s reader place, grown place same, same)
              (drop-snoc (cursor reader place s) (log_of place s) m (v.behind reader place))
        | inr apart ↦
            rw (cursor-append channel sender body at s reader place, frame place, apart) refl
      ],
      record {
        numbered = facts.2;
        behind = λ reader place. elim (Bool-cases (channel == place)) [
          | inl same ↦
              rw (cursor-append channel sender body at s reader place, grown place same)
                (omega (arith, length-append (log_of place s) (m ∷ []), v.behind reader place))
          | inr apart ↦
              rw (cursor-append channel sender body at s reader place, frame place, apart)
                (v.behind reader place)
        ];
      },
    )

-- In a valid store, an ack up to the head takes what it acks off the front of the reader's own
-- unread messages on that channel, nothing off any other reader's or channel's, and the store stays
-- valid.
pub advance_cursor-unread :
    (subject channel : String) (up_to : ℕ) (s : A2aStore)
    → IsValid s
    → up_to ≤ head channel s
    → ((reader place : String)
        → unread reader place (advance_cursor subject channel up_to s).1 ≡ (
            if key subject channel == key reader place
            then drop (up_to - cursor subject channel s) (unread reader place s)
            else unread reader place s))
      × IsValid (advance_cursor subject channel up_to s).1
advance_cursor-unread subject channel up_to s v h =
    let stay = log_of-advance_cursor subject channel up_to s in
    let move = cursor-advance_cursor subject channel up_to s in
    let c = cursor subject channel s in
    (
      λ reader place. elim (Bool-cases (key subject channel == key reader place)) [
        | inl same ↦
            let e = ==→≡ (key subject channel) (key reader place) same in
            rw (stay place, move reader place, same)
              (drop-drop c (up_to - c) (max c up_to) (log_of place s) (omega arith)
                ∙ ap (λ k. drop (up_to - c) (drop (cursor k.0 k.1 s) (log_of place s))) e)
        | inr apart ↦ rw (stay place, move reader place, apart) refl
      ],
      record {
        numbered = record { log = λ place. rw (stay place) (v.numbered.log place) };
        behind = λ reader place. elim (Bool-cases (key subject channel == key reader place)) [
          | inl same ↦
              let e = ==→≡ (key subject channel) (key reader place) same in
              rw (stay place, move reader place, same)
                (omega (
                  arith,
                  h,
                  v.behind subject channel,
                  head-length channel s v.numbered,
                  ap (λ k. length (log_of k.1 s)) e,
                ))
          | inr apart ↦ rw (stay place, move reader place, apart) (v.behind reader place)
        ];
      },
    )
