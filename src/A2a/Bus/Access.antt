-- ===== src/A2a/Bus/Access.antt =====
-- What posts and acks on the bus of src/hallpass/a2a.py keep in place.
use hallpass.Prelude.{String, ℕ, ◌≡◌, inl, inr, Bool-cases, arith, ltb, string_eq}
use hallpass.Identity.{Principal}
use hallpass.A2a.Store.{append, head}
use hallpass.A2a.Bus.{Bus, authorized, note, ack, post}
use hallpass.A2a.Bus.Delivery.{reads, posts, IsValid, append-unread, advance_cursor-unread}

-- `note` leaves the store alone.
pub store-note :
    (subject action decision channel reason : String) (at : ℕ) (bus : Bus)
    → (note subject action decision channel reason at bus).store ≡ bus.store
unfolding note
store-note subject action decision channel reason at bus = ground arith

-- From a valid store, whatever a post or an ack answers, the logs stay numbered without gaps and no
-- cursor passes the end of its log.
pub post-ack-IsValid :
    (p : Principal) (channel : String) (now : ℕ) (bus : Bus)
    → IsValid bus.store
    → ((body : String) → IsValid (post p channel body now bus).1.store)
      × ((up_to : ℕ) → IsValid (ack p channel up_to now bus).1.store)
unfolding post ack authorized
post-ack-IsValid p channel now bus v = (
  λ body. elim (Bool-cases (posts p channel bus)) [
    | inl may ↦
        rw
          (
            may,
            store-note p.subject "a2a_post" "allow" channel "" now
                (record bus { store = (append channel p.subject body now bus.store).1 }),
          )
          (append-unread channel p.subject body now bus.store v).1
    | inr out ↦ rw (out, store-note p.subject "a2a_post" "deny" channel "not_authorized" now bus) v
  ],
  λ up_to. elim (Bool-cases (reads p channel bus)) [
    | inl may ↦ elim (Bool-cases (ltb (head channel bus.store) up_to)) [
      | inl beyond ↦ rw (may, beyond) v
      | inr within ↦
          rw (may, within)
            (advance_cursor-unread p.subject channel up_to bus.store v (ground arith)).1
    ]
    | inr out ↦ rw (out, store-note p.subject "a2a_ack" "deny" channel "not_authorized" now bus) v
  ],
)
