-- ===== src/A2a/Bus.antt =====
-- `A2ABus` of src/hallpass/a2a.py over the in-memory stores of policies and messages.
pub mod Pages
pub mod Delivery
pub mod Access
pub mod Posted
use hallpass.Prelude.{
  String, ℕ, zero, suc, ◌-◌, Bool, true, false, List, [], ◌∷◌, ◌++◌, Option, none, some, string_eq,
  if◌then◌else◌, ltb, map,
}
use hallpass.Prelude.Dict
use hallpass.Prelude.Dict.{Dict}
use hallpass.Prelude.Order.{sort, str_leb}
use hallpass.Prelude.Sets.{subset}
use hallpass.Identity.{Principal}
use hallpass.Audit.{AuditEvent, text}
use hallpass.A2a.Store.{
  A2aStore, Stored, append, read_after, last_seq, head, cursor, advance_cursor, touch_presence,
}
use hallpass.A2a.Store as Store

-- `ChannelPolicy`
pub record ChannelPolicy : Type 0 where
  pub post_scopes : List String
  pub read_scopes : List String

-- `A2AMessage`
pub record Message : Type 0 where
  pub channel : String
  pub seq : ℕ
  pub sender : String
  pub body : String
  pub created_at : ℕ

pub record Bus : Type 0 where
  pub policies : Dict String ChannelPolicy
  pub has_audit : Bool
  pub sanitize_reads : Bool
  pub store : A2aStore
  pub audit : List AuditEvent

-- What a method returns or raises; `unfinished` is a catch-up that ran out of fuel.
pub data Reply {ℓ} (A : Type ℓ) : Type ℓ where
  reply : A → Reply A
  channel_denied : String → Reply A
  beyond_head : Reply A
  unfinished : Reply A

-- `declare_channel`
unfoldable pub declare_channel : String → ChannelPolicy → Bus → Bus
declare_channel name policy bus = record bus { policies = Dict.put bus.policies name policy }

-- `channels`
unfoldable pub channels : Bus → List String
channels bus = sort str_leb (Dict.keys bus.policies)

-- `_record`
unfoldable pub note : String → String → String → String → String → ℕ → Bus → Bus
note subject action decision channel reason at bus =
    let event : AuditEvent = record {
      subject = subject;
      action = action;
      decision = decision;
      tool = some channel;
      reason = text reason;
      at = at;
      duration = none;
    } in
    if bus.has_audit then record bus { audit = bus.audit ++ event ∷ [] } else bus

-- The scopes that a policy wants, none if there is no policy.
unfoldable pub needed : (ChannelPolicy → List String) → String → Bus → List String
needed scopes channel bus = elim (Dict.get bus.policies channel) [
  | none ↦ []
  | some policy ↦ scopes policy
]

-- The condition under which `_authorize` returns.
unfoldable pub admits : Principal → String → List String → Bus → Bool
admits p channel need bus = elim (Dict.get bus.policies channel) [
  | none ↦ false
  | some policy ↦ subset need p.scopes
]

-- `_authorize`, and the rest of the method if it returns.
unfoldable pub authorized :
    {A : Type 0}
    → Principal
    → String
    → List String
    → String
    → ℕ
    → Bus
    → Reply A × Bus
    → Reply A × Bus
unfolding note admits
authorized p channel need action now bus rest =
    if admits p channel need bus
    then rest
    else (channel_denied channel, note p.subject action "deny" channel "not_authorized" now bus)

-- `post`
unfoldable pub post : Principal → String → String → ℕ → Bus → Reply Message × Bus
unfolding note needed authorized append
post p channel body now bus =
    let stored = append channel p.subject body now bus.store in
    let m : Message = record {
      channel = channel;
      seq = stored.0;
      sender = p.subject;
      body = body;
      created_at = now;
    } in
    authorized p channel (needed (λ policy. policy.post_scopes) channel bus) "a2a_post" now bus
      (reply m, note p.subject "a2a_post" "allow" channel "" now (record bus { store = stored.1 }))

-- The end of the loop on an empty page, and a page before what the further turns read.
unfoldable pub before : List Stored → Option (List Stored) → Option (List Stored)
before [] rest = some []
before (m ∷ ms) none = none
before (m ∷ ms) (some tail) = some ((m ∷ ms) ++ tail)

-- The loop of `catch_up`: the rows of every page after `position`.
unfoldable pub pages : ℕ → String → ℕ → ℕ → A2aStore → Option (List Stored)
unfolding before
pages zero channel size position s = none
pages (suc fuel) channel size position s =
    let rows = read_after channel position size s in
    before rows (pages fuel channel size (last_seq position rows) s)

-- A row as it is delivered.
unfoldable pub delivered : (String → String) → Bool → String → Stored → Message
delivered clean sanitize_reads channel m = record {
  channel = channel;
  seq = m.seq;
  sender = m.sender;
  body = if sanitize_reads then clean m.body else m.body;
  created_at = m.created_at;
}

-- `catch_up`; `clean` is `sanitize`.
unfoldable pub catch_up :
    ℕ → (String → String) → Principal → String → ℕ → ℕ → Bus → Reply (List Message) × Bus
unfolding note needed authorized cursor pages delivered
catch_up fuel clean p channel page_size now bus =
    let position = cursor p.subject channel bus.store in
    authorized p channel (needed (λ policy. policy.read_scopes) channel bus) "a2a_read" now bus
      (elim (pages fuel channel page_size position bus.store) [
        | none ↦ (unfinished, bus)
        | some rows ↦ (
          reply (map (delivered clean bus.sanitize_reads channel) rows),
          note p.subject "a2a_read" "allow" channel "" now bus,
        )
      ])

-- `ack`
unfoldable pub ack : Principal → String → ℕ → ℕ → Bus → Reply ℕ × Bus
unfolding needed authorized head advance_cursor
ack p channel up_to now bus =
    let moved = advance_cursor p.subject channel up_to bus.store in
    authorized p channel (needed (λ policy. policy.read_scopes) channel bus) "a2a_ack" now bus (
      if ltb (head channel bus.store) up_to
      then (beyond_head, bus)
      else (reply moved.0, record bus { store = moved.1 }))

-- `announce`
unfoldable pub announce : Principal → String → ℕ → Bus → Reply ℕ × Bus
unfolding note needed authorized touch_presence
announce p channel now bus =
    let seen = record bus { store = touch_presence channel p.subject now bus.store } in
    authorized p channel (needed (λ policy. policy.post_scopes) channel bus) "a2a_announce" now bus
      (reply now, note p.subject "a2a_announce" "allow" channel "" now seen)

-- `roster`
unfoldable pub roster : Principal → String → ℕ → ℕ → Bus → Reply (List String) × Bus
unfolding note needed authorized Store.roster
roster p channel within now bus =
    authorized p channel (needed (λ policy. policy.read_scopes) channel bus) "a2a_roster" now bus (
      reply (Store.roster channel (now - within) bus.store),
      note p.subject "a2a_roster" "allow" channel "" now bus,
    )
