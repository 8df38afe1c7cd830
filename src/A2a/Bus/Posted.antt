-- ===== src/A2a/Bus/Posted.antt =====
-- Where the messages of src/hallpass/a2a.py come from, whatever was called on the bus.
use hallpass.Prelude.{
  String, ℕ, ◌≡◌, refl, sym, ◌∙◌, ap, Bool, true, false, List, [], ◌∷◌, ◌++◌, none, some, In, inl,
  inr, ◌⊎◌, arith, Bool-cases, Option-cases, ==→≡, string_eq, ◌==◌, if◌then◌else◌, elem, Option,
  length, ◌+◌,
}
use mathlib.Core.Path.{subst}
use hallpass.Prelude.Dict
use hallpass.Prelude.Dict.{get-put}
use hallpass.Prelude.Sets.{Subset, subset_iff}
use hallpass.Identity.{Principal}
use hallpass.A2a.Store.{A2aStore, Stored, log_of, append}
use hallpass.A2a.Store.Log.{log_of-append, next_message}
use hallpass.A2a.Bus.{
  ChannelPolicy, Bus, needed, admits, authorized, pages, declare_channel, post, catch_up, ack,
  announce, roster,
}
use hallpass.A2a.Bus.Delivery.{posts, reads}
use hallpass.A2a.Bus.Access.{store-note}

-- The calls on a bus.
pub data Call : Type 0 where
  declare_call : String → ChannelPolicy → Call
  post_call : Principal → String → String → ℕ → Call
  catch_up_call : Principal → String → ℕ → ℕ → ℕ → Call
  ack_call : Principal → String → ℕ → ℕ → Call
  announce_call : Principal → String → ℕ → Call
  roster_call : Principal → String → ℕ → ℕ → Call

abbrev pub apply : (String → String) → Call → Bus → Bus
apply clean (declare_call channel policy) bus = declare_channel channel policy bus
apply clean (post_call p channel body now) bus = (post p channel body now bus).1
apply clean (catch_up_call p channel fuel size now) bus =
    (catch_up fuel clean p channel size now bus).1
apply clean (ack_call p channel up_to now) bus = (ack p channel up_to now bus).1
apply clean (announce_call p channel now) bus = (announce p channel now bus).1
apply clean (roster_call p channel within now) bus = (roster p channel within now bus).1

-- The bus after these calls, the last call first.
abbrev pub after_calls : (String → String) → List Call → Bus → Bus
after_calls clean [] bus = bus
after_calls clean (c ∷ calls) bus = apply clean c (after_calls clean calls bus)

-- The channel is declared, and its policy asks for no post scope that the principal lacks.
abbrev pub MayPost : Principal → String → Bus → Type 0
MayPost p channel bus =
    (policy : ChannelPolicy) × (Dict.get bus.policies channel ≡ some policy)
    × Subset policy.post_scopes p.scopes

-- The message is what one of the calls posted, by a principal who might then.
abbrev pub Posted : (String → String) → List Call → Bus → String → Stored → Type 0
Posted clean [] bus channel m = ⊥
Posted clean (c ∷ calls) bus channel m =
    ((p : Principal) × (c ≡ post_call p channel m.body m.created_at)
      × (m.sender ≡ p.subject)
      × MayPost p channel (after_calls clean calls bus))
    ⊎ Posted clean calls bus channel m

posts-MayPost :
    (p : Principal) (channel : String) (bus : Bus)
    → posts p channel bus ≡ true
    → MayPost p channel bus
unfolding admits needed
posts-MayPost p channel bus h = elim (Option-cases (Dict.get bus.policies channel)) [
  | inl e ↦ absurd (ground arith)
  | inr (policy, e) ↦ (policy, e, (subset_iff policy.post_scopes p.scopes).0 (ground arith))
]

In-snoc : (m x : Stored) (xs : List Stored) → In m (xs ++ x ∷ []) → In m xs ⊎ (x ≡ m)
In-snoc m x [] (inl e) = inr e
In-snoc m x [] (inr h) = absurd h
In-snoc m x (y ∷ xs) (inl e) = inl (inl e)
In-snoc m x (y ∷ xs) (inr h) = elim (In-snoc m x xs h) [ inl i ↦ inl (inr i) | inr e ↦ inr e ]

-- The calls that are no post leave every log as it is.
log-apply :
    (clean : String → String) (c : Call) (place : String) (bus : Bus)
    → (log_of place (apply clean c bus).store ≡ log_of place bus.store)
      ⊎ ((p : Principal) × (channel body : String) × (now : ℕ) × (c ≡ post_call p channel body now)
          × (posts p channel bus ≡ true)
          × (log_of place (apply clean c bus).store
              ≡ log_of place (append channel p.subject body now bus.store).1))
unfolding declare_channel post catch_up ack announce roster authorized
    hallpass.A2a.Store.advance_cursor hallpass.A2a.Store.touch_presence
log-apply clean (declare_call channel policy) place bus = inl refl
log-apply clean (post_call p channel body now) place bus = elim (Bool-cases (posts p channel bus)) [
  | inl may ↦ inr (
    p,
    channel,
    body,
    now,
    refl,
    may,
    rw (apply, may) (ap (log_of place) (store-note p.subject "a2a_post" "allow" channel "" now _)),
  )
  | inr out ↦ inl (rw (apply, out) (ap (log_of place) (store-note _ _ _ _ _ now bus)))
]
log-apply clean (catch_up_call p channel fuel size now) place bus =
    let position = hallpass.A2a.Store.cursor p.subject channel bus.store in
    elim (Bool-cases (reads p channel bus)) [
      | inr out ↦ inl (rw (apply, out) (ap (log_of place) (store-note _ _ _ _ _ now bus)))
      | inl may ↦ elim (Option-cases (pages fuel channel size position bus.store)) [
        | inl e ↦ inl (rw (apply, may, e) refl)
        | inr (rows, e) ↦
            inl (rw (apply, may, e) (ap (log_of place) (store-note _ _ _ _ _ now bus)))
      ]
    ]
log-apply clean (ack_call p channel up_to now) place bus = elim (Bool-cases (reads p channel bus)) [
  | inr out ↦ inl (rw (apply, out) (ap (log_of place) (store-note _ _ _ _ _ now bus)))
  | inl may ↦
      elim (Bool-cases (hallpass.Prelude.ltb (hallpass.A2a.Store.head channel bus.store) up_to)) [
        | inl beyond ↦ inl (rw (apply, may, beyond) refl)
        | inr within ↦ inl (rw (apply, may, within) refl)
      ]
]
log-apply clean (announce_call p channel now) place bus = elim (Bool-cases (posts p channel bus)) [
  | inr out ↦ inl (rw (apply, out) (ap (log_of place) (store-note _ _ _ _ _ now bus)))
  | inl may ↦ inl (rw (apply, may) (ap (log_of place) (store-note _ _ _ _ _ now _)))
]
log-apply clean (roster_call p channel within now) place bus =
    elim (Bool-cases (reads p channel bus)) [
      | inr out ↦ inl (rw (apply, out) (ap (log_of place) (store-note _ _ _ _ _ now bus)))
      | inl may ↦ inl (rw (apply, may) (ap (log_of place) (store-note _ _ _ _ _ now bus)))
    ]

-- However channels are declared, also anew, and whoever posts, reads, acks and announces: on a bus
-- that started with empty logs, every message in a channel's log is the body of one call of `post`
-- to that channel, at that time, by the principal that it names as its sender, and when that call
-- was made the channel was declared and the principal held every post scope of its policy.
pub messages-Posted :
    (clean : String → String) (calls : List Call) (bus : Bus) (channel : String) (m : Stored)
    → ((place : String) → log_of place bus.store ≡ [])
    → In m (log_of channel (after_calls clean calls bus).store)
    → Posted clean calls bus channel m
messages-Posted clean [] bus channel m start i = subst (In m) (start channel) i
messages-Posted clean (c ∷ calls) bus channel m start i =
    let before = after_calls clean calls bus in
    let earlier = messages-Posted clean calls bus channel m start in
    elim (log-apply clean c channel before) [
      | inl same ↦ inr (earlier (subst (In m) same i))
      | inr (p, place, body, now, e, may, logged) ↦
          let frame = log_of-append place p.subject body now before.store channel in
          let x = next_message place p.subject body now before.store in
          elim (Bool-cases (place == channel)) [
            | inr other ↦ inr (earlier (subst (In m) (logged ∙ frame ∙ rw other refl) i))
            | inl same ↦
                let here : place ≡ channel = ==→≡ place channel same in
                let grown : log_of channel (apply clean c before).store
                    ≡ log_of channel before.store ++ x ∷ [] =
                  logged ∙ frame ∙ rw same (ap (λ k. log_of k before.store ++ x ∷ []) here) in
                elim (In-snoc m x (log_of channel before.store) (subst (In m) grown i)) [
                  | inl old ↦ inr (earlier old)
                  | inr own ↦ inl (
                    p,
                    e
                        ∙ ap (λ k. post_call p k body now) here
                        ∙ ap (λ (y : Stored). post_call p channel y.body y.created_at) own,
                    sym (ap (λ (y : Stored). y.sender) own),
                    subst (λ k. MayPost p k before) here (posts-MayPost p place before may),
                  )
                ]
          ]
    ]
