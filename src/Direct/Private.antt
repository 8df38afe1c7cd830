-- ===== src/Direct/Private.antt =====
-- Who can use a direct channel of src/hallpass/dm.py.
use mathlib.Core.Path.{subst}
use hallpass.Prelude.{
  String, ◌≡◌, refl, ◌∙◌, Bool, if◌then◌else◌, [], ◌∷◌, elem, some, string_eq, ◌==◌, arith,
  Bool-cases, inl, inr, Option-cases, ==-sym,
}
use hallpass.Prelude.Dict.{get-put}
use hallpass.Prelude.Sets.{subset}
use hallpass.Prelude.Order.{str_leb, str_leb-Total, str_leb_antisym}
use hallpass.Identity.{Principal}
use hallpass.A2a.Bus.{ChannelPolicy, Bus, declare_channel, needed, admits}
use hallpass.A2a.Bus.Delivery.{reads, posts}
use hallpass.Direct.{DirectChannel, policy_of, ordered, tag, direct_channel, open_dm}

ordered_comm : (a b : String) → ordered a b ≡ ordered b a
unfolding ordered
ordered_comm a b = elim (Bool-cases (str_leb a b)) [
  | inr p ↦ rw (p, str_leb-Total.total a b p) refl
  | inl p ↦ elim (Bool-cases (str_leb b a)) [
    | inr q ↦ rw (p, q) refl
    | inl q ↦ rw (str_leb_antisym a b p q) refl
  ]
]

-- What declaring a channel makes of who may use it.
after_declare :
    (p : Principal) (name channel : String) (policy : ChannelPolicy) (bus : Bus)
    → (posts p channel (declare_channel name policy bus)
        ≡ (if name == channel then subset policy.post_scopes p.scopes else posts p channel bus))
      × (reads p channel (declare_channel name policy bus)
          ≡ (if name == channel then subset policy.read_scopes p.scopes else reads p channel bus))
unfolding declare_channel admits needed
after_declare p name channel policy bus = (
  ground (arith, get-put bus.policies name channel policy),
  ground (arith, get-put bus.policies name channel policy),
)

module _ (digest : String → String) where
  -- The channel of two subjects is the same from both sides.
  direct_channel_comm : (a b : String) → direct_channel digest a b ≡ direct_channel digest b a
  unfolding direct_channel tag
  direct_channel_comm a b = rw (ordered_comm a b, ==-sym a b) refl

  abbrev Opened : String → String → String → Bus → Principal → DirectChannel × Bus → Type 0
  Opened a b channel bus p r =
      (open_dm digest b a bus ≡ some r)
      × (posts p channel r.1
          ≡ (if r.0.name == channel then elem r.0.scope p.scopes else posts p channel bus))
      × (reads p channel r.1
          ≡ (if r.0.name == channel then elem r.0.scope p.scopes else reads p channel bus))

  held :
      (p : Principal) (scope name channel : String) (rest : Bool)
      → (if name == channel then subset (scope ∷ []) p.scopes else rest)
        ≡ (if name == channel then elem scope p.scopes else rest)
  unfolding subset
  held p scope name channel rest = ground arith

  -- Where two subjects open a direct channel, it is the one that they would open the other way
  -- round; whoever holds its scope may post and read there, and nobody else; and who may use any
  -- other channel is what it was.
  pub open_dm_private :
      (a b channel : String) (dc : DirectChannel) (bus bus' : Bus) (p : Principal)
      → open_dm digest a b bus ≡ some (dc, bus')
      → (open_dm digest b a bus ≡ some (dc, bus'))
        × (posts p channel bus'
            ≡ (if dc.name == channel then elem dc.scope p.scopes else posts p channel bus))
        × (reads p channel bus'
            ≡ (if dc.name == channel then elem dc.scope p.scopes else reads p channel bus))
  unfolding open_dm
  open_dm_private a b channel dc bus bus' p h = elim (Option-cases (direct_channel digest a b)) [
    | inl e ↦ absurd (ground arith)
    | inr (dc0, e) ↦
        let opened : (dc0, declare_channel dc0.name (policy_of dc0) bus) ≡ (dc, bus') =
          ground arith in
        let (posting, reading) = after_declare p dc0.name channel (policy_of dc0) bus in
        subst (λ (r : DirectChannel × Bus). Opened a b channel bus p r) opened
          (
            rw (direct_channel_comm b a ∙ e, open_dm) refl,
            posting ∙ held p dc0.scope dc0.name channel (posts p channel bus),
            reading ∙ held p dc0.scope dc0.name channel (reads p channel bus),
          )
  ]
