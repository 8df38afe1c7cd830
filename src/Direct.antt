-- ===== src/Direct.antt =====
-- src/hallpass/dm.py: a direct channel of two subjects, as a channel of the bus whose one scope only
-- they hold. The digest, `sha256(…).hexdigest()[:16]`, is a parameter.
pub mod Private
use hallpass.Prelude.{
  String, Bool, if◌then◌else◌, List, [], ◌∷◌, Option, none, some, string_eq, ◌==◌,
}
use hallpass.Prelude.Order.{str_leb}
use hallpass.Prelude.Text.{concat}
use hallpass.A2a.Bus.{ChannelPolicy, Bus, declare_channel}

-- `DirectChannel`
pub record DirectChannel : Type 0 where
  pub name : String
  pub scope : String
  pub parties : String × String

-- `DirectChannel.policy`
abbrev pub policy_of : DirectChannel → ChannelPolicy
policy_of dc = record { post_scopes = dc.scope ∷ []; read_scopes = dc.scope ∷ [] }

-- `sorted((a, b))`
unfoldable pub ordered : String → String → String × String
ordered a b = if str_leb a b then (a, b) else (b, a)

module _ (digest : String → String) where
  -- `_tag`
  unfoldable pub tag : String → String → String × String × String
  unfolding ordered
  tag a b = let (lo, hi) = ordered a b in (lo, hi, digest (concat lo (concat "\0" hi)))

  -- `direct_channel`: `none` stands for the `ValueError`.
  unfoldable pub direct_channel : String → String → Option DirectChannel
  unfolding tag
  direct_channel a b =
      let (lo, hi, hash) = tag a b in
      if a == b
      then none
      else some (record { name = concat "dm:" hash; scope = concat "dm:" hash; parties = (lo, hi) })

  -- `open_dm`
  unfoldable pub open_dm : String → String → Bus → Option (DirectChannel × Bus)
  unfolding direct_channel
  open_dm a b bus = elim (direct_channel a b) [
    | none ↦ none
    | some dc ↦ some (dc, declare_channel dc.name (policy_of dc) bus)
  ]
