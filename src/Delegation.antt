-- ===== src/Delegation.antt =====
-- src/hallpass/delegation.py: grants of one principal's scopes to another, bounded and expiring; the
-- in-memory ledger.
pub mod Narrowing
pub mod Sqlite
use hallpass.Prelude.{
  String, ℕ, ◌+◌, Bool, true, false, ◌&&◌, if◌then◌else◌, ltb, List, [], ◌∷◌, ◌++◌, map, filter,
  elem, Option, none, some, string_eq, pair_eq, ◌==◌,
}
use hallpass.Prelude.Dict
use hallpass.Prelude.Dict.{Dict, values}
use hallpass.Prelude.Sets.{difference, nonempty}
use hallpass.Prelude.Order.{sort, str_leb}

-- `Delegation`; a time is a whole number of one unit.
pub record Delegation : Type 0 where
  pub grantor : String
  pub grantee : String
  pub scopes : List String
  pub granted_at : ℕ
  pub expires_at : Option ℕ
  pub note : String

-- The condition of `Delegation.active_at`.
abbrev pub unexpired : Option ℕ → ℕ → Bool
unexpired none now = true
unexpired (some at) now = ltb now at

-- `Delegation.active_at`
abbrev pub active_at : Delegation → ℕ → Bool
active_at d now = unexpired d.expires_at now

-- Each element once.
unfoldable pub frozen : List String → List String
frozen [] = []
frozen (x ∷ xs) = let rest = frozen xs in if elem x xs then rest else x ∷ rest

-- What `_bounded` returns, or the scopes that the `DelegationError` names.
pub data Bounded : Type 0 where
  bounded : List String → Bounded
  over : List String → Bounded

-- `_bounded`
unfoldable pub bounded_by : List String → List String → Bounded
unfolding frozen
bounded_by scopes grantor_scopes =
    let wanted = frozen scopes in
    let beyond = difference wanted grantor_scopes in
    if nonempty beyond then over (sort str_leb beyond) else bounded wanted

-- `now + ttl_seconds` where there is a `ttl_seconds`
abbrev pub expiry : ℕ → Option ℕ → Option ℕ
expiry now none = none
expiry now (some ttl) = some (now + ttl)

-- The record that `delegate` builds.
abbrev pub new_record : String → String → List String → Option ℕ → String → ℕ → Delegation
new_record grantor grantee wanted ttl note now = record {
  grantor = grantor;
  grantee = grantee;
  scopes = sort str_leb wanted;
  granted_at = now;
  expires_at = expiry now ttl;
  note = note;
}

-- What `delegate` returns or raises.
pub data Delegated : Type 0 where
  delegated : Delegation → Delegated
  refused : List String → Delegated

-- `InMemoryDelegationLedger`
abbrev pub Ledger : Type 0
Ledger = Dict (String × String) Delegation

-- `delegate`
unfoldable pub delegate :
    String
    → String
    → List String
    → List String
    → Option ℕ
    → String
    → ℕ
    → Ledger
    → Delegated × Ledger
unfolding bounded_by
delegate grantor grantee scopes grantor_scopes ttl note now l =
    elim (bounded_by scopes grantor_scopes) [
      | over beyond ↦ (refused beyond, l)
      | bounded wanted ↦
          let d = new_record grantor grantee wanted ttl note now in
          (delegated d, Dict.put l (grantor, grantee) d)
    ]

-- The loop of `active_scopes`.
unfoldable pub collect : String → ℕ → Ledger → List String
collect grantee now [] = []
collect grantee now (((_, ge), d) ∷ l) =
    let rest = collect grantee now l in
    if ge == grantee && active_at d now then d.scopes ++ rest else rest

-- `active_scopes`
unfoldable pub active_scopes : String → ℕ → Ledger → List String
unfolding collect
active_scopes grantee now l = collect grantee now l

-- `granted`
unfoldable pub granted : String → ℕ → Ledger → List Delegation
granted grantee now l =
    sort (λ (a b : Delegation). str_leb a.grantor b.grantor)
      (values (filter (λ e. e.0.1 == grantee && active_at e.1 now) l))

-- `revoke`
unfoldable pub revoke : String → String → Ledger → Bool × Ledger
revoke grantor grantee l = (Dict.has l (grantor, grantee), Dict.remove l (grantor, grantee))
