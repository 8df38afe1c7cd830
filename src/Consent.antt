-- ===== src/Consent.antt =====
-- src/hallpass/consent.py: what each user has connected; the in-memory ledger.
pub mod Sqlite
use hallpass.Prelude.{
  String, ℕ, Bool, List, [], ◌∷◌, filter, Option, none, some, string_eq, pair_eq, ◌==◌,
}
use hallpass.Prelude.Dict
use hallpass.Prelude.Dict.{Dict, values}
use hallpass.Prelude.Order.{sort, str_leb}

-- `Consent`; a time is a whole number of one unit.
pub record Consent : Type 0 where
  pub subject : String
  pub service : String
  pub scopes : List String
  pub granted_at : ℕ

-- `InMemoryConsentLedger`
abbrev pub Ledger : Type 0
Ledger = Dict (String × String) Consent

-- `grant`
unfoldable pub grant : String → String → List String → ℕ → Ledger → Ledger
grant subject service scopes at l =
    Dict.put l (subject, service)
      (record { subject = subject; service = service; scopes = scopes; granted_at = at })

-- `get`
unfoldable pub consent_of : String → String → Ledger → Option Consent
consent_of subject service l = Dict.get l (subject, service)

-- `list`
unfoldable pub consents : String → Ledger → List Consent
consents subject l =
    sort (λ (a b : Consent). str_leb a.service b.service)
      (values (filter (λ e. e.0.0 == subject) l))

-- `revoke`
unfoldable pub revoke : String → String → Ledger → Bool × Ledger
revoke subject service l = (Dict.has l (subject, service), Dict.remove l (subject, service))
