-- ===== src/Consent/Sqlite.antt =====
-- `SqliteConsentLedger` of src/hallpass/consent.py: the rows of the table `consent`, by their
-- primary key, each statement as it acts on them.
pub mod Refines
use hallpass.Prelude.{
  String, ℕ, Bool, List, [], ◌∷◌, map, filter, Option, none, some, string_eq, pair_eq, ◌==◌,
}
use hallpass.Prelude.Dict
use hallpass.Prelude.Dict.{Dict, values}
use hallpass.Prelude.Order.{sort, str_leb}
use hallpass.Prelude.Words.{join, words}
use hallpass.Consent.{Consent}

pub record Row : Type 0 where
  pub subject : String
  pub service : String
  pub scopes : String
  pub granted_at : ℕ

abbrev pub Table : Type 0
Table = Dict (String × String) Row

-- `grant`
unfoldable pub grant : String → String → List String → ℕ → Table → Table
grant subject service scopes at t =
    Dict.put t (subject, service)
      (record { subject = subject; service = service; scopes = join scopes; granted_at = at })

-- `get`
unfoldable pub consent_of : String → String → Table → Option Consent
consent_of subject service t = elim (Dict.get t (subject, service)) [
  | none ↦ none
  | some r ↦ some (record {
    subject = subject;
    service = service;
    scopes = words r.scopes;
    granted_at = r.granted_at;
  })
]

-- The `Consent` of a row that was asked for by its subject.
abbrev pub consent_by : String → Row → Consent
consent_by subject r = record {
  subject = subject;
  service = r.service;
  scopes = words r.scopes;
  granted_at = r.granted_at;
}

-- `list`
unfoldable pub consents : String → Table → List Consent
consents subject t = map (consent_by subject) (
    sort (λ (a b : Row). str_leb a.service b.service)
      (filter (λ r. r.subject == subject) (values t)))

-- `revoke`
unfoldable pub revoke : String → String → Table → Bool × Table
revoke subject service t = (Dict.has t (subject, service), Dict.remove t (subject, service))
