-- ===== src/Consent/Sqlite/Refines.antt =====
-- The SQLite ledger of src/hallpass/consent.py answers as the in-memory one does.
use mathlib.Core.Path.{ap₂}
use hallpass.Prelude.{
  String, ℕ, ◌≡◌, refl, sym, ◌∙◌, ap, Bool, List, [], map, filter, In, In-filter, Option, some,
  string_eq, pair_eq, ◌==◌, arith, Option-cases, inl, inr,
}
use hallpass.Prelude.Dict
use hallpass.Prelude.Dict.{Dict, values, Each, Each-put, Each-remove, Each-get}
use hallpass.Prelude.Order.{sort, str_leb, In-sort}
use hallpass.Prelude.Words.{Words, words, words-join, join}
use hallpass.Prelude.Views.{
  map_values, map_option, values-map_values, get-map_values, has-map_values, put-map_values,
  remove-map_values, filter-map_values, sort-map, values-filter, Each-map, map-In,
}
use hallpass.Prelude.Simulation.{run_all, AllCalls, Simulates, run_all-Simulates}
use hallpass.Consent.{Consent, Ledger}
use hallpass.Consent as Memory
use hallpass.Consent.Sqlite.{Row, Table, grant, consent_of, consents, consent_by, revoke}

abbrev pub seen_row : Row → Consent
seen_row r = consent_by r.subject r

abbrev pub seen : Table → Ledger
seen = map_values seen_row

-- A row stands under its own key.
abbrev pub Keyed : String × String → Row → Type 0
Keyed k r = (r.subject, r.service) ≡ k

consent_of-seen :
    (subject service : String) (t : Table)
    → Each Keyed t
    → consent_of subject service t ≡ Memory.consent_of subject service (seen t)
unfolding consent_of Memory.consent_of
consent_of-seen subject service t k = elim (Option-cases (Dict.get t (subject, service))) [
  | inl e ↦ ground (arith, get-map_values seen_row t (subject, service))
  | inr (r, e) ↦
      let key = Each-get Keyed t (subject, service) r k e in
      rw (e, consent_of)
        (ap₂
            (λ s v. some (record {
              subject = s;
              service = v;
              scopes = words r.scopes;
              granted_at = r.granted_at;
            }))
            (sym (ap (λ (i : String × String). i.0) key))
            (sym (ap (λ (i : String × String). i.1) key))
          ∙ ap (map_option seen_row) (sym e)
          ∙ sym (get-map_values seen_row t (subject, service)))
]

consents-seen :
    (subject : String) (t : Table)
    → Each Keyed t
    → consents subject t ≡ Memory.consents subject (seen t)
unfolding consents Memory.consents
consents-seen subject t k =
    let le = λ (a b : Consent). str_leb a.service b.service in
    let mine = λ (r : Row). r.subject == subject in
    map-In (consent_by subject) seen_row
      (sort (λ (a b : Row). str_leb a.service b.service) (filter mine (values t))) same
    ∙ sym (sort-map seen_row le (filter mine (values t)))
    ∙ ap (λ rs. sort le (map seen_row rs))
        (sym (
          values-filter (λ e. e.0.0 == subject) mine t
            (Each-map Keyed (λ j r. (j.0 == subject) ≡ mine r) t
              (λ j r e. ap (λ (i : String × String). i.0 == subject) (sym e)) k)))
    ∙ ap (sort le) (sym (values-map_values seen_row (filter (λ e. e.0.0 == subject) t)))
    ∙ ap (λ l. sort le (values l)) (sym (filter-map_values seen_row (λ e. e.0.0 == subject) t))
  where
    same :
        (r : Row)
        → In r (
            sort
              (λ (a b : Row). str_leb a.service b.service)
              (filter (λ (r : Row). r.subject == subject) (values t)))
        → consent_by subject r ≡ seen_row r
    same r m =
        let chosen =
          (In-filter (λ (r : Row). r.subject == subject) r (values t)
            ((In-sort (λ (a b : Row). str_leb a.service b.service) r
                (filter (λ (r : Row). r.subject == subject) (values t))).0
              m)).1 in
        let e : subject ≡ r.subject = ground (arith, string_eq.beq_iff r.subject subject) in
        ap (λ s. consent_by s r) e

-- The calls on a ledger.
pub data Call : Type 0 where
  grant_call : String → String → List String → ℕ → Call
  get_call : String → String → Call
  list_call : String → Call
  revoke_call : String → String → Call

pub data Reply : Type 0 where
  granted : Reply
  got : Option Consent → Reply
  listed : List Consent → Reply
  revoked : Bool → Reply

abbrev pub on_memory : Call → Ledger → Reply × Ledger
on_memory (grant_call subject service scopes at) l =
    (granted, Memory.grant subject service scopes at l)
on_memory (get_call subject service) l = (got (Memory.consent_of subject service l), l)
on_memory (list_call subject) l = (listed (Memory.consents subject l), l)
on_memory (revoke_call subject service) l =
    let r = Memory.revoke subject service l in (revoked r.0, r.1)

abbrev pub on_sqlite : Call → Table → Reply × Table
on_sqlite (grant_call subject service scopes at) t = (granted, grant subject service scopes at t)
on_sqlite (get_call subject service) t = (got (consent_of subject service t), t)
on_sqlite (list_call subject) t = (listed (consents subject t), t)
on_sqlite (revoke_call subject service) t = let r = revoke subject service t in (revoked r.0, r.1)

-- The scopes of a grant are words, with no white space.
abbrev pub HasWords : Call → Type 0
HasWords (grant_call subject service scopes at) = Words scopes
HasWords (get_call subject service) = Unit
HasWords (list_call subject) = Unit
HasWords (revoke_call subject service) = Unit

sqlite-Simulates : Simulates HasWords (Each Keyed) seen on_memory on_sqlite
unfolding grant Memory.grant revoke Memory.revoke
sqlite-Simulates (grant_call subject service scopes at) t w k =
    let row : Row = record {
      subject = subject;
      service = service;
      scopes = join scopes;
      granted_at = at;
    } in
    (
      refl,
      put-map_values seen_row t (subject, service) row
          ∙ ap (λ ws. Dict.put (seen t) (subject, service) (record (seen_row row) { scopes = ws }))
              (words-join scopes w),
      Each-put Keyed t (subject, service) row refl k,
    )
sqlite-Simulates (get_call subject service) t w k =
    (ap got (consent_of-seen subject service t k), refl, k)
sqlite-Simulates (list_call subject) t w k = (ap listed (consents-seen subject t k), refl, k)
sqlite-Simulates (revoke_call subject service) t w k = (
  ap revoked (sym (has-map_values seen_row t (subject, service))),
  remove-map_values seen_row t (subject, service),
  Each-remove Keyed t (subject, service) k,
)

-- On any history of calls from a new ledger, if the granted scopes are words without white space,
-- the SQLite ledger gives the answers of the in-memory one, call by call.
pub sqlite_consents :
    (calls : List Call)
    → AllCalls HasWords calls
    → (run_all on_sqlite calls []).0 ≡ (run_all on_memory calls []).0
sqlite_consents calls w =
    (run_all-Simulates HasWords (Each Keyed) seen on_memory on_sqlite sqlite-Simulates calls [] w
      tt).0
