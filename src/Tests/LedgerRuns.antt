-- ===== src/Tests/LedgerRuns.antt =====
-- Runs of the ledgers, of src/hallpass/dm.py, and of the routing and serving of tasks.
use hallpass.Prelude.{
  String, ℕ, ◌≡◌, ◌≤◌, ◌⊎◌, refl, true, false, Bool, List, [], ◌∷◌, Option, none, some, string_eq,
  elem, length, if◌then◌else◌, ◌==◌, ◌&&◌, In, arith, ◌+◌,
}
use hallpass.Prelude.Dict
use hallpass.Prelude.Sets.{subset}
use hallpass.Prelude.Text.{concat}
use hallpass.Prelude.Simulation.{run_all}
use hallpass.Delegation.{Delegation, new_record, frozen, active_at, active_scopes}
use hallpass.Delegation.Narrowing as Narrowing
use hallpass.Delegation.Narrowing.{after_calls, Standing, active_scopes-Standing}
use hallpass.Delegation.Sqlite.Refines as Delegations
use hallpass.Delegation.Sqlite.Refines.{sqlite_delegations}
use hallpass.Approvals.{separation_of_duties, approved, approvers}
use hallpass.Approvals.Duties.{elem-separation_of_duties}
use hallpass.Approvals.Signed as Signed
use hallpass.Approvals.Signed.{approved_by_others, Unique, Signs}
use hallpass.Approvals.Sqlite.Refines as Approvals
use hallpass.Approvals.Sqlite.Refines.{sqlite_approvals}
use hallpass.Consent.Sqlite.Refines as Consents
use hallpass.Consent.Sqlite.Refines.{sqlite_consents}

abbrev narrowed : List Narrowing.Call
narrowed =
    Narrowing.delegate_call "lead" "worker" ("db:read" ∷ []) ("db:read" ∷ "db:write" ∷ []) (some 60)
      "" 100
    ∷ Narrowing.delegate_call "peer" "worker" ("db:drop" ∷ []) ("db:read" ∷ []) none "" 90
    ∷ []

active_scopes-Standing_example :
    (grantor : String) × (d : Delegation) × Standing narrowed grantor "worker" d
    × (active_at d 150 ≡ true)
    × (elem "db:read" d.scopes ≡ true)
    × ((scopes held : List String) × (ttl : Option ℕ) × (note : String) × (at : ℕ) × In
          (Narrowing.delegate_call grantor "worker" scopes held ttl note at)
          narrowed
        × (new_record grantor "worker" (frozen scopes) ttl note at ≡ d)
        × (elem "db:read" scopes ≡ true)
        × (elem "db:read" held ≡ true))
unfolding elem active_scopes hallpass.Delegation.delegate hallpass.Prelude.Sets.difference
    hallpass.Prelude.filter Dict.put hallpass.Prelude.Order.sort hallpass.Prelude.Order.insert
active_scopes-Standing_example = active_scopes-Standing narrowed "worker" "db:read" 150 refl

abbrev delegations : List Delegations.Call
delegations =
    Delegations.delegate_call "lead" "worker" ("b" ∷ "a" ∷ []) ("a" ∷ "b" ∷ []) none "" 3
    ∷ Delegations.delegate_call "lead" "other" ("c" ∷ []) ("a" ∷ []) none "" 4
    ∷ Delegations.granted_call "worker" 9
    ∷ Delegations.holds_call "worker" "a" 9
    ∷ Delegations.revoke_call "lead" "worker"
    ∷ []

sqlite_delegations_example :
    (run_all Delegations.on_sqlite delegations []).0
    ≡ (run_all Delegations.on_memory delegations []).0
unfolding hallpass.Delegation.frozen elem hallpass.Prelude.Text.is_space
sqlite_delegations_example =
    sqlite_delegations delegations
      (((refl, tt), ((refl, tt), tt)), (((refl, tt), tt), (tt, (tt, (tt, tt)))))

abbrev signed : List Signed.Call
signed =
    record { artifact = "pr"; approver = "bob"; author = "ann"; note = ""; now = 2 }
    ∷ record { artifact = "pr"; approver = "ann"; author = "ann"; note = ""; now = 1 }
    ∷ []

approved_by_others_example :
    (1 ≤ length (approvers "pr" (Signed.after_calls signed)))
    × Unique (approvers "pr" (Signed.after_calls signed))
    × ((approver : String)
        → elem approver (approvers "pr" (Signed.after_calls signed)) ≡ true
        → (c : Signed.Call) × In c signed × Signs "pr" approver c)
unfolding approved Dict.get hallpass.Approvals.sign Dict.put
approved_by_others_example = approved_by_others signed "pr" 1 refl

abbrev approvals : List Approvals.Call
approvals =
    Approvals.record_call "pr" "bob" "ann" "" 2
    ∷ Approvals.record_call "pr" "ann" "ann" "" 3
    ∷ Approvals.approvers_call "pr"
    ∷ Approvals.approvals_call "pr"
    ∷ Approvals.approved_call "pr" 2
    ∷ []

sqlite_approvals_example :
    (run_all Approvals.on_sqlite approvals []).0 ≡ (run_all Approvals.on_memory approvals []).0
sqlite_approvals_example = sqlite_approvals approvals

elem-separation_of_duties_example :
    elem "pr" (separation_of_duties "author:" "approve:" ("author:pr" ∷ "approve:pr" ∷ [])) ≡ (
      elem (concat "approve:" "pr") ("author:pr" ∷ "approve:pr" ∷ [])
      && elem (concat "author:" "pr") ("author:pr" ∷ "approve:pr" ∷ []))
elem-separation_of_duties_example =
    elem-separation_of_duties "author:" "approve:" "pr" ("author:pr" ∷ "approve:pr" ∷ [])

abbrev grants : List Consents.Call
grants =
    Consents.grant_call "ann" "mail" ("read" ∷ "send" ∷ []) 1
    ∷ Consents.get_call "ann" "mail"
    ∷ Consents.list_call "ann"
    ∷ Consents.revoke_call "ann" "mail"
    ∷ []

sqlite_consents_example :
    (run_all Consents.on_sqlite grants []).0 ≡ (run_all Consents.on_memory grants []).0
unfolding hallpass.Prelude.Text.is_space
sqlite_consents_example = sqlite_consents grants (
  ((refl, (refl, (refl, (refl, tt)))), ((refl, (refl, (refl, (refl, tt)))), tt)),
  (tt, (tt, (tt, tt))),
)
