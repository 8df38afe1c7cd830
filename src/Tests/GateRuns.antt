-- ===== src/Tests/GateRuns.antt =====
-- Runs of src/hallpass/gating.py, ratelimit.py and connectors.py.
use hallpass.Prelude.{String, ℕ, ◌≡◌, refl, ◌↔◌, List, [], ◌∷◌, string_eq, arith, In}
use hallpass.Prelude.Dict
use hallpass.Gating.{ToolSpec, ok, catalog, authorize}
use hallpass.Gating.Laws.{catalog-authorize}
use hallpass.Core.Types.{Handler}
use hallpass.Core.Registry.{named}
use hallpass.RateLimit.{Limiter, check}
use hallpass.RateLimit.Window.{allowed}
use hallpass.RateLimit.Subjects.{IsFaithful, extended, init-IsFaithful, check-IsFaithful}
use hallpass.RateLimit as RateLimit
use hallpass.Vault.{Vault}
use hallpass.Connectors.{Script, done, credential, call, run, UserContext}
use hallpass.Connectors.Isolation.{SameFor, run-SameFor}
use hallpass.Tests.Fixtures.{demo, ann, write_note, ready, ready-IsValid, plain}

abbrev listed : ToolSpec (Handler demo)
listed = named "notes" write_note

catalog-authorize_example :
    In listed (catalog ann ready.gate) ↔ (authorize ann "write_note" ready.gate ≡ ok listed)
catalog-authorize_example = catalog-authorize ann ready.gate listed ready-IsValid.gate

abbrev budget : Limiter
budget = record { max_calls = 2; window = 60; hits = [] }

check-IsFaithful_example :
    ((check "ann" 5 budget).0 ≡ allowed 2 60 5 [])
    × IsFaithful (extended (λ s. []) 0 5 "ann" budget) 5 (check "ann" 5 budget).1
unfolding RateLimit.init
check-IsFaithful_example =
    check-IsFaithful (λ s. []) 0 5 "ann" budget (init-IsFaithful 2 60 budget refl).4 (omega arith)

abbrev full_vault : Vault (ℕ × String)
full_vault = record {
  entries = (("ann", "notes"), (0, "a")) ∷ (("bob", "notes"), (1, "b")) ∷ [];
  entropy = 2;
}

abbrev small_vault : Vault (ℕ × String)
small_vault = record { entries = (("ann", "notes"), (0, "a")) ∷ []; entropy = 2 }

abbrev ctx : UserContext
ctx = record { principal = ann; service = "notes" }

abbrev look : Script String String ℕ String
look = credential (λ c. call "read" (λ r. done 1))

abbrev world : String → List String → String × List String
world request log = ("ok", request ∷ log)

run-SameFor_example :
    ((run plain ctx world look full_vault []).0 ≡ (run plain ctx world look small_vault []).0)
    × ((run plain ctx world look full_vault []).2 ≡ (run plain ctx world look small_vault []).2)
    × SameFor plain ctx
        (run plain ctx world look full_vault []).1
        (run plain ctx world look small_vault []).1
unfolding Dict.get
run-SameFor_example =
    run-SameFor plain ctx world look full_vault small_vault []
      (record { same = refl; entropy = refl })
