-- ===== src/Tests/GateLedgerRuns.antt =====
-- Runs of src/hallpass/humangate.py.
use hallpass.Prelude.{String, ℕ, ◌≡◌, refl, true, false, List, [], ◌∷◌, In}
use hallpass.Prelude.Dict
use hallpass.Identity.{Principal, is_service}
use hallpass.HumanGate.{require, decide, decide_gate, record_decision, cleared}
use hallpass.HumanGate.Decisions.{Call, require_call, decide_call, cleared_by_human}
use hallpass.HumanGate.Sqlite.Refines as Gates
use hallpass.HumanGate.Sqlite.Refines.{sqlite_gates}
use hallpass.Prelude.Simulation.{run_all}
use hallpass.Tests.Fixtures.{ann}

abbrev bot : Principal
bot = record ann { kind = "service" }

-- The agent's approval fails, the human's is recorded.
abbrev session : List Call
session =
    decide_call "deploy" ann true "ok" 3
    ∷ decide_call "deploy" bot true "me" 2
    ∷ require_call "deploy" "prod"
    ∷ []

cleared_by_human_example :
    (p : Principal) × (note : String) × (at : ℕ) × In (decide_call "deploy" p true note at) session
    × (is_service p ≡ false)
unfolding cleared require decide decide_gate record_decision is_service Dict.get Dict.put
cleared_by_human_example = cleared_by_human session "deploy" refl

abbrev gates : List Gates.Call
gates =
    Gates.require_call "deploy" "prod"
    ∷ Gates.decide_call "deploy" bot true "me" 2
    ∷ Gates.decide_call "deploy" ann true "ok" 3
    ∷ Gates.pending_call
    ∷ Gates.cleared_call "deploy"
    ∷ []

sqlite_gates_example : (run_all Gates.on_sqlite gates []).0 ≡ (run_all Gates.on_memory gates []).0
sqlite_gates_example = sqlite_gates gates
