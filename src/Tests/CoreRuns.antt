-- ===== src/Tests/CoreRuns.antt =====
-- Runs of `call_tool` and `search_tools` of src/hallpass/core.py.
use mathlib.Core.Path.{subst}
use hallpass.Prelude.{
  ap, String, ◌≡◌, ◌≢◌, refl, ◌⊎◌, true, false, [], ◌∷◌, ◌≤◌, none, some, ◌==◌, string_eq, pair_eq,
  triple_eq, arith, inl, filter, elem, List,
}
use hallpass.Prelude.Dict
use hallpass.Identity.{Principal}
use hallpass.Identity.Verifier as Verifier
use hallpass.Gating.{ToolSpec, authorize, register, catalog}
use hallpass.RateLimit.{check}
use hallpass.Connectors.{run, Connector}
use hallpass.Prelude.Sets.{difference, subset}
use hallpass.Gating as Gating
use hallpass.Idempotency.Laws.{memory_laws}
use hallpass.Idempotency.{memory_ops}
use hallpass.Core.Types.{App, Answer, answer, error, no_service, unauthenticated, Handler}
use hallpass.Core.Registry.{named, add_connector}
use hallpass.Core.Registry.Valid.{add_all}
use hallpass.Core.Requests.{call_tool, search_tools}
use hallpass.Core.Requests.Frames.{Untouched}
use hallpass.Core.Requests.Effects.{
  Allowed, call_tool-effect, call_tool-refused, call_tool-isolates,
}
use hallpass.Core.Requests.Trail.{Grown, call_tool-Grown}
use hallpass.Core.Requests.Replay.Once.{ToolCall, after_calls, call_tool_once}
use hallpass.Core.Requests.Total.{call_tool-serves}
use hallpass.Core.Requests.Search.{search_tools-authorize}
use hallpass.Tests.Fixtures.{
  demo, ann, demo_wiring, write_note, ready, ready-IsValid, noon, after_noon, notes, bare,
}

abbrev subject_of : Verifier.Result Principal → String
subject_of (Verifier.ok p) = p.subject
subject_of (Verifier.raise _) = ""

abbrev read_note : ToolSpec (Handler demo)
read_note = record write_note { name = "read_note" }

abbrev archive : Connector (Handler demo)
archive = record { service = "archive"; available = some true; tools = read_note ∷ [] }

abbrev called : Answer String String × App demo
called = call_tool demo_wiring "ann's" "write_note" "hi" (some "k1") noon ready

abbrev forged : Answer String String × App demo
forged = call_tool demo_wiring "forged" "write_note" "hi" none noon ready

call_tool-effect_example :
    Untouched ready called.1 ⊎ Allowed demo_wiring ready "ann's" "write_note" "hi" noon called
call_tool-effect_example =
    call_tool-effect demo_wiring "ann's" "write_note" "hi" (some "k1") noon ready

call_tool-isolates_example :
    Dict.get called.1.vault.entries ("bob", "notes") ≡ Dict.get ready.vault.entries ("bob", "notes")
call_tool-isolates_example =
    call_tool-isolates demo_wiring "ann's" "write_note" "hi" (some "k1") noon ready "bob" "notes"
      (λ p e. subst (λ s. (s == "bob") ≡ false) (ap subject_of e) refl)

call_tool-refused_example : Untouched ready forged.1
unfolding call_tool
call_tool-refused_example =
    call_tool-refused demo_wiring "forged" "write_note" "hi" none noon ready
      (unauthenticated (Verifier.rejected Verifier.token_rejected)) refl tt

call_tool-Grown_example : Grown ready.audit (some "allow") "write_note" called.1.audit
unfolding call_tool check add_connector register Dict.get authorize Dict.put difference filter elem
    memory_ops run memory_laws subset catalog
call_tool-Grown_example =
    call_tool-Grown demo_wiring refl "ann's" "write_note" "hi" (some "k1") noon ready

abbrev between : List (ToolCall demo)
between =
    record { token = "ann's"; name = "write_note"; args = "other"; key = some "k2"; times = noon }
    ∷ record { token = "ann's"; name = "write_note"; args = "third"; key = none; times = noon }
    ∷ []

abbrev retried_on : App demo
retried_on = after_calls demo_wiring between called.1

call_tool_once_example :
    ((call_tool demo_wiring "ann's" "write_note" "again" (some "k1") after_noon retried_on).0
      ≡ answer "done")
    × Untouched retried_on
        (call_tool demo_wiring "ann's" "write_note" "again" (some "k1") after_noon retried_on).1
unfolding call_tool check add_connector register Dict.get authorize Dict.put difference filter elem
    memory_ops run memory_laws subset catalog
call_tool_once_example =
    call_tool_once demo_wiring memory_ops refl memory_laws "ann's" "ann's" "write_note" "k1" "hi"
      "again" noon after_noon between ready ann (named "notes" write_note) "done" refl refl refl
      (omega arith, (omega arith, omega arith)) (omega arith) retried_on refl refl refl refl

abbrev registered : App demo
registered = add_all (notes ∷ archive ∷ notes ∷ []) bare

call_tool-serves_example :
    (call_tool demo_wiring "ann's" "write_note" "hi" (some "k1") noon registered).0
    ≢ error no_service
call_tool-serves_example =
    call_tool-serves demo_wiring (notes ∷ archive ∷ notes ∷ []) "ann's" "write_note" "hi"
      (some "k1") noon bare refl refl

search_tools-authorize_example :
    (1 ≤ 3)
    × ((p : Principal) × (Verifier.ok ann ≡ Verifier.ok p)
        × ((s : ToolSpec (Handler demo)) × (authorize p "write_note" ready.gate ≡ Gating.ok s)))
unfolding search_tools add_connector register Dict.get authorize Dict.put difference filter elem
    memory_ops run memory_laws subset catalog
search_tools-authorize_example =
    search_tools-authorize demo_wiring "ann's" noon ready "note" 3 (named "notes" write_note ∷ [])
      (named "notes" write_note) ready-IsValid refl (inl refl)
