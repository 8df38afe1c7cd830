-- ===== src/Core/Requests.antt =====
-- `list_tools`, `search_tools` and `call_tool` of src/hallpass/core.py.
pub mod Frames
pub mod Effects
pub mod Trail
pub mod Replay
pub mod Total
pub mod Search
use hallpass.Prelude.{
  String, ℕ, ◌-◌, ◌*◌, Bool, true, false, List, [], ◌∷◌, ◌++◌, Option, none, some, string_eq,
  if◌then◌else◌, map, filter, elem, take, length,
}
use hallpass.Prelude.Dict
use hallpass.Prelude.Dict.{Dict}
use hallpass.Identity.{Principal}
use hallpass.Identity.Verifier.{Failure, rejected, crashed}
use hallpass.Identity.Verifier as Verifier
use hallpass.Gating.{ToolSpec, ToolGate, catalog, authorize}
use hallpass.Gating as Gating
use hallpass.Idempotency.{StoreOps}
use hallpass.Connectors.{Outcome, returned, raised, UserContext, run}
use hallpass.Audit.{AuditEvent, Reason, text, hits, unverified}
use hallpass.Core.Types.{
  Types, Handler, Wiring, App, Times, Answer, answer, error, CallError, unauthenticated,
  rate_limited, refused, no_service, handler_raised,
}

abbrev pub event : String → String → String → Option String → Reason → ℕ → Option ℕ → AuditEvent
event action subject decision tool reason at duration = record {
  subject = subject;
  action = action;
  decision = decision;
  tool = tool;
  reason = reason;
  at = at;
  duration = duration;
}

-- The event of a call of `name`.
abbrev pub call_event : Principal → String → String → String → Times → Option ℕ → AuditEvent
call_event p name decision reason t duration =
    event "call_tool" p.subject decision (some name) (text reason) t.recorded duration

module _ {T : Types} where
  -- `_record`
  unfoldable pub note : Wiring T → AuditEvent → App T → App T
  note w event app = if w.has_audit then record app { audit = app.audit ++ event ∷ [] } else app

  -- The exception of a failed `verify`: only a `VerificationError` is recorded.
  unfoldable pub deny_unverified : Wiring T → String → Option String → ℕ → Failure → App T → App T
  unfolding note
  deny_unverified w action tool at (rejected _) app =
      note w (event action unverified "deny" tool (text "authentication") at none) app
  deny_unverified w action tool at crashed app = app

  -- `list_tools`
  unfoldable pub list_tools :
      Wiring T → String → Times → App T → Answer T.Err (List (ToolSpec (Handler T))) × App T
  unfolding deny_unverified note
  list_tools w token t app =
      let (verified, verifier_state) =
        w.verifier.verify token t.verify_now t.verify_later app.verifier_state in
      let app' : App T = record app { verifier_state = verifier_state } in
      elim verified [
        | Verifier.raise f ↦
            (error (unauthenticated f), deny_unverified w "list_tools" none t.recorded f app')
        | Verifier.ok p ↦ (
          answer (catalog p app'.gate),
          note w (event "list_tools" p.subject "allow" none (text "") t.recorded none) app',
        )
      ]

  -- `search_tools`; a negative limit is the limit 0.
  unfoldable pub search_tools :
      Wiring T
      → String
      → String
      → ℕ
      → Times
      → App T
      → Answer T.Err (List (ToolSpec (Handler T))) × App T
  unfolding deny_unverified note
  search_tools w token query limit t app =
      let (verified, verifier_state) =
        w.verifier.verify token t.verify_now t.verify_later app.verifier_state in
      let app' : App T = record app { verifier_state = verifier_state } in
      elim verified [
        | Verifier.raise f ↦
            (error (unauthenticated f), deny_unverified w "search_tools" none t.recorded f app')
        | Verifier.ok p ↦
            let authorized = catalog p app'.gate in
            let allowed = map (λ spec. spec.name) authorized in
            let ranked =
              take limit (filter (λ spec. elem spec.name allowed) (w.ranker query authorized)) in
            (
              answer ranked,
              note w
                  (event "search_tools" p.subject "allow" none (hits (length ranked)) t.recorded
                    none)
                  app',
            )
      ]

  -- `store.put` after the handler has returned.
  unfoldable pub remember_result :
      Wiring T → Principal → String → Option String → T.Out → ℕ → App T → App T
  remember_result w p name none out at app = app
  remember_result w p name (some key) out at app = elim w.idempotency [
    | none ↦ app
    | some ops ↦ record app { store_state = ops.put (p.subject, name, key) out at app.store_state }
  ]

  -- The end of `call_tool`: the handler runs in the caller's context. What it raises goes through,
  -- and neither the store nor the audit sink hears of it.
  unfoldable pub execute :
      Wiring T
      → Principal
      → ToolSpec (Handler T)
      → String
      → T.Args
      → Option String
      → Times
      → App T
      → Answer T.Err T.Out × App T
  unfolding note remember_result
  execute w p spec name args key t app = elim (Dict.get app.service_of name) [
    | none ↦ (error no_service, app)
    | some service ↦
        let ctx : UserContext = record { principal = p; service = service } in
        let (outcome, vault, world) =
          run w.fernet ctx w.env (spec.handler args) app.vault app.world in
        let app' : App T = record app { vault = vault; world = world } in
        elim outcome [
          | raised e ↦ (error (handler_raised e), app')
          | returned out ↦ (
            answer out,
            note w (call_event p name "allow" "" t (some ((t.finished - t.started) * 1000)))
                (remember_result w p name key out t.remembered app'),
          )
        ]
  ]

  -- `store.get`, if the caller gives a key and a store is wired.
  unfoldable pub look_up :
      Wiring T → Principal → String → Option String → ℕ → App T → Option T.Out × App T
  look_up w p name none at app = (none, app)
  look_up w p name (some key) at app = elim w.idempotency [
    | none ↦ (none, app)
    | some ops ↦
        let (found, store_state) = ops.get (p.subject, name, key) at app.store_state in
        (found, record app { store_state = store_state })
  ]

  -- `call_tool` once the principal is within its budget: authorize, replay or execute.
  unfoldable pub gated :
      Wiring T
      → Principal
      → String
      → T.Args
      → Option String
      → Times
      → App T
      → Answer T.Err T.Out × App T
  unfolding look_up execute note
  gated w p name args key t app = elim (authorize p name app.gate) [
    | Gating.raise e ↦
        (error (refused e), note w (call_event p name "deny" "not_authorized" t none) app)
    | Gating.ok spec ↦
        let (found, app') = look_up w p name key t.lookup app in
        elim found [
          | some cached ↦ (answer cached, note w (call_event p name "allow" "replay" t none) app')
          | none ↦ execute w p spec name args key t app'
        ]
  ]

  -- `self._rate_limiter.check`, if a limiter is wired: whether the call passes.
  unfoldable pub within_budget : Wiring T → Principal → ℕ → App T → Bool × App T
  within_budget w p at app = elim w.limiter [
    | none ↦ (true, app)
    | some ops ↦
        let (passes, limiter_state) = ops.check p.subject at app.limiter_state in
        (passes, record app { limiter_state = limiter_state })
  ]

  -- `call_tool`
  unfoldable pub call_tool :
      Wiring T
      → String
      → String
      → T.Args
      → Option String
      → Times
      → App T
      → Answer T.Err T.Out × App T
  unfolding within_budget gated note deny_unverified
  call_tool w token name args key t app =
      let (verified, verifier_state) =
        w.verifier.verify token t.verify_now t.verify_later app.verifier_state in
      let app' : App T = record app { verifier_state = verifier_state } in
      elim verified [
        | Verifier.raise f ↦
            (error (unauthenticated f), deny_unverified w "call_tool" (some name) t.recorded f app')
        | Verifier.ok p ↦
            let (passes, app'') = within_budget w p t.limit app' in
            if passes
            then gated w p name args key t app''
            else (error rate_limited, note w (call_event p name "deny" "rate_limited" t none) app'')
      ]
