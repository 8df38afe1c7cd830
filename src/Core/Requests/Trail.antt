-- ===== src/Core/Requests/Trail.antt =====
-- What `call_tool` of src/hallpass/core.py leaves in the audit trail.
use mathlib.Core.Path.{subst}
use hallpass.Prelude.{
  String, ℕ, ◌≡◌, refl, ◌∙◌, true, List, [], ◌∷◌, ◌++◌, Option, none, some, arith, Bool-cases,
  Option-cases, inl, inr, ap, string_eq,
}
use hallpass.Prelude.Dict
use hallpass.Identity.{Principal}
use hallpass.Identity.Verifier.{Failure, rejected, crashed}
use hallpass.Identity.Verifier as Verifier
use hallpass.Gating.{ToolSpec, authorize}
use hallpass.Audit.{AuditEvent}
use hallpass.Connectors.{UserContext, run}
use hallpass.Core.Types.{
  Types, Handler, Wiring, App, Times, Answer, answer, error, unauthenticated, rate_limited, refused,
  no_service, handler_raised,
}
use hallpass.Core.Requests.{
  note, deny_unverified, remember_result, execute, look_up, gated, within_budget, call_tool,
}
use hallpass.Core.Requests.Frames.{
  Outcome-cases, GateResult-cases, look_up-Untouched, within_budget-Untouched,
}

-- The decision that an answer of `call_tool` leaves in the trail, if it leaves one.
abbrev pub trace : {Err Out : Type 0} → Answer Err Out → Option String
trace (answer _) = some "allow"
trace (error (unauthenticated (rejected _))) = some "deny"
trace (error (unauthenticated crashed)) = none
trace (error rate_limited) = some "deny"
trace (error (refused _)) = some "deny"
trace (error no_service) = none
trace (error (handler_raised _)) = none

-- The trail has grown by one event of this decision about this tool, or, without a decision, not.
abbrev pub Grown : List AuditEvent → Option String → String → List AuditEvent → Type 0
Grown before none name after = after ≡ before
Grown before (some decision) name after =
    (e : AuditEvent) × (after ≡ before ++ e ∷ [])
    × (e.decision ≡ decision)
    × (e.action ≡ "call_tool")
    × (e.tool ≡ some name)

module _ {T : Types} (w : Wiring T) (audited : w.has_audit ≡ true) where
  audit-note : (e : AuditEvent) (app : App T) → (note w e app).audit ≡ app.audit ++ e ∷ []
  unfolding note
  audit-note e app = ground arith

  audit-note_after :
      (e : AuditEvent) (app : App T) {before : List AuditEvent}
      → app.audit ≡ before
      → (note w e app).audit ≡ before ++ e ∷ []
  audit-note_after e app same = audit-note e app ∙ ap (λ l. l ++ e ∷ []) same

  audit-remember_result :
      (p : Principal) (name : String) (key : Option String) (out : T.Out) (at : ℕ) (app : App T)
      → (remember_result w p name key out at app).audit ≡ app.audit
  unfolding remember_result
  audit-remember_result p name none out at app = refl
  audit-remember_result p name (some key) out at app = ground arith

  execute-Grown :
      (p : Principal) (spec : ToolSpec (Handler T)) (name : String) (args : T.Args)
      (key : Option String) (t : Times) (app : App T)
      → let r = execute w p spec name args key t app in Grown app.audit (trace r.0) name r.1.audit
  unfolding execute
  execute-Grown p spec name args key t app = elim (Option-cases (Dict.get app.service_of name)) [
    | inl e ↦ rw (e, execute) refl
    | inr (service, e) ↦
        let ctx : UserContext = record { principal = p; service = service } in
        let r = run w.fernet ctx w.env (spec.handler args) app.vault app.world in
        let app' : App T = record app { vault = r.1; world = r.2 } in
        elim (Outcome-cases r.0) [
          | inl (x, o) ↦ rw (e, execute, o) refl
          | inr (out, o) ↦
              rw (e, execute, o)
                (
                  _,
                  audit-note_after _ _ (audit-remember_result p name key out t.remembered app'),
                  refl,
                  refl,
                  refl,
                )
        ]
  ]

  gated-Grown :
      (p : Principal) (name : String) (args : T.Args) (key : Option String) (t : Times)
      (app : App T)
      → let r = gated w p name args key t app in Grown app.audit (trace r.0) name r.1.audit
  unfolding gated
  gated-Grown p name args key t app = elim (GateResult-cases (authorize p name app.gate)) [
    | inl (e, h) ↦ rw (h, gated) (_, audit-note _ _, refl, refl, refl)
    | inr (spec, h) ↦
        let (_, _, same) = look_up-Untouched w p name key t.lookup app in
        elim (Option-cases (look_up w p name key t.lookup app).0) [
          | inr (out, f) ↦ rw (h, gated, f) (_, audit-note_after _ _ same, refl, refl, refl)
          | inl f ↦
              rw (h, gated, f)
                (subst
                  (λ l.
                    Grown l
                      (trace
                        (execute w p spec name args key t (look_up w p name key t.lookup app).1).0)
                      name
                      (execute w p spec name args key t
                        (look_up w p name key t.lookup app).1).1.audit)
                  same (execute-Grown p spec name args key t (look_up w p name key t.lookup app).1))
        ]
  ]

  deny-Grown :
      (name : String) (at : ℕ) (f : Failure) (app : App T)
      → let a : Answer T.Err T.Out = error (unauthenticated f) in
        Grown app.audit (trace a) name (deny_unverified w "call_tool" (some name) at f app).audit
  unfolding deny_unverified
  deny-Grown name at (rejected r) app = (_, audit-note _ _, refl, refl, refl)
  deny-Grown name at crashed app = refl

  -- With an audit sink, each call that is answered leaves exactly one event, an "allow", and each
  -- call that the verifier, the limiter or the gate refuses exactly one, a "deny", which name the
  -- tool that was asked for. A call whose handler raises, whose tool has no connector, or whose
  -- verification fails by another exception than a `VerificationError`, leaves none.
  pub call_tool-Grown :
      (token name : String) (args : T.Args) (key : Option String) (t : Times) (app : App T)
      → Grown app.audit
          (trace (call_tool w token name args key t app).0)
          name
          (call_tool w token name args key t app).1.audit
  unfolding call_tool
  call_tool-Grown token name args key t app =
      let v = w.verifier.verify token t.verify_now t.verify_later app.verifier_state in
      let app' : App T = record app { verifier_state = v.1 } in
      elim (Verifier.Result-cases v.0) [
        | inl (f, e) ↦ rw (e, call_tool) (deny-Grown name t.recorded f app')
        | inr (p, e) ↦
            let (_, _, _, same) = within_budget-Untouched w p t.limit app' in
            let app'' = (within_budget w p t.limit app').1 in
            elim (Bool-cases (within_budget w p t.limit app').0) [
              | inr over ↦ rw (e, call_tool, over) (_, audit-note_after _ _ same, refl, refl, refl)
              | inl within ↦
                  rw (e, call_tool, within)
                    (subst
                      (λ l.
                        Grown l (trace (gated w p name args key t app'').0) name
                          (gated w p name args key t app'').1.audit)
                      same (gated-Grown p name args key t app''))
            ]
      ]
