-- ===== src/Core/Requests/Total.antt =====
-- However connectors are added, `call_tool` of src/hallpass/core.py never meets a tool with no
-- connector.
use hallpass.Prelude.{
  String, ◌≡◌, ◌≢◌, sym, ◌∙◌, true, List, [], Option, arith, Bool-cases, Option-cases, inl, inr, ap,
  string_eq,
}
use hallpass.Prelude.Dict
use hallpass.Identity.{Principal}
use hallpass.Identity.Verifier as Verifier
use hallpass.Gating.{ToolSpec, authorize}
use hallpass.Gating.Laws.{authorize-ok_iff}
use hallpass.Connectors.{run, Connector}
use hallpass.Core.Types.{Types, Handler, Wiring, App, Times, error, no_service}
use hallpass.Core.Registry.Valid.{IsValid, add_all, add_all-IsValid, nothing-IsValid}
use hallpass.Core.Requests.{execute, look_up, gated, within_budget, call_tool}
use hallpass.Core.Requests.Frames.{
  Outcome-cases, GateResult-cases, look_up-Untouched, within_budget-Untouched,
}

module _ {T : Types} (w : Wiring T) where
  execute-serves :
      (p : Principal) (spec : ToolSpec (Handler T)) (name : String) (args : T.Args)
      (key : Option String) (t : Times) (app : App T)
      → Dict.has app.service_of name ≡ true
      → (execute w p spec name args key t app).0 ≢ error no_service
  unfolding execute
  execute-serves p spec name args key t app h r =
      elim (Option-cases (Dict.get app.service_of name)) [
        | inl e ↦ cc
        | inr (service, e) ↦
            elim (Outcome-cases
              (run w.fernet (record { principal = p; service = service }) w.env (spec.handler args)
                app.vault app.world).0) [
                  | inl (x, o) ↦ absurd (ground arith)
                  | inr (a, o) ↦ absurd (ground arith)
                ]
      ]

  gated-serves :
      (p : Principal) (name : String) (args : T.Args) (key : Option String) (t : Times)
      (app : App T)
      → ((n : String) → Dict.has app.service_of n ≡ Dict.has app.gate.tools n)
      → (gated w p name args key t app).0 ≢ error no_service
  unfolding gated
  gated-serves p name args key t app served r =
      elim (GateResult-cases (authorize p name app.gate)) [
        | inl (e, h) ↦ absurd (ground arith)
        | inr (spec, h) ↦ elim (Option-cases (look_up w p name key t.lookup app).0) [
          | inr (out, f) ↦ absurd (ground arith)
          | inl f ↦
              let (_, same, _) = look_up-Untouched w p name key t.lookup app in
              let (found, _) = (authorize-ok_iff p name app.gate spec).0 h in
              execute-serves p spec name args key t (look_up w p name key t.lookup app).1
                (ap (λ d. Dict.has d name) same ∙ served name ∙ (ground arith)) (ground arith)
        ]
      ]

  -- On a well-formed registry the look-up of the connector's service never fails.
  valid-serves :
      (token name : String) (args : T.Args) (key : Option String) (t : Times) (app : App T)
      → IsValid app
      → (call_tool w token name args key t app).0 ≢ error no_service
  unfolding call_tool
  valid-serves token name args key t app v r =
      let u = w.verifier.verify token t.verify_now t.verify_later app.verifier_state in
      let app' : App T = record app { verifier_state = u.1 } in
      elim (Verifier.Result-cases u.0) [
        | inl (f, e) ↦ absurd (ground arith)
        | inr (p, e) ↦
            let (_, gate, services, _) = within_budget-Untouched w p t.limit app' in
            let app'' = (within_budget w p t.limit app').1 in
            elim (Bool-cases (within_budget w p t.limit app').0) [
              | inr over ↦ absurd (ground arith)
              | inl within ↦
                  gated-serves p name args key t app''
                    (λ n.
                      ap (λ d. Dict.has d n) services
                      ∙ v.served n
                      ∙ ap (λ g. Dict.has g.tools n) (sym gate))
                    (ground arith)
            ]
      ]

  -- Start with no tools and no connectors, and add any connectors one after the other, also ones
  -- whose registration raises because a name is taken, and ones that are unavailable: on what that
  -- leaves, `call_tool` never fails to find the service of a tool's connector.
  pub call_tool-serves :
      (cs : List (Connector (Handler T))) (token name : String) (args : T.Args)
      (key : Option String) (t : Times) (app : App T)
      → app.gate.tools ≡ []
      → app.service_of ≡ []
      → (call_tool w token name args key t (add_all cs app)).0 ≢ error no_service
  call_tool-serves cs token name args key t app gate services =
      valid-serves token name args key t (add_all cs app)
        (add_all-IsValid cs app (nothing-IsValid app gate services))
