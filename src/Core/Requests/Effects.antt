-- ===== src/Core/Requests/Effects.antt =====
-- What a `call_tool` of src/hallpass/core.py may do, and for whom.
use mathlib.Core.Path.{ap₂}
use hallpass.Prelude.{
  String, ◌≡◌, refl, sym, ◌∙◌, ◌==◌, false, Option, some, string_eq, pair_eq, Bool-cases,
  Option-cases, ◌⊎◌, inl, inr, ap,
}
use hallpass.Prelude.Dict
use hallpass.Identity.{Principal}
use hallpass.Identity.Verifier.{Failure, rejected, crashed}
use hallpass.Identity.Verifier as Verifier
use hallpass.Gating.{ToolSpec, GateError, authorize}
use hallpass.Gating as Gating
use hallpass.Vault.{Vault}
use hallpass.Connectors.{Outcome, returned, raised, UserContext, run}
use hallpass.Connectors.Isolation.{run-frame}
use hallpass.Core.Types.{
  Types, Handler, Wiring, App, Times, Answer, error, CallError, unauthenticated, rate_limited,
  refused, no_service, handler_raised,
}
use hallpass.Core.Requests.{execute, look_up, gated, within_budget, call_tool}
use hallpass.Core.Requests.Frames.{
  Outcome-cases, GateResult-cases, answer_of, Untouched, look_up-Untouched, within_budget-Untouched,
  note-frame, deny_unverified-Untouched, IsRefusal, remember_result-frame,
}

module _ {T : Types} (w : Wiring T) where
  -- The handler of `spec` ran for `p`, in the context of its connector's service, and its run is
  -- all that touched the credentials and the world.
  pub record Ran (before : App T) (p : Principal) (spec : ToolSpec (Handler T)) (name : String)
      (args : T.Args) (result : Answer T.Err T.Out × App T) : Type 0 where
    pub service : String
    pub serves : Dict.get before.service_of name ≡ some service
    pub answered :
        result.0
        ≡ answer_of
            (run w.fernet
              (record { principal = p; service = service })
              w.env
              (spec.handler args)
              before.vault
              before.world).0
    pub vault :
        result.1.vault
        ≡ (run w.fernet
            (record { principal = p; service = service })
            w.env
            (spec.handler args)
            before.vault
            before.world).1
    pub world :
        result.1.world
        ≡ (run w.fernet
            (record { principal = p; service = service })
            w.env
            (spec.handler args)
            before.vault
            before.world).2

  -- What ran from a state ran from any with the same credentials, world and connectors.
  move-Ran :
      {before before' : App T} {after : Answer T.Err T.Out × App T} {p : Principal}
      {spec : ToolSpec (Handler T)} {name : String} {args : T.Args}
      → Untouched before before'
      → before'.service_of ≡ before.service_of
      → Ran before' p spec name args after
      → Ran before p spec name args after
  move-Ran {before} {before'} {after} {p} {spec} {name} {args} u s r = record {
    service = r.service;
    serves = ap (λ d. Dict.get d name) (sym s) ∙ r.serves;
    answered = r.answered ∙ ap₂ (λ v x. answer_of (moved v x).0) u.vault u.world;
    vault = r.vault ∙ ap₂ (λ v x. (moved v x).1) u.vault u.world;
    world = r.world ∙ ap₂ (λ v x. (moved v x).2) u.vault u.world;
  }
    where
      moved : Vault T.C → T.W → Outcome T.Out T.Err × Vault T.C × T.W
      moved = run w.fernet (record { principal = p; service = r.service }) w.env (spec.handler args)

  execute-effect :
      (p : Principal) (spec : ToolSpec (Handler T)) (name : String) (args : T.Args)
      (key : Option String) (t : Times) (app : App T)
      → Untouched app (execute w p spec name args key t app).1
        ⊎ Ran app p spec name args (execute w p spec name args key t app)
  unfolding execute
  execute-effect p spec name args key t app = elim (Option-cases (Dict.get app.service_of name)) [
    | inl e ↦ rw (e, execute) (inl (record { vault = refl; world = refl }))
    | inr (service, e) ↦
        let ctx : UserContext = record { principal = p; service = service } in
        let r = run w.fernet ctx w.env (spec.handler args) app.vault app.world in
        let app' : App T = record app { vault = r.1; world = r.2 } in
        inr (elim (Outcome-cases r.0) [
          | inl (x, o) ↦
              rw (e, execute, o)
                (record {
                  service = service;
                  serves = e;
                  answered = ap answer_of (sym o);
                  vault = refl;
                  world = refl;
                })
          | inr (out, o) ↦
              rw (e, execute, o)
                (record {
                  service = service;
                  serves = e;
                  answered = ap answer_of (sym o);
                  vault =
                      (note-frame w _ _).0
                      ∙ (remember_result-frame w p name key out t.remembered app').0;
                  world =
                      (note-frame w _ _).1
                      ∙ (remember_result-frame w p name key out t.remembered app').1;
                })
        ])
  ]

  -- The handler ran, and this is what let it.
  pub record Allowed (before : App T) (token name : String) (args : T.Args) (t : Times)
      (result : Answer T.Err T.Out × App T) : Type 0 where
    pub principal : Principal
    pub verified :
        (w.verifier.verify token t.verify_now t.verify_later before.verifier_state).0
        ≡ Verifier.ok principal
    pub spec : ToolSpec (Handler T)
    pub authorized : authorize principal name before.gate ≡ Gating.ok spec
    pub ran : Ran before principal spec name args result

  gated-effect :
      (p : Principal) (name : String) (args : T.Args) (key : Option String) (t : Times)
      (app : App T)
      → Untouched app (gated w p name args key t app).1
        ⊎ ((spec : ToolSpec (Handler T)) × (authorize p name app.gate ≡ Gating.ok spec)
            × Ran app p spec name args (gated w p name args key t app))
  unfolding gated
  gated-effect p name args key t app = elim (GateResult-cases (authorize p name app.gate)) [
    | inl (e, h) ↦
        rw (h, gated) (inl (record { vault = (note-frame w _ _).0; world = (note-frame w _ _).1 }))
    | inr (spec, h) ↦
        let (same, services, _) = look_up-Untouched w p name key t.lookup app in
        elim (Option-cases (look_up w p name key t.lookup app).0) [
          | inr (out, f) ↦
              rw (h, gated, f)
                (inl (record {
                  vault = (note-frame w _ _).0 ∙ same.vault;
                  world = (note-frame w _ _).1 ∙ same.world;
                }))
          | inl f ↦
              rw (h, gated, f)
                (elim (execute-effect p spec name args key t
                  (look_up w p name key t.lookup app).1) [
                    | inl u ↦
                        inl (record { vault = u.vault ∙ same.vault; world = u.world ∙ same.world })
                    | inr r ↦ inr (spec, refl, move-Ran same services r)
                  ])
        ]
  ]

  -- A call leaves the credentials and the world as they were, or the token has verified, the gate
  -- has let its principal through to the tool, and the effects and the answer are those of one run
  -- of that tool's handler in the context of that principal and its connector's service.
  pub call_tool-effect :
      (token name : String) (args : T.Args) (key : Option String) (t : Times) (app : App T)
      → Untouched app (call_tool w token name args key t app).1
        ⊎ Allowed app token name args t (call_tool w token name args key t app)
  unfolding call_tool
  call_tool-effect token name args key t app =
      let v = w.verifier.verify token t.verify_now t.verify_later app.verifier_state in
      let app' : App T = record app { verifier_state = v.1 } in
      elim (Verifier.Result-cases v.0) [
        | inl (f, e) ↦
            rw (e, call_tool)
              (inl (
                deny_unverified-Untouched w "call_tool" (some name) t.recorded f app app' refl
                  refl))
        | inr (p, e) ↦
            let (same, gate, services, _) = within_budget-Untouched w p t.limit app' in
            elim (Bool-cases (within_budget w p t.limit app').0) [
              | inr over ↦
                  rw (e, call_tool, over)
                    (inl (record {
                      vault = (note-frame w _ _).0 ∙ same.vault;
                      world = (note-frame w _ _).1 ∙ same.world;
                    }))
              | inl within ↦
                  rw (e, call_tool, within)
                    (elim (gated-effect p name args key t (within_budget w p t.limit app').1) [
                      | inl u ↦
                          inl
                            (record { vault = u.vault ∙ same.vault; world = u.world ∙ same.world })
                      | inr (spec, granted, r) ↦ inr (record {
                        principal = p;
                        verified = e;
                        spec = spec;
                        authorized = ap (authorize p name) (sym gate) ∙ granted;
                        ran =
                            move-Ran (record { vault = same.vault; world = same.world }) services r;
                      })
                    ])
            ]
      ]

  -- A call that is refused, by the verifier, the limiter or the gate, leaves the credentials and
  -- the world as they were.
  pub call_tool-refused :
      (token name : String) (args : T.Args) (key : Option String) (t : Times) (app : App T)
      (e : CallError T.Err)
      → (call_tool w token name args key t app).0 ≡ error e
      → IsRefusal e
      → Untouched app (call_tool w token name args key t app).1
  call_tool-refused token name args key t app e h r =
      elim (call_tool-effect token name args key t app) [
        | inl u ↦ u
        | inr a ↦ absurd (no_refusal _ e (sym a.ran.answered ∙ h) r)
      ]
    where
      no_refusal :
          (o : Outcome T.Out T.Err) (e : CallError T.Err) → answer_of o ≡ error e → IsRefusal e → ⊥
      no_refusal (returned a) e h r = cc
      no_refusal (raised x) (handler_raised y) h r = r
      no_refusal (raised x) (unauthenticated f) h r = cc
      no_refusal (raised x) rate_limited h r = cc
      no_refusal (raised x) (refused g) h r = cc
      no_refusal (raised x) no_service h r = cc

  -- Whatever a call does, it does not change a stored credential of any subject but the one that
  -- its token proves.
  pub call_tool-isolates :
      (token name : String) (args : T.Args) (key : Option String) (t : Times) (app : App T)
      (subject service : String)
      → ((p : Principal)
          → (w.verifier.verify token t.verify_now t.verify_later app.verifier_state).0
            ≡ Verifier.ok p
          → (p.subject == subject) ≡ false)
      → Dict.get (call_tool w token name args key t app).1.vault.entries (subject, service)
        ≡ Dict.get app.vault.entries (subject, service)
  call_tool-isolates token name args key t app subject service other =
      elim (call_tool-effect token name args key t app) [
        | inl u ↦ ap (λ v. Dict.get v.entries (subject, service)) u.vault
        | inr a ↦
            ap (λ v. Dict.get v.entries (subject, service)) a.ran.vault
            ∙ run-frame w.fernet (record { principal = a.principal; service = a.ran.service }) w.env
                (a.spec.handler args) app.vault app.world (subject, service)
                (rw (other a.principal a.verified))
      ]
