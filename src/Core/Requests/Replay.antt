-- ===== src/Core/Requests/Replay.antt =====
-- Retried calls of src/hallpass/core.py: a call with a key is remembered, and a call that finds its
-- key held is answered from the store.
pub mod Once
use mathlib.Core.Path.{subst}
use hallpass.Prelude.{
  String, ℕ, ◌+◌, ◌≤◌, ◌≡◌, refl, sym, ◌∙◌, true, none, some, arith, Bool-cases, Option-cases, inl,
  inr, ap, string_eq,
}
use hallpass.Prelude.Dict
use hallpass.Identity.{Principal}
use hallpass.Identity.Verifier as Verifier
use hallpass.Gating.{ToolSpec, authorize}
use hallpass.Gating as Gating
use hallpass.Audit.{AuditEvent}
use hallpass.Connectors.{UserContext, run}
use hallpass.Idempotency.{StoreOps, StoreLaws, CallKey}
use hallpass.Core.Types.{Types, Handler, Wiring, App, Times, Answer, answer}
use hallpass.Core.Requests.{
  note, remember_result, execute, look_up, gated, within_budget, call_tool,
}
use hallpass.Core.Requests.Frames.{
  Outcome-cases, GateResult-cases, Untouched, look_up-Untouched, within_budget-Untouched,
  note-frame,
}

module _ {T : Types} (w : Wiring T) (ops : StoreOps T.S T.Out)
    (wired : w.idempotency ≡ some ops) where
  pub note-store :
      (e : AuditEvent) (app : App T)
      → ((note w e app).store_state ≡ app.store_state) × ((note w e app).gate ≡ app.gate)
  unfolding note
  note-store e app = ground arith

  pub look_up_lem :
      (p : Principal) (name key : String) (at : ℕ) (app : App T)
      → ((look_up w p name (some key) at app).0
          ≡ (ops.get (p.subject, name, key) at app.store_state).0)
        × ((look_up w p name (some key) at app).1.store_state
            ≡ (ops.get (p.subject, name, key) at app.store_state).1)
        × ((look_up w p name (some key) at app).1.gate ≡ app.gate)
  unfolding look_up
  look_up_lem p name key at app = ground arith

  pub within_budget-store :
      (p : Principal) (at : ℕ) (app : App T)
      → ((within_budget w p at app).1.store_state ≡ app.store_state)
        × ((within_budget w p at app).1.gate ≡ app.gate)
  unfolding within_budget
  within_budget-store p at app = ground arith

  remember_lem :
      (p : Principal) (name key : String) (out : T.Out) (at : ℕ) (app : App T)
      → ((remember_result w p name (some key) out at app).store_state
          ≡ ops.put (p.subject, name, key) out at app.store_state)
        × ((remember_result w p name (some key) out at app).gate ≡ app.gate)
  unfolding remember_result
  remember_lem p name key out at app = ground arith

  execute-remembers :
      (p : Principal) (spec : ToolSpec (Handler T)) (name key : String) (args : T.Args) (t : Times)
      (app : App T) (out : T.Out)
      → (execute w p spec name args (some key) t app).0 ≡ answer out
      → ((execute w p spec name args (some key) t app).1.store_state
          ≡ ops.put (p.subject, name, key) out t.remembered app.store_state)
        × ((execute w p spec name args (some key) t app).1.gate ≡ app.gate)
  unfolding execute
  execute-remembers p spec name key args t app out h =
      elim (Option-cases (Dict.get app.service_of name)) [
        | inl e ↦ absurd (ground arith)
        | inr (service, e) ↦
            let ctx : UserContext = record { principal = p; service = service } in
            let r = run w.fernet ctx w.env (spec.handler args) app.vault app.world in
            elim (Outcome-cases r.0) [
              | inl (x, o) ↦ absurd (ground arith)
              | inr (a, o) ↦
                  let same : a ≡ out = ground arith in
                  let app' : App T = record app { vault = r.1; world = r.2 } in
                  let (stored, gate) = remember_lem p name key a t.remembered app' in
                  rw (e, execute, o)
                    (
                      (note-store _ _).0
                          ∙ stored
                          ∙ ap (λ x. ops.put (p.subject, name, key) x t.remembered app.store_state)
                              same,
                      (note-store _ _).1 ∙ gate,
                    )
            ]
      ]

  module _ (laws : StoreLaws ops) where
    -- A call that passes the verifier, the limiter and the gate while the store holds a result
    -- under its key is answered with that result, and no handler runs.
    pub call_tool_replay :
        (token name key : String) (args : T.Args) (t : Times) (app : App T) (p : Principal)
        (spec : ToolSpec (Handler T)) (out : T.Out)
        → (w.verifier.verify token t.verify_now t.verify_later app.verifier_state).0 ≡ Verifier.ok p
        → (within_budget w p t.limit (record app {
          verifier_state =
              (w.verifier.verify token t.verify_now t.verify_later app.verifier_state).1;
        })).0
          ≡ true
        → authorize p name app.gate ≡ Gating.ok spec
        → laws.held app.store_state (p.subject, name, key) t.lookup ≡ some out
        → ((call_tool w token name args (some key) t app).0 ≡ answer out)
          × Untouched app (call_tool w token name args (some key) t app).1
    unfolding call_tool gated
    call_tool_replay token name key args t app p spec out verified within granted held =
        let app' : App T = record app {
          verifier_state =
              (w.verifier.verify token t.verify_now t.verify_later app.verifier_state).1;
        } in
        let app'' = (within_budget w p t.limit app').1 in
        let (u, _, _, _) = within_budget-Untouched w p t.limit app' in
        let (store, gate) = within_budget-store p t.limit app' in
        let granted' : authorize p name app''.gate ≡ Gating.ok spec =
          ap (authorize p name) gate ∙ granted in
        let found : (look_up w p name (some key) t.lookup app'').0 ≡ some out =
          (look_up_lem p name key t.lookup app'').0
          ∙ laws.get_held (p.subject, name, key) t.lookup app''.store_state
          ∙ ap (λ s. laws.held s (p.subject, name, key) t.lookup) store
          ∙ held in
        let (v, _, _) = look_up-Untouched w p name (some key) t.lookup app'' in
        rw (verified, call_tool, within, granted', gated, found)
          (
            refl,
            record {
              vault = (note-frame w _ _).0 ∙ v.vault ∙ u.vault;
              world = (note-frame w _ _).1 ∙ v.world ∙ u.world;
            },
          )

    gated_remembers :
        (name key : String) (args : T.Args) (t : Times) (app : App T) (p : Principal) (out : T.Out)
        (later : ℕ)
        → laws.held app.store_state (p.subject, name, key) t.lookup ≡ none
        → (gated w p name args (some key) t app).0 ≡ answer out
        → later ≤ t.remembered + laws.ttl app.store_state
        → laws.held
            (gated w p name args (some key) t app).1.store_state
            (p.subject, name, key)
            later
          ≡ some out
    unfolding gated
    gated_remembers name key args t app p out later missed answered fresh =
        let k : CallKey = (p.subject, name, key) in
        let (looked, store, _) = look_up_lem p name key t.lookup app in
        let miss : (look_up w p name (some key) t.lookup app).0 ≡ none =
          looked ∙ laws.get_held k t.lookup app.store_state ∙ missed in
        let app' = (look_up w p name (some key) t.lookup app).1 in
        elim (GateResult-cases (authorize p name app.gate)) [
          | inl (e, h) ↦ absurd (ground arith)
          | inr (spec, h) ↦
              let done : (execute w p spec name args (some key) t app').0 ≡ answer out =
                ground arith in
              rw (h, gated, miss)
                (ap (λ s. laws.held s k later)
                    (execute-remembers p spec name key args t app' out done).0
                  ∙ laws.held_put k out t.remembered later app'.store_state (
                      subst (λ s. later ≤ t.remembered + laws.ttl s) (sym store)
                        (subst (λ n. later ≤ t.remembered + n)
                          (sym (laws.ttl_get k t.lookup app.store_state)) fresh)))
        ]

    -- After a call with a key that ran its handler and answered, the store holds that answer under
    -- the key until its time to live is over.
    pub call_tool_remembers :
        (token name key : String) (args : T.Args) (t : Times) (app : App T) (p : Principal)
        (out : T.Out) (later : ℕ)
        → (w.verifier.verify token t.verify_now t.verify_later app.verifier_state).0 ≡ Verifier.ok p
        → laws.held app.store_state (p.subject, name, key) t.lookup ≡ none
        → (call_tool w token name args (some key) t app).0 ≡ answer out
        → later ≤ t.remembered + laws.ttl app.store_state
        → laws.held
            (call_tool w token name args (some key) t app).1.store_state
            (p.subject, name, key)
            later
          ≡ some out
    unfolding call_tool
    call_tool_remembers token name key args t app p out later verified missed answered fresh =
        let app' : App T = record app {
          verifier_state =
              (w.verifier.verify token t.verify_now t.verify_later app.verifier_state).1;
        } in
        let app'' = (within_budget w p t.limit app').1 in
        let (store, _) = within_budget-store p t.limit app' in
        elim (Bool-cases (within_budget w p t.limit app').0) [
          | inr over ↦ absurd (ground arith)
          | inl within ↦
              rw (verified, call_tool, within)
                (gated_remembers name key args t app'' p out later
                  (ap (λ s. laws.held s (p.subject, name, key) t.lookup) store ∙ missed)
                  (ground arith) (subst (λ s. later ≤ t.remembered + laws.ttl s) (sym store) fresh))
        ]
