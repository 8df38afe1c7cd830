-- ===== src/Core/Requests/Replay/Once.antt =====
-- Retried calls of src/hallpass/core.py, with other calls in between, each after the one before.
use mathlib.Core.Path.{subst}
use hallpass.Prelude.{
  String, ℕ, ◌+◌, ◌≤◌, ◌≡◌, refl, sym, ◌∙◌, ◌==◌, true, false, List, [], ◌∷◌, Option, none, some,
  arith, Bool-cases, Option-cases, inl, inr, string_eq, triple_eq, triple_beq_iff, ◌⊎◌,
}
use hallpass.Prelude.Dict
use hallpass.Identity.{Principal}
use hallpass.Identity.Verifier as Verifier
use hallpass.Gating.{ToolSpec, authorize}
use hallpass.Gating as Gating
use hallpass.Connectors.{UserContext, run}
use hallpass.Idempotency.{StoreOps, StoreLaws, CallKey}
use hallpass.Core.Types.{Types, Handler, Wiring, App, Times, answer}
use hallpass.Core.Requests.{
  remember_result, execute, look_up, gated, within_budget, deny_unverified, call_tool,
}
use hallpass.Core.Requests.Frames.{Outcome-cases, GateResult-cases, Untouched}
use hallpass.Core.Requests.Replay.{
  note-store, look_up_lem, within_budget-store, call_tool_replay, call_tool_remembers,
}

-- A call of `call_tool`.
pub record ToolCall (T : Types) : Type 0 where
  pub token : String
  pub name : String
  pub args : T.Args
  pub key : Option String
  pub times : Times

-- The calls read the store in this order, none before `at` and none after `later`.
abbrev pub InOrder : {T : Types} → ℕ → ℕ → List (ToolCall T) → Type 0
InOrder at later [] = at ≤ later
InOrder at later (c ∷ calls) = (at ≤ c.times.lookup) × InOrder c.times.lookup later calls

InOrder-bound :
    {T : Types} (at later : ℕ) (calls : List (ToolCall T)) → InOrder at later calls → at ≤ later
InOrder-bound at later [] h = h
InOrder-bound at later (c ∷ calls) h =
    omega (arith, h.0, InOrder-bound c.times.lookup later calls h.1)

module _ {T : Types} (w : Wiring T) where
  abbrev call_of : ToolCall T → App T → App T
  call_of c app = (call_tool w c.token c.name c.args c.key c.times app).1

  -- The state after these calls, each on the state that the one before left.
  abbrev pub after_calls : List (ToolCall T) → App T → App T
  after_calls [] app = app
  after_calls (c ∷ calls) app = after_calls calls (call_of c app)

  module _ (ops : StoreOps T.S T.Out) (wired : w.idempotency ≡ some ops) (laws : StoreLaws ops)
      (k : CallKey) (out : T.Out) (later : ℕ) where
    -- From `at` to `later` the store holds the result under the key.
    abbrev Holds : ℕ → T.S → Type 0
    Holds at s = (n : ℕ) → at ≤ n → n ≤ later → laws.held s k n ≡ some out

    put-Holds :
        (j : CallKey) (x : T.Out) (now at : ℕ) (s : T.S)
        → (j == k) ≡ false
        → Holds at s
        → Holds at (ops.put j x now s)
    put-Holds j x now at s other h n a b = laws.held_put_other j k x now n s other ∙ h n a b

    remember-Holds :
        (p : Principal) (name : String) (key : Option String) (x : T.Out) (now at : ℕ) (app : App T)
        → (key ≡ none) ⊎ ((j : String) × (key ≡ some j) × (((p.subject, name, j) == k) ≡ false))
        → Holds at app.store_state
        → Holds at (remember_result w p name key x now app).store_state
    unfolding remember_result
    remember-Holds p name none x now at app o h = h
    remember-Holds p name (some j) x now at app (inl e) h = cc
    remember-Holds p name (some j) x now at app (inr (j', e, other)) h =
        let same : j ≡ j' = ground arith in
        rw wired (
          put-Holds (p.subject, name, j) x now at app.store_state
            (subst (λ i. ((p.subject, name, i) == k) ≡ false) (sym same) other) h)

    execute-Holds :
        (p : Principal) (spec : ToolSpec (Handler T)) (name : String) (args : T.Args)
        (key : Option String) (t : Times) (at : ℕ) (app : App T)
        → (key ≡ none) ⊎ ((j : String) × (key ≡ some j) × (((p.subject, name, j) == k) ≡ false))
        → Holds at app.store_state
        → Holds at (execute w p spec name args key t app).1.store_state
    unfolding execute
    execute-Holds p spec name args key t at app o h =
        elim (Option-cases (Dict.get app.service_of name)) [
          | inl e ↦ rw (e, execute) h
          | inr (service, e) ↦
              let ctx : UserContext = record { principal = p; service = service } in
              let r = run w.fernet ctx w.env (spec.handler args) app.vault app.world in
              let app' : App T = record app { vault = r.1; world = r.2 } in
              elim (Outcome-cases r.0) [
                | inl (x, f) ↦ rw (e, execute, f) h
                | inr (a, f) ↦
                    rw (e, execute, f)
                      (subst (Holds at) (sym (note-store w ops wired _ _).0)
                        (remember-Holds p name key a t.remembered at app' o h))
              ]
        ]

    -- A look-up leaves the result where it is; under its own key it finds it.
    look_up-Holds :
        (p : Principal) (name : String) (key : Option String) (at now : ℕ) (app : App T)
        → at ≤ now
        → now ≤ later
        → Holds at app.store_state
        → Holds now (look_up w p name key now app).1.store_state
          × (((x : T.Out) × ((look_up w p name key now app).0 ≡ some x))
              ⊎ ((key ≡ none)
                  ⊎ ((j : String) × (key ≡ some j) × (((p.subject, name, j) == k) ≡ false))))
    unfolding look_up
    look_up-Holds p name none at now app a b h =
        (λ n c d. h n (omega (arith, a, c)) d, inr (inl refl))
    look_up-Holds p name (some j) at now app a b h =
        let key : CallKey = (p.subject, name, j) in
        let (looked, store, _) = look_up_lem w ops wired p name j now app in
        (
          subst (Holds now) (sym store)
              (λ n c d. laws.held_get key k now n app.store_state c ∙ h n (omega (arith, a, c)) d),
          elim (Bool-cases (key == k)) [
            | inr other ↦ inr (inr (j, refl, other))
            | inl own ↦ inl (
              out,
              looked
                  ∙ laws.get_held key now app.store_state
                  ∙ subst (λ i. laws.held app.store_state i now ≡ some out)
                      (sym ((triple_beq_iff key k).0 own)) (h now a b),
            )
          ],
        )

    gated-Holds :
        (p : Principal) (name : String) (args : T.Args) (key : Option String) (t : Times) (at : ℕ)
        (app : App T)
        → at ≤ t.lookup
        → t.lookup ≤ later
        → Holds at app.store_state
        → Holds t.lookup (gated w p name args key t app).1.store_state
    unfolding gated
    gated-Holds p name args key t at app a b h =
        elim (GateResult-cases (authorize p name app.gate)) [
          | inl (e, g) ↦
              rw (g, gated)
                (subst (Holds t.lookup) (sym (note-store w ops wired _ _).0)
                  (λ n c d. h n (omega (arith, a, c)) d))
          | inr (spec, g) ↦
              let (kept, found) = look_up-Holds p name key at t.lookup app a b h in
              elim found [
                | inl (x, f) ↦
                    rw (g, gated, f)
                      (subst (Holds t.lookup) (sym (note-store w ops wired _ _).0) kept)
                | inr o ↦ elim (Option-cases (look_up w p name key t.lookup app).0) [
                  | inr (x, f) ↦
                      rw (g, gated, f)
                        (subst (Holds t.lookup) (sym (note-store w ops wired _ _).0) kept)
                  | inl f ↦
                      rw (g, gated, f) (execute-Holds p spec name args key t t.lookup _ o kept)
                ]
              ]
        ]

    call_tool-Holds :
        (c : ToolCall T) (at : ℕ) (app : App T)
        → at ≤ c.times.lookup
        → c.times.lookup ≤ later
        → Holds at app.store_state
        → Holds c.times.lookup (call_of c app).store_state
    unfolding call_tool deny_unverified
    call_tool-Holds c at app a b h =
        let t = c.times in
        let u = w.verifier.verify c.token t.verify_now t.verify_later app.verifier_state in
        let app' : App T = record app { verifier_state = u.1 } in
        let fresh : Holds t.lookup app.store_state = λ n x y. h n (omega (arith, a, x)) y in
        elim (Verifier.Result-cases u.0) [
          | inl (Verifier.crashed, e) ↦ rw (call_of, e, call_tool) fresh
          | inl (Verifier.rejected _, e) ↦
              rw (call_of, e, call_tool)
                (subst (Holds t.lookup) (sym (note-store w ops wired _ _).0) fresh)
          | inr (p, e) ↦
              let (store, _) = within_budget-store w ops wired p t.limit app' in
              elim (Bool-cases (within_budget w p t.limit app').0) [
                | inr over ↦
                    rw (call_of, e, call_tool, over)
                      (subst (Holds t.lookup) (sym (note-store w ops wired _ _).0)
                        (subst (Holds t.lookup) (sym store) fresh))
                | inl within ↦
                    rw (call_of, e, call_tool, within)
                      (gated-Holds p c.name c.args c.key t at (within_budget w p t.limit app').1 a b
                        (subst (Holds at) (sym store) h))
              ]
        ]

    -- Whatever calls come in between, the store still holds the result at the end.
    after_calls-held :
        (calls : List (ToolCall T)) (at : ℕ) (app : App T)
        → InOrder at later calls
        → Holds at app.store_state
        → laws.held (after_calls calls app).store_state k later ≡ some out
    after_calls-held [] at app o h = h later o (omega arith)
    after_calls-held (c ∷ calls) at app o h =
        after_calls-held calls c.times.lookup (call_of c app) o.1
          (call_tool-Holds c at app o.0 (InOrder-bound c.times.lookup later calls o.1) h)

  -- Over any store that keeps its promises, a key that has been answered is not run again: take a
  -- call with a key that ran its handler and answered, then any further calls, one after the other,
  -- by anyone, of any tools and with any keys or none, whose look-ups in the store are in the order
  -- of their times and no earlier than the first call's. Then a call with the same key, of the same
  -- tool by the same principal, that looks the key up no earlier than those and within the time to
  -- live, and that the limiter and the gate let through, gets the first call's answer and touches
  -- neither the credentials nor the world.
  pub call_tool_once :
      (ops : StoreOps T.S T.Out)
      → w.idempotency ≡ some ops
      → (laws : StoreLaws ops)
      → (token token' name key : String) (args args' : T.Args) (t t' : Times)
        (calls : List (ToolCall T)) (app : App T) (p : Principal) (spec : ToolSpec (Handler T))
        (out : T.Out)
      → (w.verifier.verify token t.verify_now t.verify_later app.verifier_state).0 ≡ Verifier.ok p
      → laws.held app.store_state (p.subject, name, key) t.lookup ≡ none
      → (call_tool w token name args (some key) t app).0 ≡ answer out
      → InOrder t.lookup t'.lookup calls
      → t'.lookup ≤ t.remembered + laws.ttl app.store_state
      → (app' : App T) → after_calls calls (call_tool w token name args (some key) t app).1 ≡ app'
      → (w.verifier.verify token' t'.verify_now t'.verify_later app'.verifier_state).0
        ≡ Verifier.ok p
      → (within_budget w p t'.limit (record app' {
        verifier_state =
            (w.verifier.verify token' t'.verify_now t'.verify_later app'.verifier_state).1;
      })).0
        ≡ true
      → authorize p name app'.gate ≡ Gating.ok spec
      → ((call_tool w token' name args' (some key) t' app').0 ≡ answer out)
        × Untouched app' (call_tool w token' name args' (some key) t' app').1
  call_tool_once ops wired laws token token' name key args args' t t' calls app p spec out v m a o f
        app' e v' b g =
      call_tool_replay w ops wired laws token' name key args' t' app' p spec out v' b g (
        subst (λ (x : App T). laws.held x.store_state (p.subject, name, key) t'.lookup ≡ some out) e
          (after_calls-held ops wired laws (p.subject, name, key) out t'.lookup calls t.lookup
            (call_tool w token name args (some key) t app).1 o
            (λ n c d.
              call_tool_remembers w ops wired laws token name key args t app p out n v m a
                (omega (arith, d, f)))))
