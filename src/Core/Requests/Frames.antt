-- ===== src/Core/Requests/Frames.antt =====
-- The parts of `call_tool` of src/hallpass/core.py that touch neither credentials nor world.
use hallpass.Prelude.{
  String, ℕ, ◌≡◌, refl, ◌∙◌, Option, none, some, string_eq, pair_eq, arith, ◌⊎◌, inl, inr,
}
use hallpass.Identity.{Principal}
use hallpass.Identity.Verifier.{Failure, rejected, crashed}
use hallpass.Gating.{ToolSpec, GateError, authorize}
use hallpass.Gating as Gating
use hallpass.Connectors.{Outcome, returned, raised}
use hallpass.Audit.{AuditEvent}
use hallpass.Core.Types.{
  Types, Wiring, App, Answer, answer, error, CallError, unauthenticated, rate_limited, refused,
  no_service, handler_raised,
}
use hallpass.Core.Requests.{note, deny_unverified, remember_result, look_up, within_budget}

pub Outcome-cases :
    {Out Err : Type 0} (o : Outcome Out Err)
    → ((e : Err) × (o ≡ raised e)) ⊎ ((a : Out) × (o ≡ returned a))
Outcome-cases (raised e) = inl (e, refl)
Outcome-cases (returned a) = inr (a, refl)

pub GateResult-cases :
    {A : Type 0} (r : Gating.GateResult A)
    → ((e : GateError) × (r ≡ Gating.raise e)) ⊎ ((a : A) × (r ≡ Gating.ok a))
GateResult-cases (Gating.raise e) = inl (e, refl)
GateResult-cases (Gating.ok a) = inr (a, refl)

-- What a caller is told of a handler's outcome.
abbrev pub answer_of : {Out Err : Type 0} → Outcome Out Err → Answer Err Out
answer_of (returned a) = answer a
answer_of (raised e) = error (handler_raised e)

-- The call has not touched the credentials or the world.
pub record Untouched {T : Types} (before after : App T) : Type 0 where
  pub vault : after.vault ≡ before.vault
  pub world : after.world ≡ before.world

-- Refusals that are decided before a handler runs.
abbrev pub IsRefusal : {Err : Type 0} → CallError Err → Type 0
IsRefusal (handler_raised _) = ⊥
IsRefusal (unauthenticated _) = Unit
IsRefusal rate_limited = Unit
IsRefusal (refused _) = Unit
IsRefusal no_service = Unit

module _ {T : Types} (w : Wiring T) where
  pub look_up-Untouched :
      (p : Principal) (name : String) (key : Option String) (at : ℕ) (app : App T)
      → Untouched app (look_up w p name key at app).1
        × ((look_up w p name key at app).1.service_of ≡ app.service_of)
        × ((look_up w p name key at app).1.audit ≡ app.audit)
  unfolding look_up
  look_up-Untouched p name none at app = (record { vault = refl; world = refl }, refl, refl)
  look_up-Untouched p name (some key) at app = ground arith

  pub within_budget-Untouched :
      (p : Principal) (at : ℕ) (app : App T)
      → Untouched app (within_budget w p at app).1
        × ((within_budget w p at app).1.gate ≡ app.gate)
        × ((within_budget w p at app).1.service_of ≡ app.service_of)
        × ((within_budget w p at app).1.audit ≡ app.audit)
  unfolding within_budget
  within_budget-Untouched p at app = ground arith

  pub note-frame :
      (e : AuditEvent) (app : App T)
      → ((note w e app).vault ≡ app.vault) × ((note w e app).world ≡ app.world)
  unfolding note
  note-frame e app = ground arith

  pub deny_unverified-Untouched :
      (action : String) (tool : Option String) (at : ℕ) (f : Failure) (before app : App T)
      → app.vault ≡ before.vault
      → app.world ≡ before.world
      → Untouched before (deny_unverified w action tool at f app)
  unfolding deny_unverified
  deny_unverified-Untouched action tool at (rejected r) before app v x = record {
    vault = (note-frame _ _).0 ∙ v;
    world = (note-frame _ _).1 ∙ x;
  }
  deny_unverified-Untouched action tool at crashed before app v x = record { vault = v; world = x }

  pub remember_result-frame :
      (p : Principal) (name : String) (key : Option String) (out : T.Out) (at : ℕ) (app : App T)
      → ((remember_result w p name key out at app).vault ≡ app.vault)
        × ((remember_result w p name key out at app).world ≡ app.world)
  unfolding remember_result
  remember_result-frame p name none out at app = (refl, refl)
  remember_result-frame p name (some key) out at app = ground arith
