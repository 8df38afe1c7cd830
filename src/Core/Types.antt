-- ===== src/Core/Types.antt =====
-- src/hallpass/core.py: the state of the core and what its calls answer. The verifier, the rate
-- limiter and the idempotency store are interfaces over their states; the readings of the clocks
-- are arguments.
use hallpass.Prelude.{String, ℕ, Bool, List, Option, string_eq, triple_eq}
use hallpass.Prelude.Dict.{Dict}
use hallpass.Identity.{Principal}
use hallpass.Identity.Verifier.{Failure, rejected, crashed}
use hallpass.Identity.Verifier as Verifier
use hallpass.Gating.{ToolSpec, ToolGate, GateError}
use hallpass.Idempotency.{StoreOps}
use hallpass.Vault.{Fernet, Vault}
use hallpass.Connectors.{Script}
use hallpass.Audit.{AuditEvent}

-- The verifier, as the core calls it: a token at two readings of the clock.
pub record VerifierOps (V : Type 0) : Type 0 where
  pub verify : String → ℕ → ℕ → V → Verifier.Result Principal × V

-- `RateLimiter`: `false` stands for `RateLimited`.
pub record LimiterOps (L : Type 0) : Type 0 where
  pub check : String → ℕ → L → Bool × L

-- The types that a deployment chooses: states of the verifier, the limiter and the store,
-- ciphertexts, the world of the downstream services, and what handlers deal in.
pub record Types : Type 1 where
  pub V : Type 0
  pub L : Type 0
  pub S : Type 0
  pub C : Type 0
  pub W : Type 0
  pub Args : Type 0
  pub Request : Type 0
  pub Reply : Type 0
  pub Out : Type 0
  pub Err : Type 0

module _ (T : Types) where
  open T use {V, L, S, C, W, Args, Request, Reply, Out, Err}

  -- A tool's handler: what it does on given arguments.
  abbrev pub Handler : Type 0
  Handler = Args → Script Request Reply Out Err

  -- The arguments of `Hallpass.__init__` that stay as they are, and the world's answers.
  pub record Wiring : Type 0 where
    pub verifier : VerifierOps V
    pub limiter : Option (LimiterOps L)
    pub idempotency : Option (StoreOps S Out)
    pub has_audit : Bool
    pub ranker : String → List (ToolSpec Handler) → List (ToolSpec Handler)
    pub fernet : Fernet C
    pub env : Request → W → Reply × W

  -- `Hallpass`, with all that its calls change. `audit` lists the events that were recorded.
  pub record App : Type 0 where
    pub verifier_state : V
    pub limiter_state : L
    pub store_state : S
    pub gate : ToolGate Handler
    pub service_of : Dict String String
    pub unavailable : List String
    pub vault : Vault C
    pub audit : List AuditEvent
    pub world : W

-- The readings of the clocks during one call, in the order in which the code takes them.
pub record Times : Type 0 where
  pub verify_now : ℕ
  pub verify_later : ℕ
  pub limit : ℕ
  pub lookup : ℕ
  pub started : ℕ
  pub finished : ℕ
  pub remembered : ℕ
  pub recorded : ℕ

-- What a call raises; `no_service` is the `KeyError` of a tool that has no connector.
pub data CallError (Err : Type 0) : Type 0 where
  unauthenticated : Failure → CallError Err
  rate_limited : CallError Err
  refused : GateError → CallError Err
  no_service : CallError Err
  handler_raised : Err → CallError Err

pub data Answer (Err A : Type 0) : Type 0 where
  answer : A → Answer Err A
  error : CallError Err → Answer Err A
