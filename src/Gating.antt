-- ===== src/Gating.antt =====
-- src/hallpass/gating.py: the tool registry, the per-principal catalog and the call-time gate.
pub mod Laws
use hallpass.Prelude.{
  String, List, [], ◌∷◌, Bool, Option, none, some, if◌then◌else◌, filter, string_eq,
}
use hallpass.Prelude.Dict
use hallpass.Prelude.Dict.{Dict, values}
use hallpass.Prelude.Sets.{subset, difference, nonempty}
use hallpass.Identity.{Principal}

-- `ToolAnnotations`
pub record ToolAnnotations : Type 0 where
  pub read_only : Bool
  pub destructive : Bool
  pub idempotent : Bool

-- `ToolSpec`, over the type of the handlers. A schema is kept as its JSON text.
pub record ToolSpec (H : Type 0) : Type 0 where
  pub name : String
  pub description : String
  pub required_scopes : List String
  pub handler : H
  pub connector : String
  pub input_schema : Option String
  pub annotations : ToolAnnotations

-- What the gate raises. `tool_denied` is a subclass of `unknown_tool` and holds the missing scopes.
pub data GateError : Type 0 where
  unknown_tool : String → GateError
  tool_denied : String → List String → GateError
  already_registered : String → GateError

pub data GateResult (A : Type 0) : Type 0 where
  ok : A → GateResult A
  raise : GateError → GateResult A

-- The text of the exception, which is all that a remote caller sees of it.
unfoldable pub message : GateError → String × String
message (unknown_tool name) = ("no tool named", name)
message (tool_denied name missing) = ("no tool named", name)
message (already_registered name) = ("already registered", name)

-- `ToolGate`
pub record ToolGate (H : Type 0) : Type 0 where
  pub tools : Dict String (ToolSpec H)

module _ {H : Type 0} where
  -- `ToolGate.register`
  unfoldable pub register : ToolSpec H → ToolGate H → GateResult (ToolGate H)
  register spec g = elim (Dict.get g.tools spec.name) [
    | some _ ↦ raise (already_registered spec.name)
    | none ↦ ok (record { tools = Dict.put g.tools spec.name spec })
  ]

  -- `ToolGate.catalog`
  unfoldable pub catalog : Principal → ToolGate H → List (ToolSpec H)
  catalog p g = filter (λ spec. subset spec.required_scopes p.scopes) (values g.tools)

  -- `ToolGate.authorize`
  unfoldable pub authorize : Principal → String → ToolGate H → GateResult (ToolSpec H)
  authorize p name g = elim (Dict.get g.tools name) [
    | none ↦ raise (unknown_tool name)
    | some spec ↦
        let missing = difference spec.required_scopes p.scopes in
        if nonempty missing then raise (tool_denied name missing) else ok spec
  ]
