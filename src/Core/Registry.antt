-- ===== src/Core/Registry.antt =====
-- `add_connector` of src/hallpass/core.py, and what can be read of the registry.
pub mod Valid
use hallpass.Prelude.{
  String, Bool, true, false, List, [], ◌∷◌, ◌++◌, Option, none, some, string_eq, if◌then◌else◌,
}
use hallpass.Prelude.Dict
use hallpass.Prelude.Dict.{Dict, keys, values}
use hallpass.Prelude.Order.{sort, str_leb}
use hallpass.Gating.{ToolSpec, ToolGate, GateError, register}
use hallpass.Gating as Gating
use hallpass.Connectors.{Connector}
use hallpass.Core.Types.{Types, Handler, App}

-- `named` of the loop: the tool as the connector's own.
abbrev pub named : {H : Type 0} → String → ToolSpec H → ToolSpec H
named service spec = record spec { connector = service }

module _ {T : Types} where
  -- The loop of `add_connector`. `some e` stands for an exception, which leaves the tools before
  -- the one that raised it registered.
  unfoldable pub add_tools : String → List (ToolSpec (Handler T)) → App T → Option GateError × App T
  add_tools service [] app = (none, app)
  add_tools service (spec ∷ specs) app = elim (register (named service spec) app.gate) [
    | Gating.raise e ↦ (some e, app)
    | Gating.ok gate ↦
        add_tools service specs
          (record app { gate = gate; service_of = Dict.put app.service_of spec.name service })
  ]

  -- `add_connector` of a connector that answers this about its availability.
  unfoldable pub add_if : Option Bool → Connector (Handler T) → App T → Option GateError × App T
  unfolding add_tools
  add_if (some false) c app = (none, record app { unavailable = app.unavailable ++ c.service ∷ [] })
  add_if (some true) c app = add_tools c.service c.tools app
  add_if none c app = add_tools c.service c.tools app

  -- `add_connector`
  unfoldable pub add_connector : Connector (Handler T) → App T → Option GateError × App T
  unfolding add_if
  add_connector c app = add_if c.available c app

  -- `tool_names`
  unfoldable pub tool_names : App T → List String
  tool_names app = sort str_leb (keys app.service_of)
