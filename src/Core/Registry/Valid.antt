-- ===== src/Core/Registry/Valid.antt =====
-- The registry of src/hallpass/core.py stays well formed, and every tool has a connector.
use mathlib.Core.Path.{subst}
use hallpass.Prelude.{
  String, ◌≡◌, ◌≢◌, refl, sym, ap, ◌∙◌, ◌==◌, Bool, true, false, List, [], ◌∷◌, Option, none, some,
  string_eq, if◌then◌else◌, arith, eq_iff, ◌⊎◌, inl, inr, elem, In,
}
use hallpass.Prelude.Dict
use hallpass.Prelude.Dict.{Dict, get-put, keys, elem-keys}
use hallpass.Prelude.Order.{str_leb, elem-sort}
use hallpass.Gating.{ToolSpec, ToolGate}
use hallpass.Gating.Laws as GateLaws
use hallpass.Gating.Laws.{register_lem}
use hallpass.Connectors.{Connector}
use hallpass.Core.Types.{Types, Handler, App}
use hallpass.Core.Registry.{named, add_tools, add_if, add_connector, tool_names}

-- The gate is well formed, and exactly its tools have a connector's service.
pub record IsValid {T : Types} (app : App T) : Type 0 where
  pub gate : GateLaws.IsValid app.gate
  pub served : (name : String) → Dict.has app.service_of name ≡ Dict.has app.gate.tools name

module _ {T : Types} where
  -- One registration of the loop.
  step-IsValid :
      (service : String) (spec : ToolSpec (Handler T)) (app : App T) (g : ToolGate (Handler T))
      → IsValid app
      → GateLaws.IsValid g
      → ((k : String)
          → Dict.get g.tools k
            ≡ (if spec.name == k then some (named service spec) else Dict.get app.gate.tools k))
      → IsValid (record app { gate = g; service_of = Dict.put app.service_of spec.name service })
  step-IsValid service spec app g v valid frame = record {
    gate = valid;
    served = λ name.
        ground (arith, frame name, get-put app.service_of spec.name name service, v.served name);
  }

  add_tools-IsValid :
      (service : String) (specs : List (ToolSpec (Handler T))) (app : App T)
      → IsValid app
      → IsValid (add_tools service specs app).1
  unfolding add_tools
  add_tools-IsValid service [] app v = v
  add_tools-IsValid service (spec ∷ specs) app v =
      elim (register_lem (named service spec) app.gate v.gate) [
        | inl (_, refused) ↦ rw (refused, add_tools) v
        | inr (g, _, added, valid, frame) ↦
            rw (added, add_tools)
              (add_tools-IsValid service specs
                (record app { gate = g; service_of = Dict.put app.service_of spec.name service })
                (step-IsValid service spec app g v valid frame))
      ]

  add_if-IsValid :
      (available : Option Bool) (c : Connector (Handler T)) (app : App T)
      → IsValid app
      → IsValid (add_if available c app).1
  unfolding add_if
  add_if-IsValid (some false) c app v = record { gate = v.gate; served = v.served }
  add_if-IsValid (some true) c app v = add_tools-IsValid c.service c.tools app v
  add_if-IsValid none c app v = add_tools-IsValid c.service c.tools app v

  -- Adding a connector keeps the registry well formed, also when it raises because a name is taken.
  pub add_connector-IsValid :
      (c : Connector (Handler T)) (app : App T) → IsValid app → IsValid (add_connector c app).1
  unfolding add_connector
  add_connector-IsValid c app v = add_if-IsValid c.available c app v

  -- The connectors, added one after the other; one that raises leaves what it had registered.
  abbrev pub add_all : List (Connector (Handler T)) → App T → App T
  add_all [] app = app
  add_all (c ∷ cs) app = add_all cs (add_connector c app).1

  pub add_all-IsValid :
      (cs : List (Connector (Handler T))) (app : App T) → IsValid app → IsValid (add_all cs app)
  add_all-IsValid [] app v = v
  add_all-IsValid (c ∷ cs) app v =
      add_all-IsValid cs (add_connector c app).1 (add_connector-IsValid c app v)

  -- A registry with no tools and no connectors is well formed.
  pub nothing-IsValid : (app : App T) → app.gate.tools ≡ [] → app.service_of ≡ [] → IsValid app
  unfolding Dict.get
  nothing-IsValid app gate services = record {
    gate = record {
      distinct = subst Dict.IsDict (sym gate) tt;
      named = λ k spec h. ground (arith, gate, h);
    };
    served = λ name. ap (λ d. Dict.has d name) services ∙ sym (ap (λ d. Dict.has d name) gate);
  }

  -- The tools that are listed by name are those of the gate.
  pub elem-tool_names :
      (name : String) (app : App T)
      → IsValid app
      → elem name (tool_names app) ≡ Dict.has app.gate.tools name
  unfolding tool_names
  elem-tool_names name app v =
      elem-sort str_leb name (keys app.service_of) ∙ elem-keys app.service_of name ∙ v.served name

  add_tools-registers :
      (service : String) (specs : List (ToolSpec (Handler T))) (app : App T)
      → IsValid app
      → (add_tools service specs app).0 ≡ none
      → ((spec : ToolSpec (Handler T))
          → In spec specs
          → Dict.get (add_tools service specs app).1.gate.tools spec.name
            ≡ some (named service spec))
        × ((name : String)
            → Dict.has app.gate.tools name ≡ true
            → Dict.get (add_tools service specs app).1.gate.tools name
              ≡ Dict.get app.gate.tools name)
  unfolding add_tools
  add_tools-registers service [] app v h = (λ spec m. absurd m, λ name m. refl)
  add_tools-registers service (spec ∷ specs) app v h =
      elim (register_lem (named service spec) app.gate v.gate) [
        | inl (_, refused) ↦ absurd (ground arith)
        | inr (g, fresh, added, valid, frame) ↦
            let app' : App T = record app {
              gate = g;
              service_of = Dict.put app.service_of spec.name service;
            } in
            let (mine, kept) =
              add_tools-registers service specs app' (step-IsValid service spec app g v valid frame)
                (ground arith) in
            let here : Dict.get g.tools spec.name ≡ some (named service spec) =
              ground (arith, frame spec.name, eq_iff spec.name spec.name) in
            rw (added, add_tools)
              (
                λ s. elim [
                  | inl q ↦
                      subst
                        (λ (x : ToolSpec (Handler T)).
                          Dict.get (add_tools service specs app').1.gate.tools x.name
                          ≡ some (named service x))
                        q (kept spec.name (ground arith) ∙ here)
                  | inr m ↦ mine s m
                ],
                λ name m.
                    let other : Dict.get g.tools name ≡ Dict.get app.gate.tools name =
                      ground (arith, frame name, eq_iff spec.name name) in
                    kept name (ground arith) ∙ other,
              )
      ]

  -- What a connector's registration leaves in the gate.
  pub record Registered (c : Connector (Handler T)) (before after : App T) : Type 0 where
    pub mine :
        (spec : ToolSpec (Handler T))
        → In spec c.tools
        → Dict.get after.gate.tools spec.name ≡ some (named c.service spec)
    pub kept :
        (name : String)
        → Dict.has before.gate.tools name ≡ true
        → Dict.get after.gate.tools name ≡ Dict.get before.gate.tools name

  add_if-Registered :
      (available : Option Bool) (c : Connector (Handler T)) (app : App T)
      → IsValid app
      → (add_if available c app).0 ≡ none
      → ((available ≡ some false) × ((add_if available c app).1.gate ≡ app.gate))
        ⊎ Registered c app (add_if available c app).1
  unfolding add_if
  add_if-Registered (some false) c app v h = inl (refl, refl)
  add_if-Registered (some true) c app v h =
      let (mine, kept) = add_tools-registers c.service c.tools app v h in
      inr (record { mine = mine; kept = kept })
  add_if-Registered none c app v h =
      let (mine, kept) = add_tools-registers c.service c.tools app v h in
      inr (record { mine = mine; kept = kept })

  -- A connector that is added with no exception is unavailable and adds no tool, or registers all.
  add_connector-Registered :
      (c : Connector (Handler T)) (app : App T)
      → IsValid app
      → (add_connector c app).0 ≡ none
      → ((c.available ≡ some false) × ((add_connector c app).1.gate ≡ app.gate))
        ⊎ Registered c app (add_connector c app).1
  unfolding add_connector
  add_connector-Registered c app v h = add_if-Registered c.available c app v h

  -- To a well-formed registry, an available connector that is added with no exception has each of
  -- its tools registered under the tool's name as the connector's own, and each tool that was there
  -- before is what it was.
  pub add_connector_registers :
      (c : Connector (Handler T)) (app : App T) (spec : ToolSpec (Handler T)) (name : String)
      → IsValid app
      → c.available ≢ some false
      → (add_connector c app).0 ≡ none
      → In spec c.tools
      → Dict.has app.gate.tools name ≡ true
      → (Dict.get (add_connector c app).1.gate.tools spec.name ≡ some (named c.service spec))
        × (Dict.get (add_connector c app).1.gate.tools name ≡ Dict.get app.gate.tools name)
  add_connector_registers c app spec name v up h m old = elim (add_connector-Registered c app v h) [
    | inl (down, _) ↦ absurd (up down)
    | inr r ↦ (r.mine spec m, r.kept name old)
  ]
