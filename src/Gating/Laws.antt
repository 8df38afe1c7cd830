-- ===== src/Gating/Laws.antt =====
-- What the gate of src/hallpass/gating.py guarantees.
use mathlib.Core.Path.{subst}
use hallpass.Prelude.{
  String, ◌≡◌, sym, ◌↔◌, ◌&&◌, not, true, false, some, List, In, inl, inr, elem, ◌==◌, ◌⊎◌,
  In-filter, In-filter_of, arith, string_eq, eq_iff, Option-cases, if◌then◌else◌,
}
use hallpass.Prelude.Dict
use hallpass.Prelude.Dict.{
  Dict, IsDict, put-IsDict, get-put, get_of_In-values, In-values_of_get, values,
}
use hallpass.Prelude.Sets.{subset, nonempty-difference, elem-difference, subset_trans}
use hallpass.Identity.{Principal}
use hallpass.Gating.{
  ToolSpec, ToolGate, GateError, unknown_tool, tool_denied, already_registered, ok, raise, message,
  register, catalog, authorize,
}

-- Every tool stands once, under its own name.
pub record IsValid {H : Type 0} (g : ToolGate H) : Type 0 where
  pub distinct : IsDict g.tools
  pub named : (k : String) (spec : ToolSpec H) → Dict.get g.tools k ≡ some spec → spec.name ≡ k

module _ {H : Type 0} where
  -- `authorize` answers with a tool exactly when that tool is registered under the name and the
  -- principal holds every scope that it requires.
  pub authorize-ok_iff :
      (p : Principal) (name : String) (g : ToolGate H) (spec : ToolSpec H)
      → (authorize p name g ≡ ok spec)
        ↔ ((Dict.get g.tools name ≡ some spec) × (subset spec.required_scopes p.scopes ≡ true))
  unfolding authorize
  authorize-ok_iff p name g spec = elim (Option-cases (Dict.get g.tools name)) [
    | inl e ↦ rw e (ground arith)
    | inr (s, e) ↦ rw e (ground (arith, nonempty-difference s.required_scopes p.scopes))
  ]

  -- A refused call names the tool that was asked for and nothing else, whether or not it exists.
  pub authorize_opaque :
      (p : Principal) (name : String) (g : ToolGate H) (e : GateError)
      → authorize p name g ≡ raise e
      → message e ≡ message (unknown_tool name)
  unfolding authorize message
  authorize_opaque p name g e h = ground arith

  -- The missing scopes of a denial are the required scopes that the principal does not hold.
  pub authorize_missing :
      (p : Principal) (name n : String) (g : ToolGate H) (missing : List String) (spec : ToolSpec H)
      → authorize p name g ≡ raise (tool_denied n missing)
      → Dict.get g.tools name ≡ some spec
      → (s : String) → elem s missing ≡ (not (elem s p.scopes) && elem s spec.required_scopes)
  unfolding authorize
  authorize_missing p name n g missing spec h f s =
      ground (arith, elem-difference s spec.required_scopes p.scopes)

  -- In a well-formed registry listing and calling agree: the catalog holds exactly the tools that a
  -- call is let through to.
  pub catalog-authorize :
      (p : Principal) (g : ToolGate H) (spec : ToolSpec H)
      → IsValid g
      → In spec (catalog p g) ↔ (authorize p spec.name g ≡ ok spec)
  unfolding catalog
  catalog-authorize p g spec v = (
    λ m.
        let (held, allowed) =
          In-filter (λ s. subset s.required_scopes p.scopes) spec (values g.tools) m in
        let (k, found) = get_of_In-values g.tools spec v.distinct held in
        (authorize-ok_iff p spec.name g spec).1
          (subst (λ n. Dict.get g.tools n ≡ some spec) (sym (v.named k spec found)) found, allowed),
    λ h.
        let (found, allowed) = (authorize-ok_iff p spec.name g spec).0 h in
        In-filter_of (λ s. subset s.required_scopes p.scopes) spec (values g.tools)
          (In-values_of_get g.tools spec.name spec found) allowed,
  )

  -- A principal with more scopes may call all that one with fewer may.
  pub authorize_mono :
      (p q : Principal) (name : String) (g : ToolGate H) (spec : ToolSpec H)
      → subset p.scopes q.scopes ≡ true
      → authorize p name g ≡ ok spec
      → authorize q name g ≡ ok spec
  authorize_mono p q name g spec more h =
      let (found, allowed) = (authorize-ok_iff p name g spec).0 h in
      (authorize-ok_iff q name g spec).1
        (found, subset_trans spec.required_scopes p.scopes q.scopes allowed more)

  -- On a well-formed registry, `register` refuses a name that is taken, and otherwise adds the
  -- tool, keeps every other, and keeps the registry well formed.
  pub register_lem :
      (spec : ToolSpec H) (g : ToolGate H)
      → IsValid g
      → ((Dict.has g.tools spec.name ≡ true)
          × (register spec g ≡ raise (already_registered spec.name)))
        ⊎ ((g' : ToolGate H) × (Dict.has g.tools spec.name ≡ false)
            × (register spec g ≡ ok g')
            × IsValid g'
            × ((k : String)
                → Dict.get g'.tools k ≡ (if spec.name == k then some spec else Dict.get g.tools k)))
  unfolding register
  register_lem spec g v = elim (Option-cases (Dict.get g.tools spec.name)) [
    | inr (old, e) ↦ inl (ground arith, ground arith)
    | inl e ↦ inr (
      record { tools = Dict.put g.tools spec.name spec },
      ground arith,
      ground arith,
      record {
        distinct = put-IsDict g.tools spec.name spec v.distinct;
        named = λ k s h.
            ground (arith, get-put g.tools spec.name k spec, v.named k s, eq_iff spec.name k);
      },
      λ k. get-put g.tools spec.name k spec,
    )
  ]
