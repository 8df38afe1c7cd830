-- ===== src/Roles.antt =====
-- `InMemoryRoleStore` of src/hallpass/roles.py: the roles' scopes, and the roles of each subject.
pub mod Scopes
pub mod Sqlite
use hallpass.Prelude.{
  String, Bool, true, false, not, Option, none, some, List, [], ◌∷◌, ◌++◌, string_eq, ◌==◌,
  if◌then◌else◌, elem, filter,
}
use hallpass.Prelude.Dict
use hallpass.Prelude.Dict.{Dict}
use hallpass.Prelude.Order.{sort, str_leb}

pub record RoleStore : Type 0 where
  pub defs : Dict String (List String)
  pub assignments : Dict String (List String)

-- `self._defs.get(role, frozenset())`
unfoldable pub scopes_of : Dict String (List String) → String → List String
scopes_of defs role = elim (Dict.get defs role) [ none ↦ [] | some scopes ↦ scopes ]

-- `self._assignments.get(subject, set())`
unfoldable pub held_by : String → RoleStore → List String
held_by subject st = elim (Dict.get st.assignments subject) [ none ↦ [] | some held ↦ held ]

-- `define`
unfoldable pub define : String → List String → RoleStore → RoleStore
define role scopes st = record st { defs = Dict.put st.defs role scopes }

-- `assign`: `false` stands for a `RoleError`.
unfoldable pub assign : String → String → RoleStore → Bool × RoleStore
unfolding held_by
assign subject role st =
    let held = held_by subject st in
    let more = if elem role held then held else held ++ role ∷ [] in
    if Dict.has st.defs role
    then (true, record st { assignments = Dict.put st.assignments subject more })
    else (false, st)

-- `unassign`
unfoldable pub unassign : String → String → RoleStore → Bool × RoleStore
unfolding held_by
unassign subject role st =
    let held = held_by subject st in
    if elem role held
    then (
      true,
      record st {
        assignments = Dict.put st.assignments subject (filter (λ r. not (r == role)) held);
      },
    )
    else (false, st)

-- `roles`
unfoldable pub roles : String → RoleStore → List String
unfolding held_by
roles subject st = sort str_leb (held_by subject st)

-- The loop of `scopes_for`.
unfoldable pub collect : Dict String (List String) → List String → List String
unfolding scopes_of
collect defs [] = []
collect defs (role ∷ held) = scopes_of defs role ++ collect defs held

-- `scopes_for`
unfoldable pub scopes_for : String → RoleStore → List String
unfolding held_by collect
scopes_for subject st = collect st.defs (held_by subject st)
