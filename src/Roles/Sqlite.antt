-- ===== src/Roles/Sqlite.antt =====
-- `SqliteRoleStore` of src/hallpass/roles.py: the rows of its two tables, by their primary keys, each
-- statement as it acts on them.
mod Rows
pub mod Agrees
pub mod Refines
use hallpass.Prelude.{
  String, Bool, true, false, List, [], ◌∷◌, ◌++◌, Option, none, some, string_eq, pair_eq, ◌==◌,
  if◌then◌else◌, map, filter,
}
use hallpass.Prelude.Dict
use hallpass.Prelude.Dict.{Dict, keys}
use hallpass.Prelude.Order.{sort, str_leb}
use hallpass.Prelude.Words.{join, words}

-- The tables `roles`, by name, and `role_assignments`, whose two columns are the key.
pub record Tables : Type 0 where
  pub roles : Dict String String
  pub assignments : Dict (String × String) (Unit {0})

-- `define`
unfoldable pub define : String → List String → Tables → Tables
define role scopes t = record t { roles = Dict.put t.roles role (join (sort str_leb scopes)) }

-- `assign`: `false` stands for a `RoleError`. The INSERT ignores a key that is there.
unfoldable pub assign : String → String → Tables → Bool × Tables
assign subject role t =
    if Dict.has t.roles role
    then (
      true,
      if Dict.has t.assignments (subject, role)
          then t
          else record t { assignments = Dict.put t.assignments (subject, role) tt },
    )
    else (false, t)

-- `unassign`
unfoldable pub unassign : String → String → Tables → Bool × Tables
unassign subject role t = (
  Dict.has t.assignments (subject, role),
  record t { assignments = Dict.remove t.assignments (subject, role) },
)

-- `SELECT role FROM role_assignments WHERE subject = ?`
unfoldable pub roles_of : String → Dict (String × String) (Unit {0}) → List String
roles_of subject rows =
    map (λ (k : String × String). k.1) (filter (λ k. k.0 == subject) (keys rows))

-- `roles`
unfoldable pub roles : String → Tables → List String
unfolding roles_of
roles subject t = sort str_leb (roles_of subject t.assignments)

-- The JOIN: the scopes of each of these roles that is defined.
unfoldable pub joined : Dict String String → List String → List String
joined defs [] = []
joined defs (role ∷ held) = elim (Dict.get defs role) [
  | none ↦ joined defs held
  | some scopes ↦ words scopes ++ joined defs held
]

-- `scopes_for`
unfoldable pub scopes_for : String → Tables → List String
unfolding roles_of joined
scopes_for subject t = joined t.roles (roles_of subject t.assignments)
