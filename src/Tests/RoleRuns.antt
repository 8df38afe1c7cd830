-- ===== src/Tests/RoleRuns.antt =====
-- Runs of src/hallpass/roles.py.
use hallpass.Prelude.{string_eq, ◌≡◌, refl, true, [], ◌∷◌, elem}
use hallpass.Prelude.Dict
use hallpass.Roles.{RoleStore, assign, scopes_for, scopes_of}
use hallpass.Roles.Scopes.{scopes_for-assign}

abbrev team : RoleStore
team = record { defs = ("writer", "notes:write" ∷ []) ∷ []; assignments = [] }

scopes_for-assign_example :
    elem "notes:write" (scopes_for "ann" (assign "ann" "writer" team).1) ≡ true
unfolding scopes_for scopes_of elem Dict.get
scopes_for-assign_example = scopes_for-assign "ann" "writer" "ann" "notes:write" team refl
