-- ===== src/Tests/RevocationRuns.antt =====
-- Runs of src/hallpass/revocation.py.
use hallpass.Prelude.{elem, refl, true, [], ◌∷◌, List}
use hallpass.Prelude.Dict
use hallpass.Revocation.Sqlite.{Table, sqlite_ops, is_revoked}
use hallpass.Revocation.Cached.{
  View, Agrees, new_view, revoke, restore, revoke-restore-Agrees, is_revoked-Agrees,
}
use hallpass.Revocation.Cached as Cached

abbrev rows : Table
rows = ("bob", record { reason = "left"; at = 1 }) ∷ []

abbrev outdated : View
outdated = record { ttl = 5; cache = []; loaded_at = 10; primed = true }

abbrev uses : List (Cached.Use sqlite_ops)
uses = Cached.look_up "bob" 12 13 ∷ Cached.revoke_here "eve" "left" 13 ∷ []

nobody : Agrees sqlite_ops [] (new_view 5)
unfolding sqlite_ops new_view is_revoked Dict.get elem
nobody = record { same = λ t. refl }
