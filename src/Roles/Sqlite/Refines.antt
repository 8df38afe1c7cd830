-- ===== src/Roles/Sqlite/Refines.antt =====
-- The SQLite store of src/hallpass/roles.py answers as the in-memory one does.
use hallpass.Prelude.{
  String, ◌≡◌, refl, sym, ◌∙◌, ap, Bool, List, [], string_eq, pair_eq, filter, elem,
}
use hallpass.Prelude.Dict
use hallpass.Prelude.Dict.{Dict, keys, get-put}
use hallpass.Prelude.Order.{sort, str_leb}
use hallpass.Prelude.Words.{Words}
use hallpass.Prelude.Simulation.{run_all, AllCalls, Related, run_all-Related}
use hallpass.Roles.{RoleStore, scopes_of, held_by, collect}
use hallpass.Roles as Memory
use hallpass.Roles.Sqlite.{Tables, define, assign, unassign, roles_of, roles, scopes_for}
use hallpass.Roles.Sqlite.Agrees.{
  SameRoles, define-SameRoles, assign-SameRoles, unassign-SameRoles, elem-joined,
}

-- The calls on a store; `holds_call` asks whether a scope is among the effective ones.
pub data Call : Type 0 where
  define_call : String → List String → Call
  assign_call : String → String → Call
  unassign_call : String → String → Call
  roles_call : String → Call
  holds_call : String → String → Call

pub data Reply : Type 0 where
  defined : Reply
  changed : Bool → Reply
  listed : List String → Reply
  holds : Bool → Reply

abbrev pub on_memory : Call → RoleStore → Reply × RoleStore
on_memory (define_call role scopes) st = (defined, Memory.define role scopes st)
on_memory (assign_call subject role) st =
    let r = Memory.assign subject role st in (changed r.0, r.1)
on_memory (unassign_call subject role) st =
    let r = Memory.unassign subject role st in (changed r.0, r.1)
on_memory (roles_call subject) st = (listed (Memory.roles subject st), st)
on_memory (holds_call subject s) st = (holds (elem s (Memory.scopes_for subject st)), st)

abbrev pub on_sqlite : Call → Tables → Reply × Tables
on_sqlite (define_call role scopes) t = (defined, define role scopes t)
on_sqlite (assign_call subject role) t = let r = assign subject role t in (changed r.0, r.1)
on_sqlite (unassign_call subject role) t = let r = unassign subject role t in (changed r.0, r.1)
on_sqlite (roles_call subject) t = (listed (roles subject t), t)
on_sqlite (holds_call subject s) t = (holds (elem s (scopes_for subject t)), t)

-- The scopes of a definition are words, with no white space.
abbrev pub HasWords : Call → Type 0
HasWords (define_call role scopes) = Words scopes
HasWords (assign_call subject role) = Unit
HasWords (unassign_call subject role) = Unit
HasWords (roles_call subject) = Unit
HasWords (holds_call subject s) = Unit

sqlite-Related : Related HasWords SameRoles on_memory on_sqlite
unfolding Memory.roles roles Memory.scopes_for scopes_for
sqlite-Related (define_call role scopes) st t w same =
    (refl, define-SameRoles role scopes st t w same)
sqlite-Related (assign_call subject role) st t w same =
    let (a, b) = assign-SameRoles subject role st t same in (ap changed a, b)
sqlite-Related (unassign_call subject role) st t w same =
    let (a, b) = unassign-SameRoles subject role st t same in (ap changed a, b)
sqlite-Related (roles_call subject) st t w same =
    (ap (λ held. listed (sort str_leb held)) (sym (same.held subject)), same)
sqlite-Related (holds_call subject s) st t w same = (
  ap holds (
      elem-joined st.defs t.roles s (roles_of subject t.assignments) same.scopes
      ∙ ap (λ held. elem s (collect st.defs held)) (sym (same.held subject))),
  same,
)

-- On any history of calls from a new store, if the scopes of the roles are words without white
-- space, the SQLite store gives the answers of the in-memory one, call by call: which assignments
-- are refused, each subject's roles, and which scopes they give it.
pub sqlite_roles :
    (calls : List Call)
    → AllCalls HasWords calls
    → (run_all on_sqlite calls (record { roles = []; assignments = [] })).0
      ≡ (run_all on_memory calls (record { defs = []; assignments = [] })).0
unfolding held_by roles_of scopes_of Dict.get filter
sqlite_roles calls w =
    run_all-Related HasWords SameRoles on_memory on_sqlite sqlite-Related calls
      (record { defs = []; assignments = [] }) (record { roles = []; assignments = [] }) w
      (record { held = λ s. refl; defined = λ r. refl; scopes = λ r s. refl })
