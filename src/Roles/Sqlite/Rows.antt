-- ===== src/Roles/Sqlite/Rows.antt =====
-- The rows of the table `role_assignments` of src/hallpass/roles.py, by their subject.
use hallpass.Prelude.{
  String, ◌≡◌, refl, false, not, [], ◌∷◌, ◌++◌, string_eq, pair_eq, ◌==◌, if◌then◌else◌, filter,
  elem, arith, eq_iff,
}
use hallpass.Prelude.Dict
use hallpass.Prelude.Dict.{Dict, keys, get-put}
use hallpass.Roles.Sqlite.{roles_of}

-- A key that is there is found among the roles of its subject.
pub elem-roles_of :
    (subject role : String) (rows : Dict (String × String) (Unit {0}))
    → elem role (roles_of subject rows) ≡ Dict.has rows (subject, role)
unfolding elem roles_of filter Dict.get
elem-roles_of subject role [] = refl
elem-roles_of subject role (((s, r), u) ∷ rows) =
    ground (arith, elem-roles_of subject role rows, eq_iff s subject, eq_iff r role)

-- A new key goes last.
pub roles_of-put :
    (subject s role : String) (rows : Dict (String × String) (Unit {0}))
    → Dict.has rows (s, role) ≡ false
    → roles_of subject (Dict.put rows (s, role) tt)
      ≡ (if s == subject then roles_of subject rows ++ role ∷ [] else roles_of subject rows)
unfolding roles_of filter Dict.get Dict.put
roles_of-put subject s role [] h = ground arith
roles_of-put subject s role (((i, j), u) ∷ rows) h =
    ground (arith, roles_of-put subject s role rows, eq_iff i s, eq_iff i subject, eq_iff j role)

pub roles_of-remove :
    (subject s role : String) (rows : Dict (String × String) (Unit {0}))
    → roles_of subject (Dict.remove rows (s, role)) ≡ (
        if s == subject
        then filter (λ r. not (r == role)) (roles_of subject rows)
        else roles_of subject rows)
unfolding roles_of filter Dict.remove
roles_of-remove subject s role [] = ground arith
roles_of-remove subject s role (((i, j), u) ∷ rows) = ground (
  arith,
  roles_of-remove subject s role rows,
  eq_iff i s,
  eq_iff i subject,
  eq_iff s subject,
  eq_iff j role,
)
