-- ===== src/Roles/Sqlite/Agrees.antt =====
-- What relates the tables of src/hallpass/roles.py to the in-memory store, and how each call keeps
-- it.
use hallpass.Prelude.{
  String, ◌≡◌, refl, sym, ◌∙◌, ap, false, not, List, [], ◌∷◌, ◌++◌, none, some, string_eq, pair_eq,
  ◌==◌, if◌then◌else◌, filter, elem, elem-append, arith, Bool-cases, Option-cases, inl, inr, ==→≡,
}
use hallpass.Prelude.Dict
use hallpass.Prelude.Dict.{Dict, keys, get-put}
use hallpass.Prelude.Order.{sort, str_leb, elem-sort}
use hallpass.Prelude.Words.{Words, words, join, words-join, Words-sort}
use hallpass.Roles.{RoleStore, scopes_of, held_by, collect}
use hallpass.Roles as Memory
use hallpass.Roles.Sqlite.{Tables, define, assign, unassign, roles_of, joined}
use hallpass.Roles.Sqlite.Rows.{elem-roles_of, roles_of-put, roles_of-remove}

-- The scopes of a role's row.
abbrev row_scopes : Dict String String → String → List String
row_scopes defs role = elim (Dict.get defs role) [ none ↦ [] | some scopes ↦ words scopes ]

-- Each subject has the same roles in both, and each role the same scopes, as sets.
pub record SameRoles (st : RoleStore) (t : Tables) : Type 0 where
  pub held : (subject : String) → held_by subject st ≡ roles_of subject t.assignments
  pub defined : (role : String) → Dict.has st.defs role ≡ Dict.has t.roles role
  pub scopes :
      (role s : String) → elem s (scopes_of st.defs role) ≡ elem s (row_scopes t.roles role)

scopes_of-put :
    (role r : String) (scopes : List String) (defs : Dict String (List String))
    → scopes_of (Dict.put defs role scopes) r ≡ (if role == r then scopes else scopes_of defs r)
unfolding scopes_of
scopes_of-put role r scopes defs = ground (arith, get-put defs role r scopes)

row_scopes-put :
    (role r text : String) (defs : Dict String String)
    → row_scopes (Dict.put defs role text) r ≡ (if role == r then words text else row_scopes defs r)
row_scopes-put role r text defs = ground (arith, get-put defs role r text)

pub define-SameRoles :
    (role : String) (scopes : List String) (st : RoleStore) (t : Tables)
    → Words scopes
    → SameRoles st t
    → SameRoles (Memory.define role scopes st) (define role scopes t)
unfolding Memory.define define held_by
define-SameRoles role scopes st t w same = record {
  held = same.held;
  defined = λ r. ground (
    arith,
    same.defined r,
    get-put st.defs role r scopes,
    get-put t.roles role r (join (sort str_leb scopes)),
  );
  scopes = λ r s.
      ap (elem s) (scopes_of-put role r scopes st.defs) ∙ elim (Bool-cases (role == r)) [
        | inl hit ↦ rw hit (
            sym (elem-sort str_leb s scopes)
            ∙ ap (elem s) (sym (words-join (sort str_leb scopes) (Words-sort str_leb scopes w)))
            ∙ ap (elem s)
                (sym (row_scopes-put role r (join (sort str_leb scopes)) t.roles ∙ (rw hit refl))))
        | inr miss ↦ rw miss (
            same.scopes r s
            ∙ ap (elem s)
                (sym (row_scopes-put role r (join (sort str_leb scopes)) t.roles ∙ (rw miss refl))))
      ];
}

held_by-put :
    (subject s : String) (held : List String) (st : RoleStore)
    → held_by subject (record st { assignments = Dict.put st.assignments s held })
      ≡ (if s == subject then held else held_by subject st)
unfolding held_by
held_by-put subject s held st = ground (arith, get-put st.assignments s subject held)

-- The roles of one subject replaced in both.
SameRoles-put :
    (subject : String) (held : List String) (rows : Dict (String × String) (Unit {0}))
    (st : RoleStore) (t : Tables)
    → ((s : String) → roles_of s rows ≡ (if subject == s then held else roles_of s t.assignments))
    → SameRoles st t
    → SameRoles
        (record st { assignments = Dict.put st.assignments subject held })
        (record t { assignments = rows })
SameRoles-put subject held rows st t step same = record {
  held = λ s.
      held_by-put s subject held st
      ∙ ap (λ xs. if subject == s then held else xs) (same.held s)
      ∙ sym (step s);
  defined = same.defined;
  scopes = same.scopes;
}

same_held :
    (subject s : String) (held : List String) (rows : Dict (String × String) (Unit {0}))
    → held ≡ roles_of subject rows
    → roles_of s rows ≡ (if subject == s then held else roles_of s rows)
same_held subject s held rows e = elim (Bool-cases (subject == s)) [
  | inr other ↦ rw other refl
  | inl hit ↦ rw hit (ap (λ x. roles_of x rows) (sym (==→≡ subject s hit)) ∙ sym e)
]

extended :
    (subject s : String) (held more : List String) (rows : Dict (String × String) (Unit {0}))
    (f : List String → List String)
    → held ≡ roles_of subject rows
    → f held ≡ more
    → (if subject == s then f (roles_of s rows) else roles_of s rows)
      ≡ (if subject == s then more else roles_of s rows)
extended subject s held more rows f e m = elim (Bool-cases (subject == s)) [
  | inr other ↦ rw other refl
  | inl hit ↦ rw hit (ap (λ x. f (roles_of x rows)) (sym (==→≡ subject s hit)) ∙ ap f (sym e) ∙ m)
]

pub assign-SameRoles :
    (subject role : String) (st : RoleStore) (t : Tables)
    → SameRoles st t
    → ((assign subject role t).0 ≡ (Memory.assign subject role st).0)
      × SameRoles (Memory.assign subject role st).1 (assign subject role t).1
unfolding Memory.assign assign
assign-SameRoles subject role st t same =
    let held = held_by subject st in
    let e = same.held subject in
    let there : Dict.has t.assignments (subject, role) ≡ elem role held =
      sym (ap (elem role) e ∙ elem-roles_of subject role t.assignments) in
    elim (Bool-cases (Dict.has t.roles role)) [
      | inr unknown ↦ rw (unknown, same.defined role ∙ unknown) (refl, same)
      | inl known ↦ elim (Bool-cases (elem role held)) [
        | inl again ↦
            rw (known, same.defined role ∙ known, there ∙ again, again)
              (
                refl,
                SameRoles-put subject held t.assignments st t
                    (λ s. same_held subject s held t.assignments e) same,
              )
        | inr new ↦
            rw (known, same.defined role ∙ known, there ∙ new, new)
              (
                refl,
                SameRoles-put subject (held ++ role ∷ [])
                    (Dict.put t.assignments (subject, role) tt) st t
                    (λ s.
                      roles_of-put s subject role t.assignments (there ∙ new)
                      ∙ extended subject s held (held ++ role ∷ []) t.assignments
                          (λ xs. xs ++ role ∷ []) e refl)
                    same,
              )
      ]
    ]

filter_absent :
    (role : String) (xs : List String)
    → elem role xs ≡ false
    → filter (λ r. not (r == role)) xs ≡ xs
unfolding elem filter
filter_absent role [] h = refl
filter_absent role (x ∷ xs) h = ground (arith, filter_absent role xs)

pub unassign-SameRoles :
    (subject role : String) (st : RoleStore) (t : Tables)
    → SameRoles st t
    → ((unassign subject role t).0 ≡ (Memory.unassign subject role st).0)
      × SameRoles (Memory.unassign subject role st).1 (unassign subject role t).1
unfolding Memory.unassign unassign
unassign-SameRoles subject role st t same =
    let held = held_by subject st in
    let e = same.held subject in
    let there : Dict.has t.assignments (subject, role) ≡ elem role held =
      sym (ap (elem role) e ∙ elem-roles_of subject role t.assignments) in
    let fewer = filter (λ r. not (r == role)) held in
    let step : (s : String)
        → roles_of s (Dict.remove t.assignments (subject, role))
          ≡ (if subject == s then fewer else roles_of s t.assignments) =
      λ s.
        roles_of-remove s subject role t.assignments
        ∙ extended subject s held fewer t.assignments (filter (λ r. not (r == role))) e refl in
    elim (Bool-cases (elem role held)) [
      | inl has_it ↦ rw (has_it) (
        there ∙ has_it,
        SameRoles-put subject fewer (Dict.remove t.assignments (subject, role)) st t step same,
      )
      | inr lacks ↦ rw (lacks) (
        there ∙ lacks,
        record {
          held = λ s.
              same.held s
              ∙ same_held subject s held t.assignments e
              ∙ ap (λ xs. if subject == s then xs else roles_of s t.assignments)
                  (sym (filter_absent role held lacks))
              ∙ sym (step s);
          defined = same.defined;
          scopes = same.scopes;
        },
      )
    ]

elem-nil : (x : String) → elem x [] ≡ false
unfolding elem
elem-nil x = refl

pub elem-joined :
    (defs : Dict String (List String)) (rows : Dict String String) (x : String) (held : List String)
    → ((role s : String) → elem s (scopes_of defs role) ≡ elem s (row_scopes rows role))
    → elem x (joined rows held) ≡ elem x (collect defs held)
unfolding joined collect
elem-joined defs rows x [] h = refl
elem-joined defs rows x (role ∷ held) h = elim (Option-cases (Dict.get rows role)) [
  | inl e ↦ ground (
    arith,
    elem-joined defs rows x held h,
    h role x,
    elem-append x (scopes_of defs role) (collect defs held),
    elem-nil x,
  )
  | inr (text, e) ↦ ground (
    arith,
    elem-joined defs rows x held h,
    h role x,
    elem-append x (scopes_of defs role) (collect defs held),
    elem-append x (words text) (joined rows held),
  )
]
