-- ===== src/Roles/Scopes.antt =====
-- The effective scopes of src/hallpass/roles.py, as an assignment changes them.
use hallpass.Prelude.{
  String, ◌≡◌, ◌∙◌, sym, ap, ◌&&◌, ◌||◌, true, List, [], ◌∷◌, ◌++◌, string_eq, ◌==◌, if◌then◌else◌,
  elem, elem-append, arith, Bool-cases, inl, inr, ==→≡,
}
use hallpass.Prelude.Dict
use hallpass.Prelude.Dict.{Dict, get-put}
use hallpass.Roles.{RoleStore, scopes_of, held_by, assign, collect, scopes_for}

collect-append :
    (defs : Dict String (List String)) (role s : String) (held : List String)
    → elem s (collect defs (held ++ role ∷ []))
      ≡ (elem s (collect defs held) || elem s (scopes_of defs role))
unfolding collect elem
collect-append defs role s [] = ground (arith, elem-append s (scopes_of defs role) [])
collect-append defs role s (r ∷ held) = ground (
  arith,
  collect-append defs role s held,
  elem-append s (scopes_of defs r) (collect defs held),
  elem-append s (scopes_of defs r) (collect defs (held ++ role ∷ [])),
)

collect_absorbs :
    (defs : Dict String (List String)) (role s : String) (held : List String)
    → elem role held ≡ true
    → (elem s (collect defs held) || elem s (scopes_of defs role)) ≡ elem s (collect defs held)
unfolding collect elem
collect_absorbs defs role s [] h = ground arith
collect_absorbs defs role s (r ∷ held) h = elim (Bool-cases (r == role)) [
  | inl same ↦
      rw (==→≡ r role same)
        (ground (arith, elem-append s (scopes_of defs role) (collect defs held)))
  | inr other ↦ ground (
    arith,
    collect_absorbs defs role s held (ground arith),
    elem-append s (scopes_of defs r) (collect defs held),
  )
]

held_by-assign :
    (subject role t : String) (st : RoleStore)
    → Dict.has st.defs role ≡ true
    → held_by t (assign subject role st).1 ≡ (
        if subject == t
        then (if elem role (held_by subject st)
            then held_by subject st
            else held_by subject st ++ role ∷ [])
        else held_by t st)
unfolding held_by assign
held_by-assign subject role t st h = ground (
  arith,
  get-put st.assignments subject t (
      if elem role (held_by subject st)
      then held_by subject st
      else held_by subject st ++ role ∷ []),
)

defs-assign : (subject role : String) (st : RoleStore) → (assign subject role st).1.defs ≡ st.defs
unfolding assign
defs-assign subject role st = ground arith

-- Assigning a role that is defined adds exactly that role's scopes to the scopes of exactly that
-- subject.
pub scopes_for-assign :
    (subject role t s : String) (st : RoleStore)
    → Dict.has st.defs role ≡ true
    → elem s (scopes_for t (assign subject role st).1)
      ≡ (elem s (scopes_for t st) || (subject == t && elem s (scopes_of st.defs role)))
unfolding scopes_for
scopes_for-assign subject role t s st h = elim (Bool-cases (subject == t)) [
  | inr other ↦
      rw (defs-assign subject role st, held_by-assign subject role t st h, other) (ground arith)
  | inl same ↦ elim (Bool-cases (elem role (held_by subject st))) [
    | inl again ↦
        rw
          (
            defs-assign subject role st,
            held_by-assign subject role t st h,
            same,
            again,
            ==→≡ subject t same,
          )
          (sym (
            collect_absorbs st.defs role s (held_by t st)
              (sym (ap (λ u. elem role (held_by u st)) (==→≡ subject t same)) ∙ again)))
    | inr new ↦
        rw
          (
            defs-assign subject role st,
            held_by-assign subject role t st h,
            same,
            new,
            ==→≡ subject t same,
          )
          (collect-append st.defs role s (held_by t st))
  ]
]
