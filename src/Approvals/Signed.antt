-- ===== src/Approvals/Signed.antt =====
-- Who can have approved what, on a ledger of src/hallpass/approvals.py.
use mathlib.Core.Path.{subst}
use hallpass.Prelude.{
  String, ℕ, ◌≤◌, ◌≡◌, refl, sym, ◌∙◌, ap, ◌&&◌, not, is_some, true, false, if◌then◌else◌, length,
  List, [], ◌∷◌, elem, In, string_eq, ◌==◌, arith, Bool-cases, inl, inr, eq_iff,
}
use hallpass.Prelude.Dict
use hallpass.Prelude.Dict.{Dict, IsDict, get-put, put-IsDict, keys, elem-keys}
use hallpass.Prelude.Order.{insert, sort, str_leb, elem-insert, elem-sort, length-sort}
use hallpass.Approvals.{Approval, Ledger, here, sign, approvers, approved}

-- A call of `record`: the artifact, the approver, the author, the note and the time.
pub record Call : Type 0 where
  pub artifact : String
  pub approver : String
  pub author : String
  pub note : String
  pub now : ℕ

-- The ledger after these calls on a new one, the last call first.
abbrev pub after_calls : List Call → Ledger
after_calls [] = []
after_calls (c ∷ calls) = (sign c.artifact c.approver c.author c.note c.now (after_calls calls)).1

approval_of : Call → Approval
approval_of c = record {
  artifact = c.artifact;
  approver = c.approver;
  approved_at = c.now;
  note = c.note;
}

here-sign :
    (c : Call) (artifact : String) (l : Ledger)
    → here artifact (sign c.artifact c.approver c.author c.note c.now l).1 ≡ (
        if c.approver == c.author
        then here artifact l
        else if c.artifact == artifact
        then Dict.put (here artifact l) c.approver (approval_of c)
        else here artifact l)
unfolding here sign approval_of
here-sign c artifact l = ground (
  arith,
  get-put l c.artifact artifact (Dict.put (here c.artifact l) c.approver (approval_of c)),
  eq_iff c.artifact artifact,
)

-- No element stands twice.
abbrev pub Unique : List String → Type 0
Unique [] = Unit
Unique (x ∷ xs) = (elem x xs ≡ false) × Unique xs

Unique-insert :
    (x : String) (xs : List String) → elem x xs ≡ false → Unique xs → Unique (insert str_leb x xs)
unfolding insert elem
Unique-insert x [] h u = (refl, tt)
Unique-insert x (y ∷ ys) h u = elim (Bool-cases (str_leb x y)) [
  | inl first ↦ rw first (h, u)
  | inr later ↦ rw later (
    ground (arith, elem-insert str_leb x y ys, eq_iff x y, eq_iff y x, u.0),
    Unique-insert x ys (ground arith) u.1,
  )
]

Unique-sort : (xs : List String) → Unique xs → Unique (sort str_leb xs)
unfolding sort
Unique-sort [] u = tt
Unique-sort (x ∷ xs) u =
    Unique-insert x (sort str_leb xs) (elem-sort str_leb x xs ∙ u.0) (Unique-sort xs u.1)

Unique-keys : (d : Dict String Approval) → IsDict d → Unique (keys d)
Unique-keys [] h = tt
Unique-keys ((k, v) ∷ d) h = (elem-keys d k ∙ ap is_some h.0, Unique-keys d h.1)

length-keys : (d : Dict String Approval) → length (keys d) ≡ length d
length-keys [] = refl
length-keys ((k, v) ∷ d) = omega (arith, length-keys d)

here_empty : (artifact : String) → here artifact [] ≡ []
unfolding here Dict.get
here_empty artifact = refl

none_signed : (artifact approver : String) → Dict.has (here artifact []) approver ≡ false
unfolding here Dict.get
none_signed artifact approver = refl

here-IsDict : (calls : List Call) (artifact : String) → IsDict (here artifact (after_calls calls))
here-IsDict [] artifact = subst IsDict (sym (here_empty artifact)) tt
here-IsDict (c ∷ calls) artifact =
    let ih = here-IsDict calls artifact in
    subst IsDict (sym (here-sign c artifact (after_calls calls)))
      (elim (Bool-cases (c.approver == c.author)) [
        | inl self ↦ rw self ih
        | inr other ↦ elim (Bool-cases (c.artifact == artifact)) [
          | inl hit ↦
              rw (other, hit)
                (put-IsDict (here artifact (after_calls calls)) c.approver (approval_of c) ih)
          | inr miss ↦ rw (other, miss) ih
        ]
      ])

-- A sign-off of `artifact` by `approver`, whose author was another.
abbrev pub Signs : String → String → Call → Type 0
Signs artifact approver c =
    (c.artifact ≡ artifact) × (c.approver ≡ approver) × ((approver == c.author) ≡ false)

signed_by_call :
    (calls : List Call) (artifact approver : String)
    → Dict.has (here artifact (after_calls calls)) approver ≡ true
    → (c : Call) × In c calls × Signs artifact approver c
signed_by_call [] artifact approver h = absurd (ground (arith, none_signed artifact approver))
signed_by_call (c ∷ calls) artifact approver h =
    let earlier = signed_by_call calls artifact approver in
    elim (Bool-cases
      (c.artifact == artifact && c.approver == approver && not (c.approver == c.author))) [
        | inl hit ↦ (
          c,
          inl refl,
          (
            ground (arith, eq_iff c.artifact artifact),
            ground (arith, eq_iff c.approver approver),
            ground (arith, eq_iff c.approver approver),
          ),
        )
        | inr miss ↦
            let (c', m, s) = earlier (
              ground (
                arith,
                here-sign c artifact (after_calls calls),
                get-put (here artifact (after_calls calls)) c.approver approver (approval_of c),
              )) in
            (c', inr m, s)
      ]

-- However the calls of `record` went, an artifact that is approved with `n` sign-offs has at least
-- `n` approvers, all different, and each of them signed it in a call that named another author.
pub approved_by_others :
    (calls : List Call) (artifact : String) (n : ℕ)
    → approved artifact n (after_calls calls) ≡ true
    → (n ≤ length (approvers artifact (after_calls calls)))
      × Unique (approvers artifact (after_calls calls))
      × ((approver : String)
          → elem approver (approvers artifact (after_calls calls)) ≡ true
          → (c : Call) × In c calls × Signs artifact approver c)
unfolding approved approvers
approved_by_others calls artifact n h =
    let d = here artifact (after_calls calls) in
    (
      ground (arith, length-sort str_leb (keys d), length-keys d),
      Unique-sort (keys d) (Unique-keys d (here-IsDict calls artifact)),
      λ approver e.
          signed_by_call calls artifact approver
            (sym (elem-sort str_leb approver (keys d) ∙ elem-keys d approver) ∙ e),
    )
