-- ===== src/Delegation/Narrowing.antt =====
-- No sequence of calls on a ledger of src/hallpass/delegation.py gives a subject a scope that no
-- grantor held, or keeps one past its time.
use mathlib.Core.Path.{subst, ap₂}
use hallpass.Prelude.{
  String, ℕ, ◌≡◌, refl, sym, ◌∙◌, ap, ◌⊎◌, inl, inr, true, false, ◌&&◌, if◌then◌else◌, List, [],
  ◌∷◌, elem, elem-append, In, Option, none, some, string_eq, pair_eq, ◌==◌, arith, Bool-cases,
}
use hallpass.Prelude.Dict
use hallpass.Prelude.Dict.{Dict, IsDict, get-put, get-remove, put-IsDict, remove-IsDict, get_of_In}
use hallpass.Prelude.Sets.{subset, nonempty-difference, subset_iff}
use hallpass.Prelude.Order.{str_leb, elem-sort}
use hallpass.Delegation.{
  Delegation, active_at, frozen, bounded_by, new_record, Ledger, delegate, collect, active_scopes,
  revoke,
}

elem-frozen : (s : String) (xs : List String) → elem s (frozen xs) ≡ elem s xs
unfolding frozen elem
elem-frozen s [] = refl
elem-frozen s (x ∷ xs) = elim (Bool-cases (elem x xs)) [
  | inl again ↦ rw again (ground (arith, elem-frozen s xs, again, string_eq.beq_iff x s))
  | inr new ↦ rw new (ground (arith, elem-frozen s xs))
]

-- The calls that change a ledger; a delegation with the time of its call.
pub data Call : Type 0 where
  delegate_call : String → String → List String → List String → Option ℕ → String → ℕ → Call
  revoke_call : String → String → Call

abbrev pub apply : Call → Ledger → Ledger
apply (delegate_call grantor grantee scopes grantor_scopes ttl note at) l =
    (delegate grantor grantee scopes grantor_scopes ttl note at l).1
apply (revoke_call grantor grantee) l = (revoke grantor grantee l).1

-- The ledger after these calls on a new one, the last call first.
abbrev pub after_calls : List Call → Ledger
after_calls [] = []
after_calls (c ∷ calls) = apply c (after_calls calls)

-- No call among these revokes or replaces what stands between the two.
abbrev pub Kept : String → String → List Call → Type 0
Kept grantor grantee [] = Unit
Kept grantor grantee (revoke_call g e ∷ calls) =
    ((g == grantor && e == grantee) ≡ false) × Kept grantor grantee calls
Kept grantor grantee (delegate_call g e scopes grantor_scopes ttl note at ∷ calls) =
    ((g == grantor && e == grantee && subset scopes grantor_scopes) ≡ false)
    × Kept grantor grantee calls

-- The delegation is that of the last call between the two that was not refused, and its scopes were
-- the grantor's.
abbrev pub Standing : List Call → String → String → Delegation → Type 0
Standing [] grantor grantee d = ⊥
Standing (c ∷ calls) grantor grantee d =
    ((scopes grantor_scopes : List String) × (ttl : Option ℕ) × (note : String) × (at : ℕ) × (c
        ≡ delegate_call grantor grantee scopes grantor_scopes ttl note at)
      × (subset scopes grantor_scopes ≡ true)
      × (new_record grantor grantee (frozen scopes) ttl note at ≡ d))
    ⊎ (Kept grantor grantee (c ∷ []) × Standing calls grantor grantee d)

subset-frozen : (xs ys : List String) → subset (frozen xs) ys ≡ subset xs ys
unfolding frozen subset
subset-frozen [] ys = refl
subset-frozen (x ∷ xs) ys = elim (Bool-cases (elem x xs)) [
  | inr new ↦ rw new (ground (arith, subset-frozen xs ys))
  | inl again ↦ elim (Bool-cases (subset xs ys)) [
    | inl all ↦ rw again (ground (arith, subset-frozen xs ys, (subset_iff xs ys).0 all x again))
    | inr some_out ↦ rw again (ground (arith, subset-frozen xs ys))
  ]
]

ledger-delegate :
    (g e note : String) (scopes grantor_scopes : List String) (ttl : Option ℕ) (at : ℕ) (l : Ledger)
    → (delegate g e scopes grantor_scopes ttl note at l).1 ≡ (
        if subset scopes grantor_scopes
        then Dict.put l (g, e) (new_record g e (frozen scopes) ttl note at)
        else l)
unfolding delegate bounded_by
ledger-delegate g e note scopes grantor_scopes ttl at l =
    ground (
      arith,
      nonempty-difference (frozen scopes) grantor_scopes,
      subset-frozen scopes grantor_scopes,
    )

get-delegate :
    (g e note : String) (scopes grantor_scopes : List String) (ttl : Option ℕ) (at : ℕ) (l : Ledger)
    (grantor grantee : String)
    → Dict.get (delegate g e scopes grantor_scopes ttl note at l).1 (grantor, grantee) ≡ (
        if g == grantor && e == grantee && subset scopes grantor_scopes
        then some (new_record g e (frozen scopes) ttl note at)
        else Dict.get l (grantor, grantee))
get-delegate g e note scopes grantor_scopes ttl at l grantor grantee = ground (
  arith,
  ledger-delegate g e note scopes grantor_scopes ttl at l,
  get-put l (g, e) (grantor, grantee) (new_record g e (frozen scopes) ttl note at),
)

get-revoke :
    (g e grantor grantee : String) (l : Ledger)
    → Dict.get (revoke g e l).1 (grantor, grantee)
      ≡ (if g == grantor && e == grantee then none else Dict.get l (grantor, grantee))
unfolding revoke
get-revoke g e grantor grantee l = ground (arith, get-remove l (g, e) (grantor, grantee))

after_calls-Standing :
    (calls : List Call) (grantor grantee : String) (d : Delegation)
    → Dict.get (after_calls calls) (grantor, grantee) ≡ some d
    → Standing calls grantor grantee d
after_calls-Standing [] grantor grantee d h = absurd (unfold Dict.get in ground arith)
after_calls-Standing (revoke_call g e ∷ calls) grantor grantee d h =
    let step = get-revoke g e grantor grantee (after_calls calls) in
    elim (Bool-cases (g == grantor && e == grantee)) [
      | inl gone ↦ absurd (ground arith)
      | inr other ↦ inr ((other, tt), after_calls-Standing calls grantor grantee d (ground arith))
    ]
after_calls-Standing (delegate_call g e scopes grantor_scopes ttl note at ∷ calls) grantor grantee d
      h =
    let step =
      get-delegate g e note scopes grantor_scopes ttl at (after_calls calls) grantor grantee in
    elim (Bool-cases (g == grantor && e == grantee && subset scopes grantor_scopes)) [
      | inr other ↦ inr ((other, tt), after_calls-Standing calls grantor grantee d (ground arith))
      | inl hit ↦
          let sg : g ≡ grantor = ground (arith, string_eq.beq_iff g grantor) in
          let same : new_record g e (frozen scopes) ttl note at ≡ d = ground arith in
          let se : e ≡ grantee = ground (arith, string_eq.beq_iff e grantee) in
          inl (
            scopes,
            grantor_scopes,
            ttl,
            note,
            at,
            ap₂ (λ a b. delegate_call a b scopes grantor_scopes ttl note at) sg se,
            ground arith,
            ap₂ (λ a b. new_record a b (frozen scopes) ttl note at) (sym sg) (sym se) ∙ same,
          )
    ]

revoke-IsDict : (g e : String) (l : Ledger) → IsDict l → IsDict (revoke g e l).1
unfolding revoke
revoke-IsDict g e l h = remove-IsDict l (g, e) h

after_calls-IsDict : (calls : List Call) → IsDict (after_calls calls)
after_calls-IsDict [] = tt
after_calls-IsDict (revoke_call g e ∷ calls) =
    revoke-IsDict g e (after_calls calls) (after_calls-IsDict calls)
after_calls-IsDict (delegate_call g e scopes grantor_scopes ttl note at ∷ calls) =
    let ih = after_calls-IsDict calls in
    subst IsDict (sym (ledger-delegate g e note scopes grantor_scopes ttl at (after_calls calls)))
      (elim (Bool-cases (subset scopes grantor_scopes)) [
        | inl ok ↦
            rw ok (
              put-IsDict (after_calls calls) (g, e) (new_record g e (frozen scopes) ttl note at) ih)
        | inr bad ↦ rw bad ih
      ])

-- A scope that is collected comes from an entry for the grantee that has not expired.
elem-collect :
    (s grantee : String) (now : ℕ) (l : Ledger)
    → elem s (collect grantee now l) ≡ true
    → (grantor : String) × (d : Delegation) × In ((grantor, grantee), d) l
      × (active_at d now ≡ true)
      × (elem s d.scopes ≡ true)
unfolding collect elem
elem-collect s grantee now [] h = cc
elem-collect s grantee now (((gr, ge), d) ∷ l) h =
    let rest = elem-collect s grantee now l in
    elim (Bool-cases (ge == grantee && active_at d now)) [
      | inr out ↦ let (g, d', m, a, i) = rest (rw out at h) in (g, d', inr m, a, i)
      | inl counts ↦ elim (Bool-cases (elem s d.scopes)) [
        | inl here ↦ (
          gr,
          d,
          inl (ap (λ x. ((gr, x), d)) (ground (arith, string_eq.beq_iff ge grantee))),
          ground arith,
          here,
        )
        | inr later ↦
            let (g, d', m, a, i) =
              rest (ground (arith, elem-append s d.scopes (collect grantee now l))) in
            (g, d', inr m, a, i)
      ]
    ]

-- What stands was held: each of its scopes is one that its grantor had at the call that made it.
Standing-held :
    (calls : List Call) (grantor grantee s : String) (d : Delegation)
    → Standing calls grantor grantee d
    → elem s d.scopes ≡ true
    → (scopes held : List String) × (ttl : Option ℕ) × (note : String) × (at : ℕ) × In
        (delegate_call grantor grantee scopes held ttl note at)
        calls
      × (new_record grantor grantee (frozen scopes) ttl note at ≡ d)
      × (elem s scopes ≡ true)
      × (elem s held ≡ true)
Standing-held [] grantor grantee s d h i = absurd h
Standing-held (c ∷ calls) grantor grantee s d (inr (kept, rest)) i =
    let (scopes, held, ttl, note, at, m, made, a, b) =
      Standing-held calls grantor grantee s d rest i in
    (scopes, held, ttl, note, at, inr m, made, a, b)
Standing-held (c ∷ calls) grantor grantee s d (inl (scopes, held, ttl, note, at, e, within, same))
      i =
    let asked : elem s scopes ≡ true =
      sym (elem-sort str_leb s (frozen scopes) ∙ elem-frozen s scopes)
      ∙ ap (λ (x : Delegation). elem s x.scopes) same
      ∙ i in
    (scopes, held, ttl, note, at, inl e, same, asked, (subset_iff scopes held).0 within s asked)

-- However the calls on a ledger went, a scope that is active for a subject is among the scopes of a
-- delegation to it that stands, that is, one made by a grantor's last call that was neither refused
-- nor revoked since; the time of that delegation has not run out, and a call that makes this very
-- delegation asked for the scope while its grantor held it.
pub active_scopes-Standing :
    (calls : List Call) (grantee s : String) (now : ℕ)
    → elem s (active_scopes grantee now (after_calls calls)) ≡ true
    → (grantor : String) × (d : Delegation) × Standing calls grantor grantee d
      × (active_at d now ≡ true)
      × (elem s d.scopes ≡ true)
      × ((scopes held : List String) × (ttl : Option ℕ) × (note : String) × (at : ℕ) × In
            (delegate_call grantor grantee scopes held ttl note at)
            calls
          × (new_record grantor grantee (frozen scopes) ttl note at ≡ d)
          × (elem s scopes ≡ true)
          × (elem s held ≡ true))
unfolding active_scopes
active_scopes-Standing calls grantee s now h =
    let (grantor, d, m, a, i) = elem-collect s grantee now (after_calls calls) h in
    let standing =
      after_calls-Standing calls grantor grantee d
        (get_of_In (after_calls calls) (grantor, grantee) d (after_calls-IsDict calls) m) in
    (grantor, d, standing, a, i, Standing-held calls grantor grantee s d standing i)
