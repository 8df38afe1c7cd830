-- ===== src/TaskQueue/Steps.antt =====
-- The calls on the queue of src/hallpass/taskqueue.py as steps, and what each leaves in place.
use hallpass.Prelude.{
  String, ℕ, ◌≡◌, refl, ◌∙◌, ap, ◌⊎◌, inl, inr, Bool, true, false, List, [], ◌∷◌, In-filter, filter,
  none, some, string_eq, ◌==◌, eq_iff, arith, Bool-cases, Option-cases,
}
use hallpass.Prelude.Dict
use hallpass.Prelude.Dict.{Dict, values, IsDict, put-IsDict, get-put, get_of_In-values}
use hallpass.Prelude.Views.{min_by, min_by-In}
use hallpass.TaskQueue.{
  Task, Queue, is_done, new_task, enqueue, claimable, lease_to, handed, claim, finish, complete,
}

-- The calls that change a queue.
pub data Call : Type 0 where
  enqueue_call : String → String → Dict String String → String → ℕ → Call
  claim_call : String → ℕ → ℕ → ℕ → Call
  complete_call : String → String → Bool → Dict String String → String → Call

abbrev pub apply : Call → Queue → Queue
apply (enqueue_call id action args note now) q = enqueue id action args note now q
apply (claim_call worker lease now later) q = (claim worker lease now later q).1
apply (complete_call id worker ok fields note) q = (complete id worker ok fields note q).1

abbrev pub apply_all : List Call → Queue → Queue
apply_all [] q = q
apply_all (c ∷ calls) q = apply_all calls (apply c q)

-- Every id stands once, and each task under its own.
pub record IsValid (q : Queue) : Type 0 where
  pub distinct : IsDict q
  pub named : (k : String) (t : Task) → Dict.get q k ≡ some t → t.id ≡ k

-- What a claim does: nothing, or it leases a claimable task of the queue.
pub claim-cases :
    (worker : String) (lease now later : ℕ) (q : Queue)
    → IsValid q
    → (claim worker lease now later q ≡ (none, q))
      ⊎ ((t : Task) × (claimable now lease t ≡ true)
          × (Dict.get q t.id ≡ some t)
          × (claim worker lease now later q
              ≡ (some (handed worker t), Dict.put q t.id (lease_to worker later t))))
unfolding claim
claim-cases worker lease now later q v =
    let ready = filter (claimable now lease) (values q) in
    elim (Option-cases (min_by (λ (t : Task). t.created_at) ready)) [
      | inl e ↦ inl (rw (e, claim) refl)
      | inr (t, e) ↦
          let (held, fits) =
            In-filter (claimable now lease) t (values q)
              (min_by-In (λ (t : Task). t.created_at) ready t e) in
          let (k, found) = get_of_In-values q t v.distinct held in
          let here : Dict.get q t.id ≡ some t = ap (Dict.get q) (v.named k t found) ∙ found in
          inr (t, fits, here, rw (e, claim) refl)
    ]

pub put-IsValid :
    (q : Queue) (k : String) (t : Task) → t.id ≡ k → IsValid q → IsValid (Dict.put q k t)
put-IsValid q k t e v = record {
  distinct = put-IsDict q k t v.distinct;
  named = λ j u h. ground (arith, get-put q k j t, v.named j u, eq_iff k j);
}

-- Every call keeps the ids distinct and each task under its own.
pub apply-IsValid : (c : Call) (q : Queue) → IsValid q → IsValid (apply c q)
apply-IsValid (enqueue_call id action args note now) q v =
    unfold enqueue in put-IsValid q id (new_task id action args note now) refl v
apply-IsValid (claim_call worker lease now later) q v =
    elim (claim-cases worker lease now later q v) [
      | inl e ↦ rw (e, apply) v
      | inr (t, _, _, e) ↦ rw (e, apply) (put-IsValid q t.id (lease_to worker later t) refl v)
    ]
apply-IsValid (complete_call id worker ok fields note) q v = elim (Option-cases (Dict.get q id)) [
  | inl e ↦ unfold complete in rw (e, apply) v
  | inr (t, e) ↦ elim (Bool-cases (is_done t.status)) [
    | inl over ↦ unfold complete in rw (e, apply, over) v
    | inr still ↦
        unfold complete in
        rw (e, apply, still) (put-IsValid q id (finish worker ok fields note t) (v.named id t e) v)
  ]
]

-- What a completion does: nothing, or it records a result of a task that has none.
pub complete-cases :
    (id worker note : String) (ok : Bool) (fields : Dict String String) (q : Queue)
    → (complete id worker ok fields note q ≡ (false, q))
      ⊎ ((t : Task) × (is_done t.status ≡ false)
          × (Dict.get q id ≡ some t)
          × (complete id worker ok fields note q
              ≡ (true, Dict.put q id (finish worker ok fields note t))))
unfolding complete
complete-cases id worker note ok fields q = elim (Option-cases (Dict.get q id)) [
  | inl e ↦ inl (rw (e, complete) refl)
  | inr (t, e) ↦ elim (Bool-cases (is_done t.status)) [
    | inl over ↦ inl (rw (e, complete, over) refl)
    | inr still ↦ inr (t, still, e, rw (e, complete, still) refl)
  ]
]

-- The call draws another id than this one.
abbrev pub Draws : String → Call → Type 0
Draws id (enqueue_call other action args note now) = (other == id) ≡ false
Draws id (claim_call worker lease now later) = Unit
Draws id (complete_call other worker ok fields note) = Unit

-- No call of these draws this id.
abbrev pub DrawsOthers : String → List Call → Type 0
DrawsOthers id [] = Unit
DrawsOthers id (c ∷ calls) = Draws id c × DrawsOthers id calls

-- A task that is done stays as it is.
pub get-apply_done :
    (c : Call) (id : String) (t : Task) (q : Queue)
    → IsValid q
    → Draws id c
    → Dict.get q id ≡ some t
    → is_done t.status ≡ true
    → Dict.get (apply c q) id ≡ some t
get-apply_done (enqueue_call other action args note now) id t q v d h over =
    unfold enqueue in ground (arith, get-put q other id (new_task other action args note now))
get-apply_done (claim_call worker lease now later) id t q v d h over =
    elim (claim-cases worker lease now later q v) [
      | inl e ↦ rw (e, apply) h
      | inr (u, fits, held, e) ↦
          rw (e, apply)
            (unfold claimable in
              ground (
                arith,
                get-put q u.id id (lease_to worker later u),
                eq_iff u.id id,
                ap (λ k. Dict.get q k),
              ))
    ]
get-apply_done (complete_call other worker ok fields note) id t q v d h over =
    elim (complete-cases other worker note ok fields q) [
      | inl e ↦ rw (e, apply) h
      | inr (u, still, held, e) ↦
          rw (e, apply)
            (ground (arith, get-put q other id (finish worker ok fields note u), eq_iff other id))
    ]
