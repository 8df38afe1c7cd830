-- ===== src/TaskQueue/Records.antt =====
-- What the queue of src/hallpass/taskqueue.py has recorded stays, and what it was given is not lost.
use hallpass.Prelude.{
  String, ◌≡◌, refl, sym, ◌∙◌, ap, inl, inr, true, ◌||◌, not, leb, List, [], ◌∷◌, In, In→elem,
  In-filter_of, elem, filter, map, some, is_some, string_eq, arith, Bool-cases, Option-cases,
}
use hallpass.Prelude.Dict
use hallpass.Prelude.Dict.{Dict, values, get-put, In-values_of_get}
use hallpass.Prelude.Order.{sort, In-sort}
use hallpass.TaskQueue.{
  Task, Queue, Result, is_done, new_task, enqueue, lease_to, finish, result, outstanding,
}
use hallpass.TaskQueue.Steps.{
  Call, enqueue_call, claim_call, complete_call, apply, apply_all, IsValid, apply-IsValid,
  claim-cases, complete-cases, DrawsOthers, get-apply_done,
}

-- A result is that of a task that is done.
result_lem :
    (id : String) (q : Queue) (r : Result)
    → result id q ≡ some r
    → (t : Task) × (Dict.get q id ≡ some t) × (is_done t.status ≡ true)
unfolding result
result_lem id q r h = elim (Option-cases (Dict.get q id)) [
  | inl e ↦ absurd (ground arith)
  | inr (t, e) ↦ (t, e, ground arith)
]

result_of_get :
    (id : String) (q q' : Queue) → Dict.get q' id ≡ Dict.get q id → result id q' ≡ result id q
unfolding result
result_of_get id q q' h = rw (h, result) refl

-- A recorded result is never overwritten or lost: whatever is claimed and completed afterwards, by
-- whomever and in whatever order, the id has the same result, as long as it is not drawn again.
pub result-apply_all :
    (calls : List Call) (id : String) (q : Queue) (r : Result)
    → IsValid q
    → DrawsOthers id calls
    → result id q ≡ some r
    → result id (apply_all calls q) ≡ some r
result-apply_all [] id q r v d h = h
result-apply_all (c ∷ calls) id q r v d h =
    let (t, e, over) = result_lem id q r h in
    let kept = get-apply_done c id t q v d.0 e over in
    result-apply_all calls id (apply c q) r (apply-IsValid c q v) d.1
      (result_of_get id q (apply c q) (kept ∙ sym e) ∙ h)

has-apply :
    (c : Call) (id : String) (q : Queue)
    → IsValid q
    → Dict.has q id ≡ true
    → Dict.has (apply c q) id ≡ true
has-apply (enqueue_call other action args note now) id q v h =
    unfold enqueue in ground (arith, get-put q other id (new_task other action args note now))
has-apply (claim_call worker lease now later) id q v h =
    elim (claim-cases worker lease now later q v) [
      | inl e ↦ rw (e, apply) h
      | inr (u, fits, held, e) ↦
          rw (e, apply) (ground (arith, get-put q u.id id (lease_to worker later u)))
    ]
has-apply (complete_call other worker ok fields note) id q v h =
    elim (complete-cases other worker note ok fields q) [
      | inl e ↦ rw (e, apply) h
      | inr (u, still, held, e) ↦
          rw (e, apply) (ground (arith, get-put q other id (finish worker ok fields note u)))
    ]

In-map_of : {A B : Type 0} (f : A → B) (a : A) (xs : List A) → In a xs → In (f a) (map f xs)
In-map_of f a [] h = absurd h
In-map_of f a (x ∷ xs) (inl q) = inl (ap f q)
In-map_of f a (x ∷ xs) (inr m) = inr (In-map_of f a xs m)

-- A task of the queue that has no result is outstanding.
outstanding_or_result :
    (id : String) (q : Queue)
    → IsValid q
    → Dict.has q id ≡ true
    → (elem id (outstanding q) || is_some (result id q)) ≡ true
unfolding outstanding result
outstanding_or_result id q v h = elim (Option-cases (Dict.get q id)) [
  | inl e ↦ absurd (ground arith)
  | inr (t, e) ↦ elim (Bool-cases (is_done t.status)) [
    | inl over ↦ ground arith
    | inr still ↦
        let open_tasks = filter (λ (u : Task). not (is_done u.status)) (values q) in
        let kept : In t open_tasks =
          In-filter_of (λ (u : Task). not (is_done u.status)) t (values q)
            (In-values_of_get q id t e) (rw still refl) in
        let listed =
          In-map_of (λ (u : Task). u.id) t (sort (λ a b. leb a.created_at b.created_at) open_tasks)
            ((In-sort (λ a b. leb a.created_at b.created_at) t open_tasks).1 kept) in
        let there =
          In→elem t.id
            (map (λ (u : Task). u.id) (sort (λ a b. leb a.created_at b.created_at) open_tasks))
            listed in
        let e' : t.id ≡ id = v.named id t e in
        rw
          (sym (
              ap
                (λ k. elem k (
                  map (λ (u : Task). u.id)
                    (sort (λ a b. leb a.created_at b.created_at) open_tasks)))
                e')
            ∙ there)
          refl
  ]
]

-- Nothing that was enqueued is lost: after any calls a task of the queue is outstanding or has a
-- result.
pub apply_all-keeps :
    (calls : List Call) (id : String) (q : Queue)
    → IsValid q
    → Dict.has q id ≡ true
    → (elem id (outstanding (apply_all calls q)) || is_some (result id (apply_all calls q))) ≡ true
apply_all-keeps [] id q v h = outstanding_or_result id q v h
apply_all-keeps (c ∷ calls) id q v h =
    apply_all-keeps calls id (apply c q) (apply-IsValid c q v) (has-apply c id q v h)
