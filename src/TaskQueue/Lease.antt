-- ===== src/TaskQueue/Lease.antt =====
-- When a leased task of src/hallpass/taskqueue.py is handed out again. A claim judges the leases of
-- others by its own lease time, so what a lease is safe from depends on who else claims.
use hallpass.Prelude.{
  String, ℕ, ◌+◌, ◌≤◌, ◌≡◌, refl, ◌⊎◌, inl, inr, Bool, true, false, List, [], ◌∷◌, elem, Option,
  none, some, string_eq, ◌==◌, eq_iff, arith, Bool-cases,
}
use hallpass.Prelude.Dict
use hallpass.Prelude.Dict.{Dict, get-put, get-put_self}
use hallpass.TaskQueue.{
  Task, Queue, LeasedTask, is_leased, is_done, new_task, enqueue, claimable, claim, lease_to,
  finish,
}
use hallpass.TaskQueue.Steps.{
  Call, enqueue_call, claim_call, complete_call, apply, IsValid, apply-IsValid, claim-cases,
  complete-cases, put-IsValid,
}

-- The id that a claim hands out, before what the later calls hand out.
abbrev pub id_of : Option LeasedTask → List String → List String
id_of none ids = ids
id_of (some l) ids = l.id ∷ ids

-- The ids that the claims among these calls hand out, in order.
abbrev pub claimed : List Call → Queue → List String
claimed [] q = []
claimed (enqueue_call id action args note now ∷ calls) q =
    claimed calls (enqueue id action args note now q)
claimed (claim_call worker lease now later ∷ calls) q =
    id_of (claim worker lease now later q).0 (claimed calls (claim worker lease now later q).1)
claimed (complete_call id worker ok fields note ∷ calls) q =
    claimed calls (apply (complete_call id worker ok fields note) q)

-- The call draws another id, and a claim takes over no lease of `at` that has not run out.
abbrev pub Spares : String → ℕ → Call → Type 0
Spares id at (enqueue_call other action args note now) = (other == id) ≡ false
Spares id at (claim_call worker lease now later) = now ≤ at + lease
Spares id at (complete_call other worker ok fields note) = Unit

abbrev pub AllSpare : String → ℕ → List Call → Type 0
AllSpare id at [] = Unit
AllSpare id at (c ∷ calls) = Spares id at c × AllSpare id at calls

-- The task is leased since `at`, or done.
pub record Taken (id : String) (at : ℕ) (q : Queue) : Type 0 where
  pub task : Task
  pub there : Dict.get q id ≡ some task
  pub held : (is_done task.status ≡ true) ⊎ ((is_leased task.status ≡ true) × (task.leased_at ≡ at))

not_claimable :
    (t : Task) (at lease now : ℕ)
    → (is_done t.status ≡ true) ⊎ ((is_leased t.status ≡ true) × (t.leased_at ≡ at))
    → now ≤ at + lease
    → claimable now lease t ≡ false
unfolding claimable
not_claimable t at lease now (inl over) h = ground arith
not_claimable t at lease now (inr (l, e)) h = ground arith

-- The claimed task is another one.
claims_other :
    (id : String) (at lease now : ℕ) (q : Queue) (t : Task)
    → (k : Taken id at q) → now ≤ at + lease
    → claimable now lease t ≡ true
    → Dict.get q t.id ≡ some t
    → (t.id == id) ≡ false
claims_other id at lease now q t k h fits there =
    ground (arith, not_claimable k.task at lease now k.held h, k.there, eq_iff t.id id)

Taken-put :
    (id k : String) (at : ℕ) (q : Queue) (t : Task)
    → (k == id) ≡ false
    → Taken id at q
    → Taken id at (Dict.put q k t)
Taken-put id k at q t other h = record {
  task = h.task;
  there = ground (arith, get-put q k id t, h.there);
  held = h.held;
}

Taken-complete :
    (id other worker note : String) (at : ℕ) (ok : Bool) (fields : Dict String String) (q : Queue)
    → Taken id at q
    → Taken id at (apply (complete_call other worker ok fields note) q)
Taken-complete id other worker note at ok fields q k =
    elim (complete-cases other worker note ok fields q) [
      | inl e ↦ rw (e, apply) k
      | inr (t, still, there, e) ↦ elim (Bool-cases (other == id)) [
        | inl same ↦
            rw (e, apply)
              (record {
                task = finish worker ok fields note t;
                there = ground (arith, get-put q other id (finish worker ok fields note t));
                held = inl refl;
              })
        | inr apart ↦
            rw (e, apply) (Taken-put id other at q (finish worker ok fields note t) apart k)
      ]
    ]

-- From a queue where a task is leased since `at`, or done, no claim among these calls returns it,
-- under two conditions: the clock of every claim among them reads at most `at` and the lease time
-- which that claim itself asks for, and every task enqueued among them has another id. The claims
-- may be by any workers with different lease times, and any tasks may be completed, this one too.
pub claimed_excludes :
    (calls : List Call) (id : String) (at : ℕ) (q : Queue)
    → IsValid q
    → Taken id at q
    → AllSpare id at calls
    → elem id (claimed calls q) ≡ false
unfolding elem
claimed_excludes [] id at q v k s = refl
claimed_excludes (enqueue_call other action args note now ∷ calls) id at q v k s =
    claimed_excludes calls id at (enqueue other action args note now q)
      (apply-IsValid (enqueue_call other action args note now) q v)
      (unfold enqueue in Taken-put id other at q (new_task other action args note now) s.0 k) s.1
claimed_excludes (claim_call worker lease now later ∷ calls) id at q v k s =
    elim (claim-cases worker lease now later q v) [
      | inl e ↦ rw (e, claimed) (claimed_excludes calls id at q v k s.1)
      | inr (t, fits, there, e) ↦
          let other = claims_other id at lease now q t k s.0 fits there in
          let q' = Dict.put q t.id (lease_to worker later t) in
          let v' : IsValid q' = put-IsValid q t.id (lease_to worker later t) refl v in
          rw (e, claimed, other)
            (claimed_excludes calls id at q' v'
              (Taken-put id t.id at q (lease_to worker later t) other k) s.1)
    ]
claimed_excludes (complete_call other worker ok fields note ∷ calls) id at q v k s =
    claimed_excludes calls id at (apply (complete_call other worker ok fields note) q)
      (apply-IsValid (complete_call other worker ok fields note) q v)
      (Taken-complete id other worker note at ok fields q k) s.1
