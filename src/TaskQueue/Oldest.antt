-- ===== src/TaskQueue/Oldest.antt =====
-- Which task a claim of src/hallpass/taskqueue.py hands out.
use hallpass.Prelude.{
  String, ℕ, ◌≤◌, ◌≡◌, refl, ap, ◌∙◌, true, In-filter, In-filter_of, filter, some, string_eq,
}
use hallpass.Prelude.Dict
use hallpass.Prelude.Dict.{values, get_of_In-values, In-values_of_get}
use hallpass.Prelude.Views.{min_by-In, min_by-le}
use hallpass.TaskQueue.{Task, Queue, claimable, claim, handed, lease_to}
use hallpass.TaskQueue.Steps.{IsValid}

-- A claim never comes back empty while a task can be claimed: it hands out, and leases to the
-- worker, a task that can be claimed and is at least as old as any other that can.
pub claim_oldest :
    (worker id : String) (lease now later : ℕ) (q : Queue) (u : Task)
    → IsValid q
    → Dict.get q id ≡ some u
    → claimable now lease u ≡ true
    → (t : Task) × (Dict.get q t.id ≡ some t)
      × (claimable now lease t ≡ true)
      × (t.created_at ≤ u.created_at)
      × (claim worker lease now later q
          ≡ (some (handed worker t), Dict.put q t.id (lease_to worker later t)))
unfolding claim
claim_oldest worker id lease now later q u v h fits =
    let ready = filter (claimable now lease) (values q) in
    let waiting =
      In-filter_of (claimable now lease) u (values q) (In-values_of_get q id u h) fits in
    let (t, e, least) = min_by-le (λ (t : Task). t.created_at) ready u waiting in
    let (held, fits') =
      In-filter (claimable now lease) t (values q)
        (min_by-In (λ (t : Task). t.created_at) ready t e) in
    let (k, found) = get_of_In-values q t v.distinct held in
    (t, ap (Dict.get q) (v.named k t found) ∙ found, fits', least, rw (e, claim) refl)
