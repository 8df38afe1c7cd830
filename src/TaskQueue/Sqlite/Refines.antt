-- ===== src/TaskQueue/Sqlite/Refines.antt =====
-- The SQLite backend of src/hallpass/taskqueue.py answers as the in-memory one does.
use hallpass.Prelude.{
  String, ℕ, ◌≡◌, ◌≢◌, refl, sym, In-filter, ◌∙◌, ap, Bool, true, false, ◌||◌, not, if◌then◌else◌,
  leb, [], ◌∷◌, map, filter, length, Option, none, some, is_some, string_eq, arith, Bool-cases,
  Option-cases, inl, inr,
}
use hallpass.Prelude.Dict
use hallpass.Prelude.Dict.{Dict, values, Each, Each-put, Each-get}
use hallpass.Prelude.Order.{sort}
use hallpass.Prelude.Views.{
  min_by, map_option, map_values, values-map_values, get-map_values, put-map_values, filter-map,
  min_by-map, sort-map, map-map, length-map,
}
use hallpass.TaskQueue.{
  Status, Task, Queue, LeasedTask, Result, is_done, is_leased, is_pending, pending, leased, done,
  handed, lease_to, new_task, finish,
}
use hallpass.TaskQueue as Memory
use hallpass.TaskQueue.Sqlite.Untied as Untied
use hallpass.TaskQueue.Sqlite.{
  Json, JsonLaws, Query, QueryLaws, Row, Table, claimable, lease_row, or_empty, loads_or_empty,
  new_row, enqueue, claim, finish_row, complete, truth, result, outstanding, pending_count,
}

-- A leased row has the time of its lease.
abbrev pub Known : String → Row → Type 0
Known id r = (not (is_leased r.status) || is_some r.leased_at) ≡ true

abbrev or_zero : Option ℕ → ℕ
or_zero none = 0
or_zero (some n) = n

module _ (json : Json) where
  -- A row as the in-memory backend would hold it.
  abbrev pub task_of : Row → Task
  task_of r = record {
    id = r.id;
    action = r.action;
    args = json.loads r.args;
    note = r.note;
    status = r.status;
    created_at = r.created_at;
    leased_at = or_zero r.leased_at;
    ok = truth json r.ok;
    fields = loads_or_empty json r.fields;
    worker = if is_done r.status then or_empty r.worker else or_empty r.leased_by;
  }

  abbrev pub seen : Table → Queue
  seen = map_values task_of

  claimable-task_of :
      (now lease : ℕ) (id : String) (r : Row)
      → Known id r
      → Memory.claimable now lease (task_of r) ≡ claimable now lease r
  unfolding claimable Memory.claimable
  claimable-task_of now lease id r k = ground arith

  filter-claimable :
      (now lease : ℕ) (rows : Table)
      → Each Known rows
      → filter (λ r. Memory.claimable now lease (task_of r)) (values rows)
        ≡ filter (claimable now lease) (values rows)
  unfolding filter
  filter-claimable now lease [] k = refl
  filter-claimable now lease ((id, r) ∷ rows) k =
      ground (arith, claimable-task_of now lease id r k.0, filter-claimable now lease rows k.1)

  module _ (laws : JsonLaws json) where
    -- A claim on a table with no ties.
    pub claim-seen :
        (query : Query)
        → QueryLaws query
        → (worker : String) (lease now later : ℕ) (rows : Table) → Untied.IsValid rows
        → Each Known rows
        → ((claim json query worker lease now later rows).0
            ≡ (Memory.claim worker lease now later (seen rows)).0)
          × (seen (claim json query worker lease now later rows).1
              ≡ (Memory.claim worker lease now later (seen rows)).1)
          × Each Known (claim json query worker lease now later rows).1
          × Untied.IsValid (claim json query worker lease now later rows).1
    unfolding claim Memory.claim
    claim-seen query query_laws worker lease now later rows v k =
        let ready = filter (claimable now lease) (values rows) in
        let same =
          ap (λ ts. min_by (λ (t : Task). t.created_at) (filter (Memory.claimable now lease) ts))
            (values-map_values task_of rows)
          ∙ ap (min_by (λ (t : Task). t.created_at))
              (filter-map task_of (Memory.claimable now lease) (values rows))
          ∙ min_by-map task_of (λ t. t.created_at)
              (filter (λ r. Memory.claimable now lease (task_of r)) (values rows))
          ∙ ap (λ rs. map_option task_of (min_by (λ (r : Row). r.created_at) rs))
              (filter-claimable now lease rows k)
          ∙ ap (map_option task_of)
              (sym (Untied.oldest-min_by query query_laws now lease rows v)) in
        elim (Option-cases (query.oldest rows ready)) [
          | inl e ↦
              let e' = same ∙ ap (map_option task_of) e in
              rw (e, claim, e', Memory.claim) (refl, refl, k, v)
          | inr (r, e) ↦
              let e' = same ∙ ap (map_option task_of) e in
              let held =
                (In-filter (claimable now lease) r (values rows)
                  (query_laws.oldest_some rows ready r e).0).0 in
              rw (e, claim, e', Memory.claim)
                (
                  refl,
                  put-map_values task_of rows r.id (lease_row worker later r),
                  Each-put Known rows r.id (lease_row worker later r) refl k,
                  Untied.update-IsValid rows r.id r (lease_row worker later r)
                      (Untied.get_of_In rows r v held) refl refl v,
                )
        ]

    pub complete-seen :
        (id worker note : String) (ok : Bool) (fields : Dict String String) (rows : Table)
        → Untied.IsValid rows
        → Each Known rows
        → ((complete json id worker ok fields note rows).0
            ≡ (Memory.complete id worker ok fields note (seen rows)).0)
          × (seen (complete json id worker ok fields note rows).1
              ≡ (Memory.complete id worker ok fields note (seen rows)).1)
          × Each Known (complete json id worker ok fields note rows).1
          × Untied.IsValid (complete json id worker ok fields note rows).1
    unfolding complete Memory.complete
    complete-seen id worker note ok fields rows v k = elim (Option-cases (Dict.get rows id)) [
      | inl e ↦
          let e' = get-map_values task_of rows id ∙ ap (map_option task_of) e in
          rw (e, complete, e', Memory.complete) (refl, refl, k, v)
      | inr (r, e) ↦
          let e' = get-map_values task_of rows id ∙ ap (map_option task_of) e in
          elim (Bool-cases (is_done r.status)) [
            | inl over ↦ rw (e, complete, e', Memory.complete, over) (refl, refl, k, v)
            | inr still ↦
                rw (e, complete, e', Memory.complete, still)
                  (
                    refl,
                    put-map_values task_of rows id (finish_row json worker ok fields note r)
                        ∙ ap (Dict.put (seen rows) id) (finished r),
                    Each-put Known rows id (finish_row json worker ok fields note r) refl k,
                    Untied.update-IsValid rows id r (finish_row json worker ok fields note r) e refl
                        refl v,
                  )
          ]
    ]
      where
        finished :
            (r : Row)
            → task_of (finish_row json worker ok fields note r)
              ≡ finish worker ok fields note (task_of r)
        finished r =
            let back : loads_or_empty json (some (json.dumps fields)) ≡ fields =
              rw (laws.dumps_nonempty fields) (laws.loads_dumps fields) in
            ap (λ fs. record (finish worker ok fields note (task_of r)) { fields = fs }) back

    pub enqueue-seen :
        (id action note : String) (args : Dict String String) (now : ℕ) (rows : Table)
        → Dict.has (seen rows) id ≡ false
        → ((k : String) (t : Task) → Dict.get (seen rows) k ≡ some t → t.created_at ≢ now)
        → Untied.IsValid rows
        → Each Known rows
        → ((enqueue json id action args note now rows).0 ≡ true)
          × (seen (enqueue json id action args note now rows).1
              ≡ Memory.enqueue id action args note now (seen rows))
          × Each Known (enqueue json id action args note now rows).1
          × Untied.IsValid (enqueue json id action args note now rows).1
    unfolding enqueue Memory.enqueue
    enqueue-seen id action note args now rows fresh later v k =
        let fresh' : Dict.has rows id ≡ false = ground (arith, get-map_values task_of rows id) in
        rw (fresh', enqueue)
          (
            refl,
            put-map_values task_of rows id (new_row json id action args note now)
                ∙ ap
                    (λ a.
                      Dict.put (seen rows) id
                        (record (new_task id action args note now) { args = a }))
                    (laws.loads_dumps args),
            Each-put Known rows id (new_row json id action args note now) refl k,
            Untied.put-IsValid rows id (new_row json id action args note now) refl
                (λ j r h same. absurd (
                  later j (task_of r) (get-map_values task_of rows j ∙ ap (map_option task_of) h)
                    same))
                v,
          )

    -- The read-only queries.
    pub result-seen :
        (id : String) (rows : Table) → result json id rows ≡ Memory.result id (seen rows)
    unfolding result Memory.result
    result-seen id rows = ground (arith, get-map_values task_of rows id)

    pub outstanding-seen : (rows : Table) → outstanding rows ≡ Memory.outstanding (seen rows)
    unfolding outstanding Memory.outstanding
    outstanding-seen rows =
        let waiting = filter (λ (r : Row). not (is_done r.status)) (values rows) in
        sym (
          ap
            (λ ts.
              map (λ (t : Task). t.id)
                (sort (λ a b. leb a.created_at b.created_at)
                  (filter (λ t. not (is_done t.status)) ts)))
            (values-map_values task_of rows)
          ∙ ap (λ ts. map (λ (t : Task). t.id) (sort (λ a b. leb a.created_at b.created_at) ts))
              (filter-map task_of (λ t. not (is_done t.status)) (values rows))
          ∙ ap (map (λ (t : Task). t.id))
              (sort-map task_of (λ a b. leb a.created_at b.created_at) waiting)
          ∙ map-map (λ (t : Task). t.id) task_of
              (sort (λ a b. leb a.created_at b.created_at) waiting))

    pub pending_count-seen : (rows : Table) → pending_count rows ≡ Memory.pending_count (seen rows)
    unfolding pending_count Memory.pending_count
    pending_count-seen rows = sym (
        ap (λ ts. length (filter (λ (t : Task). is_pending t.status) ts))
          (values-map_values task_of rows)
        ∙ ap length (filter-map task_of (λ t. is_pending t.status) (values rows))
        ∙ length-map task_of (filter (λ r. is_pending r.status) (values rows)))
