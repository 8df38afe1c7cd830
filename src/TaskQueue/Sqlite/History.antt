-- ===== src/TaskQueue/Sqlite/History.antt =====
-- Whole histories of calls on the two backends of src/hallpass/taskqueue.py.
use mathlib.Core.Path.{ap₂, subst}
use hallpass.Prelude.{
  String, ◌≡◌, ◌≢◌, refl, sym, ◌∙◌, ap, Bool, true, false, List, [], ◌∷◌, Option, some, string_eq,
}
use hallpass.Prelude.Dict
use hallpass.Prelude.Dict.{Dict, Each}
use hallpass.TaskQueue.{Task, Queue, LeasedTask, Result}
use hallpass.TaskQueue as Memory
use hallpass.TaskQueue.Steps.{Call, enqueue_call, claim_call, complete_call, apply, apply_all}
use hallpass.TaskQueue.Sqlite.Untied as Untied
use hallpass.TaskQueue.Sqlite.{
  Json, JsonLaws, Query, QueryLaws, Table, enqueue, claim, complete, result, outstanding,
  pending_count,
}
use hallpass.TaskQueue.Sqlite.Refines.{
  Known, seen, claim-seen, complete-seen, enqueue-seen, result-seen, outstanding-seen,
  pending_count-seen,
}

-- What a call answers.
pub data Reply : Type 0 where
  enqueued : Bool → Reply
  handed_out : Option LeasedTask → Reply
  completed : Bool → Reply

-- A call on the in-memory backend.
abbrev pub reply : Call → Queue → Reply
reply (enqueue_call id action args note now) q = enqueued true
reply (claim_call worker lease now later) q = handed_out (Memory.claim worker lease now later q).0
reply (complete_call id worker ok fields note) q =
    completed (Memory.complete id worker ok fields note q).0

abbrev pub replies : List Call → Queue → List Reply
replies [] q = []
replies (c ∷ calls) q = reply c q ∷ replies calls (apply c q)

-- Each id is drawn when no task has it, at a time at which no task was enqueued.
abbrev pub Unused : Call → Queue → Type 0
Unused (enqueue_call id action args note now) q =
    (Dict.has q id ≡ false) × ((k : String) (t : Task) → Dict.get q k ≡ some t → t.created_at ≢ now)
Unused (claim_call worker lease now later) q = Unit
Unused (complete_call id worker ok fields note) q = Unit

abbrev pub AllUnused : List Call → Queue → Type 0
AllUnused [] q = Unit
AllUnused (c ∷ calls) q = Unused c q × AllUnused calls (apply c q)

module _ (json : Json) (query : Query) where
  -- A call on the SQLite backend.
  abbrev pub run_call : Call → Table → Reply × Table
  run_call (enqueue_call id action args note now) rows = (
    enqueued (enqueue json id action args note now rows).0,
    (enqueue json id action args note now rows).1,
  )
  run_call (claim_call worker lease now later) rows = (
    handed_out (claim json query worker lease now later rows).0,
    (claim json query worker lease now later rows).1,
  )
  run_call (complete_call id worker ok fields note) rows = (
    completed (complete json id worker ok fields note rows).0,
    (complete json id worker ok fields note rows).1,
  )

  abbrev pub run_calls : List Call → Table → List Reply × Table
  run_calls [] rows = ([], rows)
  run_calls (c ∷ calls) rows =
      let rest = run_calls calls (run_call c rows).1 in ((run_call c rows).0 ∷ rest.0, rest.1)

  module _ (laws : JsonLaws json) (query_laws : QueryLaws query) where
    call-seen :
        (c : Call) (rows : Table)
        → Unused c (seen json rows)
        → Untied.IsValid rows
        → Each Known rows
        → ((run_call c rows).0 ≡ reply c (seen json rows))
          × (seen json (run_call c rows).1 ≡ apply c (seen json rows))
          × Each Known (run_call c rows).1
          × Untied.IsValid (run_call c rows).1
    call-seen (enqueue_call id action args note now) rows u v k =
        let (a, b, c, d) = enqueue-seen json laws id action note args now rows u.0 u.1 v k in
        (ap enqueued a, b, c, d)
    call-seen (claim_call worker lease now later) rows u v k =
        let (a, b, c, d) = claim-seen json laws query query_laws worker lease now later rows v k in
        (ap handed_out a, b, c, d)
    call-seen (complete_call id worker ok fields note) rows u v k =
        let (a, b, c, d) = complete-seen json laws id worker note ok fields rows v k in
        (ap completed a, b, c, d)

    -- On any history of calls from a table whose ids are distinct and name their rows, whose leased
    -- rows have a time, and in which no two rows have one `created_at`: if each task is enqueued
    -- under an id and at a time that no task has, `json` brings dictionaries back, and the query
    -- gives some row with the least time, then the SQLite backend gives the answers of the in-memory
    -- one, call by call, and its results, its outstanding ids and its count of pending tasks at the
    -- end are the same. Of tasks that were enqueued at one time it says nothing.
    pub run_calls-replies :
        (calls : List Call) (rows : Table) (id : String)
        → AllUnused calls (seen json rows)
        → Untied.IsValid rows
        → Each Known rows
        → ((run_calls calls rows).0 ≡ replies calls (seen json rows))
          × (result json id (run_calls calls rows).1
              ≡ Memory.result id (apply_all calls (seen json rows)))
          × (outstanding (run_calls calls rows).1
              ≡ Memory.outstanding (apply_all calls (seen json rows)))
          × (pending_count (run_calls calls rows).1
              ≡ Memory.pending_count (apply_all calls (seen json rows)))
    run_calls-replies [] rows id u v k = (
      refl,
      result-seen json laws id rows,
      outstanding-seen json laws rows,
      pending_count-seen json laws rows,
    )
    run_calls-replies (c ∷ calls) rows id u v k =
        let (a, b, k', v') = call-seen c rows u.0 v k in
        let (r, res, out, count) =
          run_calls-replies calls (run_call c rows).1 id (subst (AllUnused calls) (sym b) u.1) v'
            k' in
        (
          ap₂ ◌∷◌ a (r ∙ ap (replies calls) b),
          res ∙ ap (λ q. Memory.result id (apply_all calls q)) b,
          out ∙ ap (λ q. Memory.outstanding (apply_all calls q)) b,
          count ∙ ap (λ q. Memory.pending_count (apply_all calls q)) b,
        )
