-- ===== src/TaskQueue/Sqlite/Untied.antt =====
-- Tables of src/hallpass/taskqueue.py in which no two rows have one `created_at`: there a query for
-- the oldest row has one answer.
use hallpass.Prelude.{
  String, ℕ, ◌≡◌, sym, ap, ◌∙◌, filter, In-filter, In, some, string_eq, arith, eq_iff, Option-cases,
  inl, inr, [],
}
use hallpass.Prelude.Dict
use hallpass.Prelude.Dict.{IsDict, values, put-IsDict, get-put, get_of_In-values}
use hallpass.Prelude.Views.{min_by, min_by-In, min_by-le}
use hallpass.TaskQueue.Sqlite.{Row, Table, Query, QueryLaws, claimable}

-- The ids are distinct and name their rows, and no two rows have one time.
pub record IsValid (rows : Table) : Type 0 where
  pub distinct : IsDict rows
  pub named : (k : String) (r : Row) → Dict.get rows k ≡ some r → r.id ≡ k
  pub untied :
      (j k : String) (r s : Row)
      → Dict.get rows j ≡ some r
      → Dict.get rows k ≡ some s
      → r.created_at ≡ s.created_at
      → j ≡ k

pub empty-IsValid : IsValid []
unfolding Dict.get
empty-IsValid = record { distinct = tt; named = λ k r h. cc; untied = λ j k r s h. cc }

pub put-IsValid :
    (rows : Table) (k : String) (r : Row)
    → r.id ≡ k
    → ((j : String) (s : Row) → Dict.get rows j ≡ some s → s.created_at ≡ r.created_at → j ≡ k)
    → IsValid rows
    → IsValid (Dict.put rows k r)
put-IsValid rows k r e alone v = record {
  distinct = put-IsDict rows k r v.distinct;
  named = λ j s h. ground (arith, get-put rows k j r, v.named j s, eq_iff k j);
  untied = λ i j s t hs ht same. ground (
    arith,
    get-put rows k i r,
    get-put rows k j r,
    eq_iff k i,
    eq_iff k j,
    v.untied i j s t,
    alone i s,
    alone j t,
    same,
  );
}

-- A row that is put in the place of one of its id and time.
pub update-IsValid :
    (rows : Table) (k : String) (r s : Row)
    → Dict.get rows k ≡ some r
    → s.id ≡ r.id
    → s.created_at ≡ r.created_at
    → IsValid rows
    → IsValid (Dict.put rows k s)
update-IsValid rows k r s here id time v =
    put-IsValid rows k s (id ∙ v.named k r here)
      (λ j t h same. v.untied j k t r h here (same ∙ time)) v

-- A row that is found stands under its own id.
pub get_of_In :
    (rows : Table) (r : Row) → IsValid rows → In r (values rows) → Dict.get rows r.id ≡ some r
get_of_In rows r v m =
    let (k, h) = get_of_In-values rows r v.distinct m in ap (Dict.get rows) (v.named k r h) ∙ h

module _ (query : Query) (laws : QueryLaws query) where
  -- With no ties the query gives the row that comes first by its time.
  pub oldest-min_by :
      (now lease : ℕ) (rows : Table)
      → IsValid rows
      → query.oldest rows (filter (claimable now lease) (values rows))
        ≡ min_by (λ (r : Row). r.created_at) (filter (claimable now lease) (values rows))
  unfolding min_by
  oldest-min_by now lease rows v =
      let ready = filter (claimable now lease) (values rows) in
      let created : Row → ℕ = λ r. r.created_at in
      elim (Option-cases (query.oldest rows ready)) [
        | inl e ↦ e ∙ sym (ap (min_by created) (laws.oldest_none rows ready e))
        | inr (r, e) ↦
            let (m, least) = laws.oldest_some rows ready r e in
            let (x, e', le) = min_by-le created ready r m in
            let m' = min_by-In created ready x e' in
            let hr = get_of_In rows r v (In-filter (claimable now lease) r (values rows) m).0 in
            let hx = get_of_In rows x v (In-filter (claimable now lease) x (values rows) m').0 in
            let time : r.created_at ≡ x.created_at = omega (arith, least x m', le) in
            let id : r.id ≡ x.id = v.untied r.id x.id r x hr hx time in
            let same : r ≡ x = ground (arith, hr, hx, ap (Dict.get rows) id) in
            e ∙ ap some same ∙ sym e'
      ]
