-- ===== src/Audit/Sqlite/Newest.antt =====
-- What a query of the SQLite log of src/hallpass/audit.py answers as events are recorded.
use hallpass.Prelude.{
  ℕ, suc, ◌≡◌, refl, ◌∙◌, ap, Bool, if◌then◌else◌, [], ◌∷◌, ◌++◌, filter, take, arith, Bool-cases,
  inl, inr,
}
use hallpass.Audit.{AuditEvent}
use hallpass.Audit.Sqlite.{Table, append, Query, matches, newest_first, query}

filter_last :
    (p : AuditEvent → Bool) (rows : Table) (e : AuditEvent)
    → filter p (rows ++ e ∷ []) ≡ (if p e then filter p rows ++ e ∷ [] else filter p rows)
unfolding filter
filter_last p [] e = ground arith
filter_last p (x ∷ rows) e = ground (arith, filter_last p rows e)

newest_first_last :
    (rows : Table) (e : AuditEvent) → newest_first (rows ++ e ∷ []) ≡ e ∷ newest_first rows
unfolding newest_first
newest_first_last [] e = refl
newest_first_last (x ∷ rows) e = ap (λ r. r ++ x ∷ []) (newest_first_last rows e)

-- An event that is recorded heads the answers to the queries that it matches, before as many of the
-- earlier ones as the limit leaves, and changes the answer to no other query.
pub query-append :
    (q : Query) (limit : ℕ) (e : AuditEvent) (rows : Table)
    → query q (suc limit) (append e rows)
      ≡ (if matches q e then e ∷ query q limit rows else query q (suc limit) rows)
unfolding query append
query-append q limit e rows =
    ap (λ es. take (suc limit) (newest_first es)) (filter_last (matches q) rows e)
    ∙ elim (Bool-cases (matches q e)) [
      | inl hit ↦ rw hit (ap (take (suc limit)) (newest_first_last (filter (matches q) rows) e))
      | inr miss ↦ rw miss refl
    ]
