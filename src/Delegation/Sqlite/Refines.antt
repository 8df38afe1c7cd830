-- ===== src/Delegation/Sqlite/Refines.antt =====
-- The SQLite ledger of src/hallpass/delegation.py answers as the in-memory one does.
use hallpass.Prelude.{
  String, ℕ, ◌≡◌, refl, sym, ◌∙◌, ap, Bool, ◌&&◌, ◌||◌, List, [], ◌∷◌, ◌++◌, map, filter, elem,
  elem-append, In, In-filter, Option, none, some, string_eq, pair_eq, ◌==◌, arith, Bool-cases, inl,
  inr,
}
use hallpass.Prelude.Dict
use hallpass.Prelude.Dict.{Dict, values, Each, Each-put, Each-remove}
use hallpass.Prelude.Sets.{difference, nonempty}
use hallpass.Prelude.Order.{insert, sort, str_leb, In-sort}
use hallpass.Prelude.Words.{Words, words, words-join, Words-sort}
use hallpass.Prelude.Views.{
  map_values, values-map_values, has-map_values, put-map_values, remove-map_values,
  filter-map_values, sort-map, values-filter, Each-map, map-In,
}
use hallpass.Prelude.Simulation.{run_all, AllCalls, Simulates, run_all-Simulates}
use hallpass.Delegation.{
  Delegation, Ledger, unexpired, active_at, frozen, bounded, over, bounded_by, new_record,
  Delegated, collect,
}
use hallpass.Delegation as Memory
use hallpass.Delegation.Sqlite.{
  Row, Table, is_alive, row_of, delegate, active_rows, all_words, active_scopes, delegation_of,
  granted, revoke,
}

-- A row as the in-memory ledger would hold it.
abbrev pub seen_row : Row → Delegation
seen_row r = delegation_of r.grantee r

abbrev pub seen : Table → Ledger
seen = map_values seen_row

-- A row stands under its own key.
abbrev pub Keyed : String × String → Row → Type 0
Keyed k r = (r.grantor, r.grantee) ≡ k

abbrev pub WordScopes : List String → Type 0
WordScopes scopes = Words (frozen scopes)

row-back : (d : Delegation) → Words d.scopes → seen_row (row_of d) ≡ d
row-back d w = ap (λ ws. record d { scopes = ws }) (words-join d.scopes w)

delegate-seen :
    (grantor grantee note : String) (scopes grantor_scopes : List String) (ttl : Option ℕ) (now : ℕ)
    (t : Table)
    → WordScopes scopes
    → Each Keyed t
    → ((delegate grantor grantee scopes grantor_scopes ttl note now t).0
        ≡ (Memory.delegate grantor grantee scopes grantor_scopes ttl note now (seen t)).0)
      × (seen (delegate grantor grantee scopes grantor_scopes ttl note now t).1
          ≡ (Memory.delegate grantor grantee scopes grantor_scopes ttl note now (seen t)).1)
      × Each Keyed (delegate grantor grantee scopes grantor_scopes ttl note now t).1
unfolding delegate Memory.delegate bounded_by
delegate-seen grantor grantee note scopes grantor_scopes ttl now t w k =
    elim (Bool-cases (nonempty (difference (frozen scopes) grantor_scopes))) [
      | inl beyond ↦ rw (beyond, delegate, Memory.delegate, bounded_by) (refl, refl, k)
      | inr within ↦
          let d = new_record grantor grantee (frozen scopes) ttl note now in
          rw (within, delegate, Memory.delegate, bounded_by)
            (
              refl,
              put-map_values seen_row t (grantor, grantee) (row_of d)
                  ∙ ap (Dict.put (seen t) (grantor, grantee))
                      (row-back d (Words-sort str_leb (frozen scopes) w)),
              Each-put Keyed t (grantor, grantee) (row_of d) refl k,
            )
    ]

revoke-seen :
    (grantor grantee : String) (t : Table)
    → Each Keyed t
    → ((revoke grantor grantee t).0 ≡ (Memory.revoke grantor grantee (seen t)).0)
      × (seen (revoke grantor grantee t).1 ≡ (Memory.revoke grantor grantee (seen t)).1)
      × Each Keyed (revoke grantor grantee t).1
unfolding revoke Memory.revoke
revoke-seen grantor grantee t k = (
  sym (has-map_values seen_row t (grantor, grantee)),
  remove-map_values seen_row t (grantor, grantee),
  Each-remove Keyed t (grantor, grantee) k,
)

-- The condition of `_active_rows`.
abbrev selected : String → ℕ → Row → Bool
selected grantee now r = r.grantee == grantee && is_alive r.expires_at now

alive-unexpired : (at : Option ℕ) (now : ℕ) → unexpired at now ≡ is_alive at now
alive-unexpired none now = refl
alive-unexpired (some n) now = refl

selected-Keyed :
    (grantee : String) (now : ℕ) (k : String × String) (r : Row)
    → Keyed k r
    → (k.1 == grantee && active_at (seen_row r) now) ≡ selected grantee now r
selected-Keyed grantee now k r e =
    ap (λ (j : String × String). j.1 == grantee && active_at (seen_row r) now) (sym e)
    ∙ ap (λ b. r.grantee == grantee && b) (alive-unexpired r.expires_at now)

granted-active :
    (grantee : String) (now : ℕ) (t : Table)
    → Each Keyed t
    → Memory.granted grantee now (seen t) ≡ map seen_row (active_rows grantee now t)
unfolding Memory.granted active_rows
granted-active grantee now t k =
    let le = λ (a b : Delegation). str_leb a.grantor b.grantor in
    let counts = λ (e : (String × String) × Delegation). e.0.1 == grantee && active_at e.1 now in
    let mine = filter (λ (e : (String × String) × Row). counts (e.0, seen_row e.1)) t in
    ap (λ l. sort le (values l)) (filter-map_values seen_row counts t)
    ∙ ap (sort le) (values-map_values seen_row mine)
    ∙ ap (λ rs. sort le (map seen_row rs))
        (values-filter (λ e. counts (e.0, seen_row e.1)) (selected grantee now) t
          (Each-map Keyed (λ j r. counts (j, seen_row r) ≡ selected grantee now r) t
            (selected-Keyed grantee now) k))
    ∙ sort-map seen_row le (filter (selected grantee now) (values t))

granted-seen :
    (grantee : String) (now : ℕ) (t : Table)
    → Each Keyed t
    → granted grantee now t ≡ Memory.granted grantee now (seen t)
unfolding granted active_rows
granted-seen grantee now t k =
    map-In (delegation_of grantee) seen_row (active_rows grantee now t) same
    ∙ sym (granted-active grantee now t k)
  where
    same : (r : Row) → In r (active_rows grantee now t) → delegation_of grantee r ≡ seen_row r
    same r m =
        let chosen =
          (In-filter (selected grantee now) r (values t) (
            (In-sort (λ (a b : Row). str_leb a.grantor b.grantor) r
                (filter (selected grantee now) (values t))).0
              m)).1 in
        let e : grantee ≡ r.grantee = ground (arith, string_eq.beq_iff r.grantee grantee) in
        ap (λ g. delegation_of g r) e

all_words-insert :
    (s : String) (le : Row → Row → Bool) (r : Row) (rows : List Row)
    → elem s (all_words (insert le r rows)) ≡ (elem s (words r.scopes) || elem s (all_words rows))
unfolding insert all_words
all_words-insert s le r [] = elem-append s (words r.scopes) []
all_words-insert s le r (x ∷ rows) = ground (
  arith,
  all_words-insert s le r rows,
  elem-append s (words r.scopes) (words x.scopes ++ all_words rows),
  elem-append s (words x.scopes) (all_words rows),
  elem-append s (words x.scopes) (all_words (insert le r rows)),
)

all_words-sort :
    (s : String) (le : Row → Row → Bool) (rows : List Row)
    → elem s (all_words (sort le rows)) ≡ elem s (all_words rows)
unfolding sort all_words
all_words-sort s le [] = refl
all_words-sort s le (r ∷ rows) =
    all_words-insert s le r (sort le rows)
    ∙ ap (λ b. elem s (words r.scopes) || b) (all_words-sort s le rows)
    ∙ sym (elem-append s (words r.scopes) (all_words rows))

collect-seen :
    (grantee : String) (now : ℕ) (t : Table)
    → Each Keyed t
    → collect grantee now (seen t) ≡ all_words (filter (selected grantee now) (values t))
unfolding collect filter all_words
collect-seen grantee now [] k = refl
collect-seen grantee now ((j, r) ∷ t) k =
    rw (selected-Keyed grantee now j r k.0) (ground (arith, collect-seen grantee now t k.1))

elem-active_scopes :
    (grantee s : String) (now : ℕ) (t : Table)
    → Each Keyed t
    → elem s (active_scopes grantee now t) ≡ elem s (Memory.active_scopes grantee now (seen t))
unfolding active_scopes Memory.active_scopes active_rows
elem-active_scopes grantee s now t k =
    all_words-sort s (λ (a b : Row). str_leb a.grantor b.grantor)
      (filter (selected grantee now) (values t))
    ∙ ap (elem s) (sym (collect-seen grantee now t k))

-- The calls on a ledger, each with the time of its call; `holds_call` asks whether a scope is among
-- the active ones.
pub data Call : Type 0 where
  delegate_call : String → String → List String → List String → Option ℕ → String → ℕ → Call
  revoke_call : String → String → Call
  granted_call : String → ℕ → Call
  holds_call : String → String → ℕ → Call

pub data Reply : Type 0 where
  delegated_reply : Delegated → Reply
  revoked_reply : Bool → Reply
  granted_reply : List Delegation → Reply
  holds_reply : Bool → Reply

abbrev pub on_memory : Call → Ledger → Reply × Ledger
on_memory (delegate_call grantor grantee scopes held ttl note now) l =
    let r = Memory.delegate grantor grantee scopes held ttl note now l in (delegated_reply r.0, r.1)
on_memory (revoke_call grantor grantee) l =
    let r = Memory.revoke grantor grantee l in (revoked_reply r.0, r.1)
on_memory (granted_call grantee now) l = (granted_reply (Memory.granted grantee now l), l)
on_memory (holds_call grantee s now) l =
    (holds_reply (elem s (Memory.active_scopes grantee now l)), l)

abbrev pub on_sqlite : Call → Table → Reply × Table
on_sqlite (delegate_call grantor grantee scopes held ttl note now) t =
    let r = delegate grantor grantee scopes held ttl note now t in (delegated_reply r.0, r.1)
on_sqlite (revoke_call grantor grantee) t =
    let r = revoke grantor grantee t in (revoked_reply r.0, r.1)
on_sqlite (granted_call grantee now) t = (granted_reply (granted grantee now t), t)
on_sqlite (holds_call grantee s now) t = (holds_reply (elem s (active_scopes grantee now t)), t)

-- The scopes of a delegation are words, with no white space.
abbrev pub HasWords : Call → Type 0
HasWords (delegate_call grantor grantee scopes held ttl note now) = Words (frozen scopes)
HasWords (revoke_call grantor grantee) = Unit
HasWords (granted_call grantee now) = Unit
HasWords (holds_call grantee s now) = Unit

sqlite-Simulates : Simulates HasWords (Each Keyed) seen on_memory on_sqlite
sqlite-Simulates (delegate_call grantor grantee scopes held ttl note now) t w k =
    let (a, b, c) = delegate-seen grantor grantee note scopes held ttl now t w k in
    (ap delegated_reply a, b, c)
sqlite-Simulates (revoke_call grantor grantee) t w k =
    let (a, b, c) = revoke-seen grantor grantee t k in (ap revoked_reply a, b, c)
sqlite-Simulates (granted_call grantee now) t w k =
    (ap granted_reply (granted-seen grantee now t k), refl, k)
sqlite-Simulates (holds_call grantee s now) t w k =
    (ap holds_reply (elem-active_scopes grantee s now t k), refl, k)

-- On any history of calls from a new ledger, if the scopes are words without white space, the
-- SQLite ledger gives the answers of the in-memory one: what is delegated or refused, what is
-- revoked, the list of what is granted, and which scopes are active.
pub sqlite_delegations :
    (calls : List Call)
    → AllCalls HasWords calls
    → (run_all on_sqlite calls []).0 ≡ (run_all on_memory calls []).0
sqlite_delegations calls w =
    (run_all-Simulates HasWords (Each Keyed) seen on_memory on_sqlite sqlite-Simulates calls [] w
      tt).0
