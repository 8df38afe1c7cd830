-- ===== src/Approvals/Sqlite/Refines.antt =====
-- The SQLite ledger of src/hallpass/approvals.py answers as the in-memory one does.
use hallpass.Prelude.{
  String, ℕ, ◌≡◌, refl, sym, ◌∙◌, ap, Bool, if◌then◌else◌, leb, length, List, [], ◌∷◌, map, filter,
  Option, string_eq, pair_eq, ◌==◌, arith, Bool-cases, inl, inr, eq_iff, ==→≡,
}
use hallpass.Prelude.Dict
use hallpass.Prelude.Dict.{Dict, keys, values, Each, Each-put, get-put}
use hallpass.Prelude.Order.{sort, str_leb}
use hallpass.Prelude.Views.{length-map, sort-map}
use hallpass.Prelude.Simulation.{run_all, Any, every_call, Related, run_all-Related}
use hallpass.Approvals.{Approval, Ledger, here}
use hallpass.Approvals as Memory
use hallpass.Approvals.Sqlite.{
  Row, Table, sign, rows_of, approvers, approvals, approved, approval_of,
}

-- A row stands under its own key.
abbrev pub Keyed : String × String → Row → Type 0
Keyed k r = (r.artifact, r.approver) ≡ k

-- The sign-offs of an artifact, as the in-memory ledger would hold them.
unfoldable pub signed : String → Table → Dict String Approval
signed artifact [] = []
signed artifact ((k, r) ∷ t) =
    let rest = signed artifact t in
    if k.0 == artifact then (k.1, approval_of artifact r) ∷ rest else rest

-- Each artifact has the same sign-offs in both.
abbrev pub SameSigned : Ledger → Table → Type 0
SameSigned l t = ((artifact : String) → here artifact l ≡ signed artifact t) × Each Keyed t

signed-put :
    (artifact a b : String) (r : Row) (t : Table)
    → signed artifact (Dict.put t (a, b) r) ≡ (
        if a == artifact
        then Dict.put (signed artifact t) b (approval_of artifact r)
        else signed artifact t)
unfolding signed Dict.put
signed-put artifact a b r [] = ground arith
signed-put artifact a b r (((i, j), s) ∷ t) = ground (
  arith,
  signed-put artifact a b r t,
  eq_iff i a,
  eq_iff i artifact,
  eq_iff a artifact,
  eq_iff j b,
)

values-signed :
    (artifact : String) (t : Table)
    → Each Keyed t
    → values (signed artifact t) ≡ map (approval_of artifact) (rows_of artifact t)
unfolding signed rows_of filter
values-signed artifact [] k = refl
values-signed artifact ((j, r) ∷ t) k =
    ground (arith, values-signed artifact t k.1, ap (λ (i : String × String). i.0) k.0)

keys-signed :
    (artifact : String) (t : Table)
    → Each Keyed t
    → keys (signed artifact t) ≡ map (λ (r : Row). r.approver) (rows_of artifact t)
unfolding signed rows_of filter
keys-signed artifact [] k = refl
keys-signed artifact ((j, r) ∷ t) k = ground (
  arith,
  keys-signed artifact t k.1,
  ap (λ (i : String × String). i.0) k.0,
  ap (λ (i : String × String). i.1) k.0,
)

length-values : (d : Dict String Approval) → length (values d) ≡ length d
length-values [] = refl
length-values ((k, v) ∷ d) = ground (arith, length-values d)

-- The calls on a ledger.
pub data Call : Type 0 where
  record_call : String → String → String → String → ℕ → Call
  approvers_call : String → Call
  approvals_call : String → Call
  approved_call : String → ℕ → Call

pub data Reply : Type 0 where
  recorded : Option Approval → Reply
  names : List String → Reply
  listed : List Approval → Reply
  answered : Bool → Reply

abbrev pub on_memory : Call → Ledger → Reply × Ledger
on_memory (record_call artifact approver author note now) l =
    let r = Memory.sign artifact approver author note now l in (recorded r.0, r.1)
on_memory (approvers_call artifact) l = (names (Memory.approvers artifact l), l)
on_memory (approvals_call artifact) l = (listed (Memory.approvals artifact l), l)
on_memory (approved_call artifact n) l = (answered (Memory.approved artifact n l), l)

abbrev pub on_sqlite : Call → Table → Reply × Table
on_sqlite (record_call artifact approver author note now) t =
    let r = sign artifact approver author note now t in (recorded r.0, r.1)
on_sqlite (approvers_call artifact) t = (names (approvers artifact t), t)
on_sqlite (approvals_call artifact) t = (listed (approvals artifact t), t)
on_sqlite (approved_call artifact n) t = (answered (approved artifact n t), t)

here-put :
    (artifact a : String) (d : Dict String Approval) (l : Ledger)
    → here artifact (Dict.put l a d) ≡ (if a == artifact then d else here artifact l)
unfolding here
here-put artifact a d l = ground (arith, get-put l a artifact d)

sign-SameSigned :
    (artifact approver author note : String) (now : ℕ) (l : Ledger) (t : Table)
    → SameSigned l t
    → ((sign artifact approver author note now t).0
        ≡ (Memory.sign artifact approver author note now l).0)
      × SameSigned
          (Memory.sign artifact approver author note now l).1
          (sign artifact approver author note now t).1
unfolding sign Memory.sign
sign-SameSigned artifact approver author note now l t (same, k) =
    elim (Bool-cases (approver == author)) [
      | inl self ↦ rw self (refl, (same, k))
      | inr other ↦ rw other (refl, (after, Each-put Keyed t (artifact, approver) row refl k))
    ]
  where
    row : Row
    row = record { artifact = artifact; approver = approver; approved_at = now; note = note }

    signed_here : Dict String Approval
    signed_here = Dict.put (here artifact l) approver (approval_of artifact row)

    after :
        (a : String)
        → here a (Dict.put l artifact signed_here) ≡ signed a (Dict.put t (artifact, approver) row)
    after a = here-put a artifact signed_here l ∙ elim (Bool-cases (artifact == a)) [
      | inl hit ↦ rw hit (
          ap (λ d. Dict.put d approver (approval_of artifact row)) (same artifact)
          ∙ ap (λ x. Dict.put (signed x t) approver (approval_of x row)) (==→≡ artifact a hit)
          ∙ sym (signed-put a artifact approver row t ∙ (rw hit refl)))
      | inr miss ↦ rw miss (same a ∙ sym (signed-put a artifact approver row t ∙ (rw miss refl)))
    ]

sqlite-Related : Related Any SameSigned on_memory on_sqlite
unfolding approvers Memory.approvers approvals Memory.approvals approved Memory.approved
sqlite-Related (record_call artifact approver author note now) l t p s =
    let (a, b) = sign-SameSigned artifact approver author note now l t s in (ap recorded a, b)
sqlite-Related (approvers_call artifact) l t p (same, k) = (
  ap names (
      ap (sort str_leb) (sym (keys-signed artifact t k))
      ∙ ap (λ d. sort str_leb (keys d)) (sym (same artifact))),
  (same, k),
)
sqlite-Related (approvals_call artifact) l t p (same, k) =
    let le = λ (a b : Approval). str_leb a.approver b.approver in
    (
      ap listed (
          sym (sort-map (approval_of artifact) le (rows_of artifact t))
          ∙ ap (sort le) (sym (values-signed artifact t k))
          ∙ ap (λ d. sort le (values d)) (sym (same artifact))),
      (same, k),
    )
sqlite-Related (approved_call artifact n) l t p (same, k) = (
  ap (λ m. answered (leb n m))
      (sym (length-map (approval_of artifact) (rows_of artifact t))
        ∙ ap length (sym (values-signed artifact t k))
        ∙ length-values (signed artifact t)
        ∙ ap length (sym (same artifact))),
  (same, k),
)

-- On any history of calls from a new ledger, the SQLite ledger gives the answers of the in-memory
-- one, call by call.
pub sqlite_approvals :
    (calls : List Call) → (run_all on_sqlite calls []).0 ≡ (run_all on_memory calls []).0
sqlite_approvals calls =
    run_all-Related Any SameSigned on_memory on_sqlite sqlite-Related calls [] [] (every_call calls)
      (empty, tt)
  where
    empty : (artifact : String) → here artifact [] ≡ signed artifact []
    empty artifact = unfold here Dict.get signed in refl
