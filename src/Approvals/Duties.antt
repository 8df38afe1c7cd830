-- ===== src/Approvals/Duties.antt =====
-- Whoever a scope set of src/hallpass/approvals.py lets approve its own work is in a conflict.
use Prim.Native.Char.{Char, code}
use Prim.Native.Nat.{compare, Ordering}
use package.text.Mathlib.TextEquality.{codes_equal}
use mathlib.Core.Path.{ap₂}
use hallpass.Prelude.{
  String, ◌≡◌, refl, sym, ◌∙◌, ap, false, ◌&&◌, List, [], ◌∷◌, ◌++◌, elem, elem-filter, none, some,
  string_eq, nat_eq, ◌==◌, arith, Bool-cases, Option-cases, inl, inr, ==-refl, eq_iff,
}
use hallpass.Prelude.Text.{chars, text, concat, chars-text, text-chars}
use hallpass.Approvals.{after_prefix, stripped, separation_of_duties}

-- A prefix is followed by what was put behind it, and by nothing else.
after_prefix-append : (ps cs : List Char) → after_prefix ps (ps ++ cs) ≡ some cs
unfolding after_prefix
after_prefix-append [] cs = refl
after_prefix-append (p ∷ ps) cs = rw (==-refl (code p)) (after_prefix-append ps cs)

after_prefix-some : (ps cs rest : List Char) → after_prefix ps cs ≡ some rest → cs ≡ ps ++ rest
unfolding after_prefix
after_prefix-some [] cs rest h = ground arith
after_prefix-some (p ∷ ps) [] rest h = cc
after_prefix-some (p ∷ ps) (c ∷ cs) rest h = elim (Bool-cases (code p == code c)) [
  | inr differ ↦ absurd (ground arith)
  | inl same ↦
      let equal : compare (code c) (code p) ≡ Ordering.eq = ground arith in
      ap₂ ◌∷◌ (codes_equal c p equal) (after_prefix-some ps cs rest (ground arith))
]

prefixed_iff :
    (prefix x a : String) (rest : List Char)
    → after_prefix (chars prefix) (chars x) ≡ some rest
    → (text rest == a) ≡ (x == concat prefix a)
prefixed_iff prefix x a rest h =
    let there : text rest ≡ a → x ≡ concat prefix a = λ e.
      sym (text-chars x)
      ∙ ap text (after_prefix-some (chars prefix) (chars x) rest h)
      ∙ ap (λ cs. text (chars prefix ++ cs)) (sym (chars-text rest) ∙ ap chars e) in
    let back : x ≡ concat prefix a → text rest ≡ a = λ e.
      let whole : chars x ≡ chars prefix ++ chars a =
        ap chars e ∙ chars-text (chars prefix ++ chars a) in
      let found : some rest ≡ some (chars a) =
        sym h
        ∙ ap (after_prefix (chars prefix)) whole
        ∙ after_prefix-append (chars prefix) (chars a) in
      let same : rest ≡ chars a = ground arith in ap text same ∙ text-chars a in
    elim (Bool-cases (text rest == a)) [
      | inl e ↦ e ∙ sym ((eq_iff x (concat prefix a)).1 (there ((eq_iff (text rest) a).0 e)))
      | inr n ↦ elim (Bool-cases (x == concat prefix a)) [
        | inl e ↦ (eq_iff (text rest) a).1 (back ((eq_iff x (concat prefix a)).0 e)) ∙ sym e
        | inr m ↦ n ∙ sym m
      ]
    ]

not_prefixed :
    (prefix x a : String)
    → after_prefix (chars prefix) (chars x) ≡ none
    → (x == concat prefix a) ≡ false
not_prefixed prefix x a h = elim (Bool-cases (x == concat prefix a)) [
  | inr m ↦ m
  | inl e ↦
      let whole : chars x ≡ chars prefix ++ chars a =
        ap chars ((eq_iff x (concat prefix a)).0 e) ∙ chars-text (chars prefix ++ chars a) in
      let found : none ≡ some (chars a) =
        sym h
        ∙ ap (after_prefix (chars prefix)) whole
        ∙ after_prefix-append (chars prefix) (chars a) in
      cc
]

elem-stripped :
    (prefix a : String) (xs : List String) → elem a (stripped prefix xs) ≡ elem (concat prefix a) xs
unfolding stripped elem
elem-stripped prefix a [] = refl
elem-stripped prefix a (x ∷ xs) = elim (Option-cases (after_prefix (chars prefix) (chars x))) [
  | inl e ↦ rw (e, stripped, not_prefixed prefix x a e) (elem-stripped prefix a xs)
  | inr (rest, e) ↦ rw (e, stripped, prefixed_iff prefix x a rest e, elem-stripped prefix a xs) refl
]

-- A scope set is in conflict over an artifact exactly when it holds both the scope to author it and
-- the scope to approve it, whatever the two prefixes are.
pub elem-separation_of_duties :
    (author_prefix approve_prefix a : String) (scopes : List String)
    → elem a (separation_of_duties author_prefix approve_prefix scopes)
      ≡ (elem (concat approve_prefix a) scopes && elem (concat author_prefix a) scopes)
unfolding separation_of_duties
elem-separation_of_duties author_prefix approve_prefix a scopes =
    elem-filter (λ x. elem x (stripped approve_prefix scopes)) a (stripped author_prefix scopes)
    ∙ ap₂ ◌&&◌ (elem-stripped approve_prefix a scopes) (elem-stripped author_prefix a scopes)
