-- ===== src/Prelude/Order.antt =====
-- Python's order on `str` (by code points), and `sorted`.
use Prim.Native.Char.{code}
use Prim.Native.Nat.{suc, compare, Ordering}
use Prim.Native.String.{String}
use text.Mathlib.TextEquality.{codes_equal}
use mathlib.Core.Path.{◌≡◌, refl, ap₂}
use mathlib.Core.Bool.{Bool, true, false, ◌&&◌, ◌||◌}
use mathlib.Core.Logic.{◌⊎◌, ◌↔◌, inl, inr}
use mathlib.Core.List.{List, [], ◌∷◌}
use native.Mathlib.Omega.{arith}
use hallpass.Prelude.Tests.{if◌then◌else◌, ltb, Bool-cases}
use hallpass.Prelude.Lists.{In, elem, length}
use hallpass.Prelude.Equality.{Eq, ◌==◌, nat_eq}

-- `s <= t`
unfoldable pub str_leb : String → String → Bool
str_leb String.[] t = true
str_leb (String.◌∷◌ c s) String.[] = false
str_leb (String.◌∷◌ c s) (String.◌∷◌ d t) =
    let rest = str_leb s t in ltb (code c) (code d) || (code c == code d && rest)

-- A total order that a sort goes by.
pub record Total {ℓ} {A : Type ℓ} (le : A → A → Bool) : Type ℓ where
  pub total : (a b : A) → le a b ≡ false → le b a ≡ true
  pub trans : (a b c : A) → le a b ≡ true → le b c ≡ true → le a c ≡ true

str_leb_total : (s t : String) → str_leb s t ≡ false → str_leb t s ≡ true
unfolding str_leb
str_leb_total String.[] t h = cc
str_leb_total (String.◌∷◌ c s) String.[] h = refl
str_leb_total (String.◌∷◌ c s) (String.◌∷◌ d t) h = ground (arith, str_leb_total s t)

str_leb_trans : (s t u : String) → str_leb s t ≡ true → str_leb t u ≡ true → str_leb s u ≡ true
unfolding str_leb
str_leb_trans String.[] t u h k = refl
str_leb_trans (String.◌∷◌ c s) String.[] u h k = cc
str_leb_trans (String.◌∷◌ c s) (String.◌∷◌ d t) String.[] h k = cc
str_leb_trans (String.◌∷◌ c s) (String.◌∷◌ d t) (String.◌∷◌ e u) h k =
    ground (arith, str_leb_trans s t u)

pub str_leb-Total : Total str_leb
str_leb-Total = record { total = str_leb_total; trans = str_leb_trans }

module _ {ℓ} {A : Type ℓ} (le : A → A → Bool) where
  unfoldable pub insert : A → List A → List A
  insert a [] = a ∷ []
  insert a (x ∷ xs) = let rest = insert a xs in if le a x then a ∷ x ∷ xs else x ∷ rest

  -- `sorted`, which is stable
  unfoldable pub sort : List A → List A
  sort [] = []
  sort (x ∷ xs) = insert x (sort xs)

  -- `a` is at or below every element.
  abbrev pub Below : A → List A → Type 0
  Below a [] = Unit
  Below a (x ∷ xs) = (le a x ≡ true) × Below a xs

  abbrev pub IsSorted : List A → Type 0
  IsSorted [] = Unit
  IsSorted (x ∷ xs) = Below x xs × IsSorted xs

module _ {ℓ} {A : Type ℓ} {le : A → A → Bool} (order : Total le) where
  Below-trans : (a b : A) (xs : List A) → le a b ≡ true → Below le b xs → Below le a xs
  Below-trans a b [] h k = tt
  Below-trans a b (x ∷ xs) h k = (order.trans a b x h k.0, Below-trans a b xs h k.1)

  Below-insert :
      (a b : A) (xs : List A) → le a b ≡ true → Below le a xs → Below le a (insert le b xs)
  unfolding insert
  Below-insert a b [] h k = (h, tt)
  Below-insert a b (x ∷ xs) h k = elim (Bool-cases (le b x)) [
    | inl p ↦ rw p (h, k)
    | inr p ↦ rw p (k.0, Below-insert a b xs h k.1)
  ]

  insert-IsSorted : (a : A) (xs : List A) → IsSorted le xs → IsSorted le (insert le a xs)
  unfolding insert
  insert-IsSorted a [] h = (tt, tt)
  insert-IsSorted a (x ∷ xs) h = elim (Bool-cases (le a x)) [
    | inl p ↦ rw p ((p, Below-trans a x xs p h.0), h)
    | inr p ↦ rw p (Below-insert x a xs (order.total a x p) h.0, insert-IsSorted a xs h.1)
  ]

  pub sort-IsSorted : (xs : List A) → IsSorted le (sort le xs)
  unfolding sort
  sort-IsSorted [] = tt
  sort-IsSorted (x ∷ xs) = insert-IsSorted x (sort le xs) (sort-IsSorted xs)

module _ {ℓ} {A : Type ℓ} (le : A → A → Bool) where
  length-insert : (a : A) (xs : List A) → length (insert le a xs) ≡ suc (length xs)
  unfolding insert
  length-insert a [] = refl
  length-insert a (x ∷ xs) = ground (arith, length-insert a xs)

  pub length-sort : (xs : List A) → length (sort le xs) ≡ length xs
  unfolding sort
  length-sort [] = refl
  length-sort (x ∷ xs) = omega (arith, length-sort xs, length-insert x (sort le xs))

module _ {ℓ} {A : Type ℓ} ⦃e : Eq A⦄ (le : A → A → Bool) where
  pub elem-insert : (a b : A) (xs : List A) → elem b (insert le a xs) ≡ (a == b || elem b xs)
  unfolding insert elem
  elem-insert a b [] = refl
  elem-insert a b (x ∷ xs) = ground (arith, elem-insert a b xs)

  pub elem-sort : (b : A) (xs : List A) → elem b (sort le xs) ≡ elem b xs
  unfolding sort elem
  elem-sort b [] = refl
  elem-sort b (x ∷ xs) = ground (arith, elem-insert x b (sort le xs), elem-sort b xs)

module _ {A : Type 0} (le : A → A → Bool) where
  In-insert : (a b : A) (xs : List A) → In b (insert le a xs) ↔ ((a ≡ b) ⊎ In b xs)
  unfolding insert
  In-insert a b [] = (λ h. h, λ h. h)
  In-insert a b (x ∷ xs) = elim (Bool-cases (le a x)) [
    | inl p ↦ rw p (λ h. h, λ h. h)
    | inr p ↦ rw p (In-insert_step a b x xs (In-insert a b xs))
  ]
    where
      In-insert_step :
          (a b x : A) (xs : List A)
          → In b (insert le a xs) ↔ ((a ≡ b) ⊎ In b xs)
          → In b (x ∷ insert le a xs) ↔ ((a ≡ b) ⊎ In b (x ∷ xs))
      In-insert_step a b x xs ih = (
        elim [
          | inl q ↦ inr (inl q)
          | inr m ↦ elim (ih.0 m) [ inl q ↦ inl q | inr m ↦ inr (inr m) ]
        ],
        elim [
          | inl q ↦ inr (ih.1 (inl q))
          | inr m ↦ elim m [ inl q ↦ inl q | inr m ↦ inr (ih.1 (inr m)) ]
        ],
      )

  pub In-sort : (b : A) (xs : List A) → In b (sort le xs) ↔ In b xs
  unfolding sort
  In-sort b [] = (λ h. h, λ h. h)
  In-sort b (x ∷ xs) =
      let ih = In-sort b xs in
      let step = In-insert x b (sort le xs) in
      (
        λ h. elim (step.0 h) [ inl q ↦ inl q | inr m ↦ inr (ih.0 m) ],
        λ h. step.1 (elim h [ inl q ↦ inl q | inr m ↦ inr (ih.1 m) ]),
      )

-- Two texts that are each at or below the other are the same.
pub str_leb_antisym : (s t : String) → str_leb s t ≡ true → str_leb t s ≡ true → s ≡ t
unfolding str_leb
str_leb_antisym String.[] String.[] h k = refl
str_leb_antisym String.[] (String.◌∷◌ d t) h k = cc
str_leb_antisym (String.◌∷◌ c s) String.[] h k = cc
str_leb_antisym (String.◌∷◌ c s) (String.◌∷◌ d t) h k =
    let same : compare (code c) (code d) ≡ Ordering.eq = ground arith in
    ap₂ String.◌∷◌ (codes_equal c d same) (str_leb_antisym s t (ground arith) (ground arith))
