-- ===== src/Prelude/Lists.antt =====
-- Lists measured, filtered and searched by Boolean tests and native numbers.
use Prim.Native.Nat.{ℕ, zero, suc, ◌+◌, ◌≤◌}
use mathlib.Core.Path.{◌≡◌, refl}
use mathlib.Core.Logic.{◌⊎◌, inl, inr}
use mathlib.Core.Bool.{Bool, true, false, ◌&&◌, ◌||◌}
use mathlib.Core.List.{List, [], ◌∷◌, ◌++◌}
use native.Mathlib.Omega.{arith}
use hallpass.Prelude.Tests.{if◌then◌else◌, Bool-cases}
use hallpass.Prelude.Equality.{Eq, ◌==◌}

module _ {ℓ} {A : Type ℓ} where
  abbrev pub length : List A → ℕ
  length [] = 0
  length (x ∷ xs) = suc (length xs)

  unfoldable pub filter : (A → Bool) → List A → List A
  filter p [] = []
  filter p (x ∷ xs) = let rest = filter p xs in if p x then x ∷ rest else rest

  unfoldable pub all : (A → Bool) → List A → Bool
  all p [] = true
  all p (x ∷ xs) = p x && all p xs

  unfoldable pub any : (A → Bool) → List A → Bool
  any p [] = false
  any p (x ∷ xs) = p x || any p xs

  abbrev pub take : ℕ → List A → List A
  take zero xs = []
  take (suc n) [] = []
  take (suc n) (x ∷ xs) = x ∷ take n xs

  abbrev pub drop : ℕ → List A → List A
  drop zero xs = xs
  drop (suc n) [] = []
  drop (suc n) (x ∷ xs) = drop n xs

  pub length-append : (xs ys : List A) → length (xs ++ ys) ≡ length xs + length ys
  length-append [] ys = omega arith
  length-append (x ∷ xs) ys = omega (arith, length-append xs ys)

  pub length-filter-le : (p : A → Bool) (xs : List A) → length (filter p xs) ≤ length xs
  unfolding filter
  length-filter-le p [] = omega arith
  length-filter-le p (x ∷ xs) = ground (arith, length-filter-le p xs)

  pub length-take-le : (n : ℕ) (xs : List A) → length (take n xs) ≤ n
  length-take-le zero xs = omega arith
  length-take-le (suc n) [] = omega arith
  length-take-le (suc n) (x ∷ xs) = omega (arith, length-take-le n xs)

module _ {ℓ} {A : Type ℓ} ⦃e : Eq A⦄ where
  unfoldable pub elem : A → List A → Bool
  elem a [] = false
  elem a (x ∷ xs) = x == a || elem a xs

  pub elem-append : (a : A) (xs ys : List A) → elem a (xs ++ ys) ≡ (elem a xs || elem a ys)
  unfolding elem
  elem-append a [] ys = refl
  elem-append a (x ∷ xs) ys = ground (arith, elem-append a xs ys)

  pub elem-filter : (p : A → Bool) (a : A) (xs : List A) → elem a (filter p xs) ≡ (p a && elem a xs)
  unfolding elem filter
  elem-filter p a [] = ground arith
  elem-filter p a (x ∷ xs) = ground (arith, elem-filter p a xs, e.beq_iff x a)

module _ {A : Type 0} where
  -- `x` stands in the list.
  abbrev pub In : A → List A → Type 0
  In x [] = ⊥
  In x (y ∷ ys) = (y ≡ x) ⊎ In x ys

  -- What a filter keeps, both directions.
  pub In-filter : (p : A → Bool) (a : A) (xs : List A) → In a (filter p xs) → In a xs × (p a ≡ true)
  unfolding filter
  In-filter p a (x ∷ xs) h = elim (Bool-cases (p x)) [
    | inl e ↦ In-filter_head p a x xs e (In-filter p a xs) (rw e at h)
    | inr e ↦ let r = In-filter p a xs (rw e at h) in (inr r.0, r.1)
  ]
    where
      In-filter_head :
          (p : A → Bool) (a x : A) (xs : List A)
          → p x ≡ true
          → (In a (filter p xs) → In a xs × (p a ≡ true))
          → In a (x ∷ filter p xs)
          → In a (x ∷ xs) × (p a ≡ true)
      In-filter_head p a x xs e ih (inl q) = (inl q, cc)
      In-filter_head p a x xs e ih (inr m) = let r = ih m in (inr r.0, r.1)
  In-filter p a [] h = absurd h

  pub In-filter_of :
      (p : A → Bool) (a : A) (xs : List A) → In a xs → p a ≡ true → In a (filter p xs)
  unfolding filter
  In-filter_of p a (x ∷ xs) (inl q) e = let e' : p x ≡ true = rw q e in rw e' (inl q)
  In-filter_of p a (x ∷ xs) (inr m) e =
      let ih = In-filter_of p a xs m e in
      elim (Bool-cases (p x)) [ inl e' ↦ rw e' (inr ih) | inr e' ↦ rw e' ih ]
  In-filter_of p a [] h e = absurd h

module _ {A : Type 0} ⦃e : Eq A⦄ where
  pub elem→In : (a : A) (xs : List A) → elem a xs ≡ true → In a xs
  unfolding elem
  elem→In a [] h = cc
  elem→In a (x ∷ xs) h = elim (Bool-cases (x == a)) [
    | inl q ↦ inl ((e.beq_iff x a).0 q)
    | inr q ↦ inr (elem→In a xs (rw q at h))
  ]

  pub In→elem : (a : A) (xs : List A) → In a xs → elem a xs ≡ true
  unfolding elem
  In→elem a [] h = absurd h
  In→elem a (x ∷ xs) (inl q) = rw ((e.beq_iff x a).1 q)
  In→elem a (x ∷ xs) (inr m) = ground (arith, In→elem a xs m)
