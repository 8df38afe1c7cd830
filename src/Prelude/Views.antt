-- ===== src/Prelude/Views.antt =====
-- A table seen through a function of its rows: the operations of a dictionary, a filter, a minimum
-- and a sort commute with the view.
use Prim.Native.Nat.{ℕ, ◌≤◌}
use mathlib.Core.Path.{◌≡◌, refl, ap, ap₂, ◌∙◌}
use mathlib.Core.Logic.{inl, inr}
use mathlib.Core.Bool.{Bool}
use mathlib.Core.Option.{Option, none, some}
pub use mathlib.Core.Option.{map as map_option}
use mathlib.Core.List.{List, [], ◌∷◌, map}
use native.Mathlib.Omega.{arith}
use hallpass.Prelude.Tests.{if◌then◌else◌, leb, is_some, Bool-cases, Option-cases}
use hallpass.Prelude.Lists.{filter, In, length}
use hallpass.Prelude.Equality.{Eq}
use hallpass.Prelude.Dict.{Dict, get, put, remove, keys, values, Each}
use hallpass.Prelude.Order.{insert, sort}

-- The first of the elements with the least key.
unfoldable pub min_by {ℓ} : {A : Type ℓ} → (A → ℕ) → List A → Option A
min_by key [] = none
min_by key (x ∷ xs) = elim (min_by key xs) [
  | none ↦ some x
  | some y ↦ if leb (key x) (key y) then some x else some y
]

module _ {ℓ κ} {A : Type ℓ} {B : Type κ} (f : A → B) where
  pub filter-map :
      (p : B → Bool) (xs : List A) → filter p (map f xs) ≡ map f (filter (λ x. p (f x)) xs)
  unfolding filter
  filter-map p [] = refl
  filter-map p (x ∷ xs) = ground (arith, filter-map p xs)

  pub min_by-map :
      (key : B → ℕ) (xs : List A)
      → min_by key (map f xs) ≡ map_option f (min_by (λ x. key (f x)) xs)
  unfolding min_by
  min_by-map key [] = refl
  min_by-map key (x ∷ xs) = ground (arith, min_by-map key xs)

  insert-map :
      (le : B → B → Bool) (x : A) (xs : List A)
      → insert le (f x) (map f xs) ≡ map f (insert (λ a b. le (f a) (f b)) x xs)
  unfolding insert
  insert-map le x [] = refl
  insert-map le x (y ∷ ys) = ground (arith, insert-map le x ys)

  pub sort-map :
      (le : B → B → Bool) (xs : List A)
      → sort le (map f xs) ≡ map f (sort (λ a b. le (f a) (f b)) xs)
  unfolding sort
  sort-map le [] = refl
  sort-map le (x ∷ xs) =
      ap (insert le (f x)) (sort-map le xs) ∙ insert-map le x (sort (λ a b. le (f a) (f b)) xs)

pub map-map {ℓ κ μ} :
    {A : Type ℓ} {B : Type κ} {C : Type μ} (g : B → C) (f : A → B) (xs : List A)
    → map g (map f xs) ≡ map (λ x. g (f x)) xs
map-map g f [] = refl
map-map g f (x ∷ xs) = ap (λ r. g (f x) ∷ r) (map-map g f xs)

pub length-map {ℓ κ} :
    {A : Type ℓ} {B : Type κ} (f : A → B) (xs : List A) → length (map f xs) ≡ length xs
length-map f [] = refl
length-map f (x ∷ xs) = omega (arith, length-map f xs)

module _ {ℓ κ μ} {K : Type ℓ} {V : Type κ} {W : Type μ} (f : V → W) where
  -- The dictionary with each value seen through `f`.
  abbrev pub map_values : Dict K V → Dict K W
  map_values [] = []
  map_values ((k, v) ∷ d) = (k, f v) ∷ map_values d

  pub values-map_values : (d : Dict K V) → values (map_values d) ≡ map f (values d)
  values-map_values [] = refl
  values-map_values ((k, v) ∷ d) = ap (λ r. f v ∷ r) (values-map_values d)

  pub keys-map_values : (d : Dict K V) → keys (map_values d) ≡ keys d
  keys-map_values [] = refl
  keys-map_values ((k, v) ∷ d) = ap (λ r. k ∷ r) (keys-map_values d)

  module _ ⦃e : Eq K⦄ where
    pub get-map_values : (d : Dict K V) (k : K) → get (map_values d) k ≡ map_option f (get d k)
    unfolding get
    get-map_values [] k = refl
    get-map_values ((j, v) ∷ d) k = ground (arith, get-map_values d k)

    pub has-map_values : (d : Dict K V) (k : K) → is_some (get (map_values d) k) ≡ is_some (get d k)
    has-map_values d k = ground (arith, get-map_values d k)

    pub put-map_values :
        (d : Dict K V) (k : K) (v : V) → map_values (put d k v) ≡ put (map_values d) k (f v)
    unfolding put
    put-map_values [] k v = refl
    put-map_values ((j, w) ∷ d) k v = ground (arith, put-map_values d k v)

    pub remove-map_values :
        (d : Dict K V) (k : K) → map_values (remove d k) ≡ remove (map_values d) k
    unfolding remove
    remove-map_values [] k = refl
    remove-map_values ((j, w) ∷ d) k = ground (arith, remove-map_values d k)

    pub filter-map_values :
        (p : K × W → Bool) (d : Dict K V)
        → filter p (map_values d) ≡ map_values (filter (λ x. p (x.0, f x.1)) d)
    unfolding filter
    filter-map_values p [] = refl
    filter-map_values p ((j, w) ∷ d) = ground (arith, filter-map_values p d)

-- A filter by entries is one by values, where every entry says so.
pub values-filter :
    {K V : Type 0} (p : K × V → Bool) (q : V → Bool) (d : Dict K V)
    → Each (λ k v. p (k, v) ≡ q v) d
    → values (filter p d) ≡ filter q (values d)
unfolding filter
values-filter p q [] h = refl
values-filter p q ((k, v) ∷ d) h = ground (arith, h.0, values-filter p q d h.1)

-- Two functions that agree on a list's elements.
pub map-In :
    {A B : Type 0} (f g : A → B) (xs : List A)
    → ((x : A) → In x xs → f x ≡ g x)
    → map f xs ≡ map g xs
map-In f g [] h = refl
map-In f g (x ∷ xs) h = ap₂ ◌∷◌ (h x (inl refl)) (map-In f g xs (λ y m. h y (inr m)))

-- What holds of every entry implies something else of every entry.
pub Each-map :
    {K V : Type 0} (P Q : K → V → Type 0) (d : Dict K V)
    → ((k : K) (v : V) → P k v → Q k v)
    → Each P d
    → Each Q d
Each-map P Q [] f h = tt
Each-map P Q ((k, v) ∷ d) f h = (f k v h.0, Each-map P Q d f h.1)

module _ {A : Type 0} (key : A → ℕ) where
  pub min_by-In : (xs : List A) (x : A) → min_by key xs ≡ some x → In x xs
  unfolding min_by
  min_by-In [] x h = cc
  min_by-In (y ∷ ys) x h = elim (Option-cases (min_by key ys)) [
    | inl e ↦ inl (ground arith)
    | inr (z, e) ↦ elim (Bool-cases (leb (key y) (key z))) [
      | inl first ↦ inl (ground arith)
      | inr later ↦ inr (min_by-In ys x (ground arith))
    ]
  ]

  -- Whatever stands in the list, the minimum is there and its key is no greater.
  pub min_by-le :
      (xs : List A) (a : A) → In a xs → (x : A) × (min_by key xs ≡ some x) × (key x ≤ key a)
  unfolding min_by
  min_by-le [] a h = absurd h
  min_by-le (y ∷ ys) a (inl q) = elim (Option-cases (min_by key ys)) [
    | inl e ↦ (y, rw (e, min_by) refl, omega (arith, ap key q))
    | inr (z, e) ↦ elim (Bool-cases (leb (key y) (key z))) [
      | inl first ↦ (y, rw (e, min_by, first) refl, omega (arith, ap key q))
      | inr later ↦ (z, rw (e, min_by, later) refl, ground (arith, ap key q))
    ]
  ]
  min_by-le (y ∷ ys) a (inr m) =
      let (z, e, least) = min_by-le ys a m in
      elim (Bool-cases (leb (key y) (key z))) [
        | inl first ↦ (y, rw (e, min_by, first) refl, ground arith)
        | inr later ↦ (z, rw (e, min_by, later) refl, least)
      ]
