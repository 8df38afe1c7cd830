-- ===== src/Prelude/Sets.antt =====
-- A Python `set` or `frozenset` as a list, known by its members alone.
use mathlib.Core.Path.{◌≡◌, refl}
use mathlib.Core.Logic.{◌↔◌}
use mathlib.Core.Bool.{Bool, true, false, not, ◌&&◌}
use mathlib.Core.List.{List, [], ◌∷◌, ◌++◌}
use native.Mathlib.Omega.{arith}
use hallpass.Prelude.Lists.{elem, elem-filter, filter}
use hallpass.Prelude.Equality.{Eq, ==-refl}

module _ {ℓ} {A : Type ℓ} ⦃e : Eq A⦄ where
  -- `xs <= ys`
  unfoldable pub subset : List A → List A → Bool
  subset [] ys = true
  subset (x ∷ xs) ys = elem x ys && subset xs ys

  -- `xs - ys`
  unfoldable pub difference : List A → List A → List A
  difference xs ys = filter (λ x. not (elem x ys)) xs

  -- `xs | ys`
  abbrev pub union : List A → List A → List A
  union xs ys = xs ++ ys

  -- `xs == ys`
  unfoldable pub same_set : List A → List A → Bool
  same_set xs ys = subset xs ys && subset ys xs

  -- `xs` is truthy
  abbrev pub nonempty : List A → Bool
  nonempty [] = false
  nonempty (_ ∷ _) = true

  abbrev pub Subset : List A → List A → Type ℓ
  Subset xs ys = (a : A) → elem a xs ≡ true → elem a ys ≡ true

  subset→Subset : (xs ys : List A) → subset xs ys ≡ true → Subset xs ys
  unfolding subset elem
  subset→Subset [] ys h a m = cc
  subset→Subset (x ∷ xs) ys h a m =
      ground (arith, e.beq_iff x a, subset→Subset xs ys (ground arith) a)

  Subset→subset : (xs ys : List A) → Subset xs ys → subset xs ys ≡ true
  unfolding subset elem
  Subset→subset [] ys h = refl
  Subset→subset (x ∷ xs) ys h =
      let here : elem x ys ≡ true = h x (rw (==-refl x)) in
      let rest : subset xs ys ≡ true = Subset→subset xs ys (λ a m. h a (ground arith)) in
      rw (here, rest)

  pub subset_iff : (xs ys : List A) → (subset xs ys ≡ true) ↔ Subset xs ys
  subset_iff xs ys = (subset→Subset xs ys, Subset→subset xs ys)

  pub subset_refl : (xs : List A) → subset xs xs ≡ true
  subset_refl xs = Subset→subset xs xs (λ a m. m)

  pub subset_trans :
      (xs ys zs : List A) → subset xs ys ≡ true → subset ys zs ≡ true → subset xs zs ≡ true
  subset_trans xs ys zs h k =
      Subset→subset xs zs (λ a m. subset→Subset ys zs k a (subset→Subset xs ys h a m))

  pub elem-difference :
      (a : A) (xs ys : List A) → elem a (difference xs ys) ≡ (not (elem a ys) && elem a xs)
  unfolding difference
  elem-difference a xs ys = elem-filter (λ x. not (elem x ys)) a xs

  -- `not (xs - ys)` is `xs <= ys`.
  pub nonempty-difference : (xs ys : List A) → nonempty (difference xs ys) ≡ not (subset xs ys)
  unfolding difference subset filter
  nonempty-difference [] ys = refl
  nonempty-difference (x ∷ xs) ys = ground (arith, nonempty-difference xs ys)

  pub difference_nil : (xs ys : List A) → subset xs ys ≡ true → difference xs ys ≡ []
  unfolding difference subset filter
  difference_nil [] ys h = refl
  difference_nil (x ∷ xs) ys h = ground (arith, difference_nil xs ys)

  pub same_set_iff : (xs ys : List A) → (same_set xs ys ≡ true) ↔ (Subset xs ys × Subset ys xs)
  unfolding same_set
  same_set_iff xs ys = (
    λ h. (subset→Subset xs ys (ground arith), subset→Subset ys xs (ground arith)),
    λ h. rw (Subset→subset xs ys h.0, Subset→subset ys xs h.1),
  )
