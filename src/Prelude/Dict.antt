-- ===== src/Prelude/Dict.antt =====
-- A Python `dict` as an association list: an update keeps the key's place, a new key goes last.
use Prim.Native.Nat.{ℕ, zero, suc, ◌≤◌}
use mathlib.Core.Path.{◌≡◌, refl, sym, ap, subst, subst₂}
use mathlib.Core.Logic.{inl, inr}
use mathlib.Core.Bool.{Bool, false}
use mathlib.Core.Option.{Option, none, some}
use mathlib.Core.List.{List, [], ◌∷◌, map}
use native.Mathlib.Omega.{arith}
use hallpass.Prelude.Tests.{if◌then◌else◌, is_some, Bool-cases}
use hallpass.Prelude.Lists.{In, elem, drop, length}
use hallpass.Prelude.Equality.{Eq, ◌==◌, ==-refl, ==→≡}

abbrev pub Dict {ℓ κ} : Type ℓ → Type κ → Type (ℓ ⊔ κ)
Dict K V = List (K × V)

module _ {ℓ κ} {K : Type ℓ} {V : Type κ} where
  abbrev pub keys : Dict K V → List K
  keys = map (λ e. e.0)

  abbrev pub values : Dict K V → List V
  values = map (λ e. e.1)

module _ {ℓ κ} {K : Type ℓ} {V : Type κ} ⦃e : Eq K⦄ where
  unfoldable pub get : Dict K V → K → Option V
  get [] k = none
  get ((j, v) ∷ d) k = if j == k then some v else get d k

  -- `k in d`
  abbrev pub has : Dict K V → K → Bool
  has d k = is_some (get d k)

  -- `d[k] = v`
  unfoldable pub put : Dict K V → K → V → Dict K V
  put [] k v = (k, v) ∷ []
  put ((j, w) ∷ d) k v = let rest = put d k v in if j == k then (j, v) ∷ d else (j, w) ∷ rest

  -- `d.pop(k, None)`, without its result
  unfoldable pub remove : Dict K V → K → Dict K V
  remove [] k = []
  remove ((j, w) ∷ d) k = let rest = remove d k in if j == k then rest else (j, w) ∷ rest

  pub get-put :
      (d : Dict K V) (k j : K) (v : V) → get (put d k v) j ≡ (if k == j then some v else get d j)
  unfolding get put
  get-put [] k j v = refl
  get-put ((i, w) ∷ d) k j v =
      ground (arith, get-put d k j v, e.beq_iff i k, e.beq_iff i j, e.beq_iff k j)

  pub length-put-le : (d : Dict K V) (k : K) (v : V) → length (put d k v) ≤ suc (length d)
  unfolding put
  length-put-le [] k v = omega arith
  length-put-le ((i, w) ∷ d) k v = ground (arith, length-put-le d k v)

  pub length-remove-le : (d : Dict K V) (k : K) → length (remove d k) ≤ length d
  unfolding remove
  length-remove-le [] k = omega arith
  length-remove-le ((i, w) ∷ d) k = ground (arith, length-remove-le d k)

  pub get-put_self : (d : Dict K V) (k : K) (v : V) → get (put d k v) k ≡ some v
  get-put_self d k v = simp (get-put, ==-refl)

  pub get-remove :
      (d : Dict K V) (k j : K) → get (remove d k) j ≡ (if k == j then none else get d j)
  unfolding get remove
  get-remove [] k j = ground arith
  get-remove ((i, w) ∷ d) k j =
      ground (arith, get-remove d k j, e.beq_iff i k, e.beq_iff i j, e.beq_iff k j)

  pub get-remove_self : (d : Dict K V) (k : K) → get (remove d k) k ≡ none
  get-remove_self d k = simp (get-remove, ==-refl)

  -- Every key stands once.
  abbrev pub IsDict : Dict K V → Type κ
  IsDict [] = Unit {κ}
  IsDict ((k, v) ∷ d) = (get d k ≡ none) × IsDict d

  pub put-IsDict : (d : Dict K V) (k : K) (v : V) → IsDict d → IsDict (put d k v)
  unfolding get put
  put-IsDict [] k v h = (refl, tt)
  put-IsDict ((i, w) ∷ d) k v h = elim (Bool-cases (i == k)) [
    | inl p ↦ rw p h
    | inr p ↦ rw p (put-fresh d k i v p h.0, put-IsDict d k v h.1)
  ]
    where
      put-fresh :
          (d : Dict K V) (k i : K) (v : V)
          → (i == k) ≡ false
          → get d i ≡ none
          → get (put d k v) i ≡ none
      put-fresh d k i v p h = ground (arith, get-put d k i v, e.beq_iff k i, e.beq_iff i k)

  pub remove-IsDict : (d : Dict K V) (k : K) → IsDict d → IsDict (remove d k)
  unfolding get remove
  remove-IsDict [] k h = tt
  remove-IsDict ((i, w) ∷ d) k h = elim (Bool-cases (i == k)) [
    | inl p ↦ rw p (remove-IsDict d k h.1)
    | inr p ↦ rw p (remove-fresh d k i h.0, remove-IsDict d k h.1)
  ]
    where
      remove-fresh : (d : Dict K V) (k i : K) → get d i ≡ none → get (remove d k) i ≡ none
      remove-fresh d k i h = ground (arith, get-remove d k i)

  pub elem-keys : (d : Dict K V) (k : K) → elem k (keys d) ≡ has d k
  unfolding get elem
  elem-keys [] k = refl
  elem-keys ((i, w) ∷ d) k = ground (arith, elem-keys d k)

-- Every entry is in the relation.
abbrev pub Each {ℓ κ μ} : {K : Type ℓ} {V : Type κ} → (K → V → Type μ) → Dict K V → Type μ
Each P [] = Unit {μ}
Each P ((k, v) ∷ d) = P k v × Each P d

module _ {ℓ κ μ} {K : Type ℓ} {V : Type κ} ⦃e : Eq K⦄ (P : K → V → Type μ) where
  pub Each-put : (d : Dict K V) (k : K) (v : V) → P k v → Each P d → Each P (put d k v)
  unfolding put
  Each-put [] k v p h = (p, tt)
  Each-put ((i, w) ∷ d) k v p h = elim (Bool-cases (i == k)) [
    | inl q ↦ rw q (subst (λ j. P j v) (sym (==→≡ i k q)) p, h.1)
    | inr q ↦ rw q (h.0, Each-put d k v p h.1)
  ]

  pub Each-get : (d : Dict K V) (k : K) (v : V) → Each P d → get d k ≡ some v → P k v
  unfolding get
  Each-get [] k v h g = cc
  Each-get ((i, w) ∷ d) k v h g = elim (Bool-cases (i == k)) [
    | inl q ↦ subst₂ P (==→≡ i k q) (ground arith) h.0
    | inr q ↦ Each-get d k v h.1 (rw q at g)
  ]

  pub Each-drop : (n : ℕ) (d : Dict K V) → Each P d → Each P (drop n d)
  Each-drop zero d h = h
  Each-drop (suc n) [] h = tt
  Each-drop (suc n) ((i, w) ∷ d) h = Each-drop n d h.1

  pub Each-remove : (d : Dict K V) (k : K) → Each P d → Each P (remove d k)
  unfolding remove
  Each-remove [] k h = tt
  Each-remove ((i, w) ∷ d) k h = elim (Bool-cases (i == k)) [
    | inl q ↦ rw q (Each-remove d k h.1)
    | inr q ↦ rw q (h.0, Each-remove d k h.1)
  ]

module _ {K V : Type 0} ⦃e : Eq K⦄ where
  -- Entries and look-ups.
  pub In-of_get : (d : Dict K V) (k : K) (v : V) → get d k ≡ some v → In (k, v) d
  unfolding get
  In-of_get [] k v h = cc
  In-of_get ((i, w) ∷ d) k v h = elim (Bool-cases (i == k)) [
    | inl p ↦ inl (ground (arith, e.beq_iff i k))
    | inr p ↦ inr (In-of_get d k v (rw p at h))
  ]

  pub get_of_In : (d : Dict K V) (k : K) (v : V) → IsDict d → In (k, v) d → get d k ≡ some v
  unfolding get
  get_of_In [] k v h m = absurd m
  get_of_In ((i, w) ∷ d) k v h (inl q) = ground (arith, e.beq_iff i k)
  get_of_In ((i, w) ∷ d) k v h (inr m) = ground (arith, e.beq_iff i k, get_of_In d k v h.1 m, h.0)

  -- A value stands among the values exactly when some key has it.
  pub In-values : (d : Dict K V) (v : V) → In v (values d) → (k : K) × In (k, v) d
  In-values [] v h = absurd h
  In-values ((i, w) ∷ d) v (inl q) = (i, inl (rw q))
  In-values ((i, w) ∷ d) v (inr m) = let (k, h) = In-values d v m in (k, inr h)

  pub In-values_of : (d : Dict K V) (k : K) (v : V) → In (k, v) d → In v (values d)
  In-values_of [] k v h = absurd h
  In-values_of ((i, w) ∷ d) k v (inl q) = inl (ap (λ (e : K × V). e.1) q)
  In-values_of ((i, w) ∷ d) k v (inr m) = inr (In-values_of d k v m)

  pub get_of_In-values :
      (d : Dict K V) (v : V) → IsDict d → In v (values d) → (k : K) × (get d k ≡ some v)
  get_of_In-values d v h m = let (k, i) = In-values d v m in (k, get_of_In d k v h i)

  pub In-values_of_get : (d : Dict K V) (k : K) (v : V) → get d k ≡ some v → In v (values d)
  In-values_of_get d k v h = In-values_of d k v (In-of_get d k v h)

pub ruleset dict_laws = (get-put, get-remove)
