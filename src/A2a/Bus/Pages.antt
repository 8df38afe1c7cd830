-- ===== src/A2a/Bus/Pages.antt =====
-- The loop of `catch_up` in src/hallpass/a2a.py delivers every page, whatever their size.
use mathlib.Core.Path.{subst}
use hallpass.Prelude.{
  String, ℕ, zero, suc, ◌+◌, ◌-◌, ◌≤◌, ◌<◌, ◌≡◌, refl, sym, ◌∙◌, ap, List, [], ◌∷◌, ◌++◌, Option,
  some, length, take, drop, arith,
}
use hallpass.A2a.Store.{Stored, A2aStore, log_of, last_seq}
use hallpass.A2a.Store.Log.{Numbered, IsNumbered, read_after-drop, last_seq-Numbered}
use hallpass.A2a.Bus.{before, pages}

module _ {ℓ} {A : Type ℓ} where
  drop-nil : (n : ℕ) → drop {A = A} n [] ≡ []
  drop-nil zero = refl
  drop-nil (suc n) = refl

  pub drop-drop : (k n at : ℕ) (xs : List A) → at ≡ k + n → drop at xs ≡ drop n (drop k xs)
  drop-drop zero n at xs e = ap (λ j. drop j xs) (omega arith)
  drop-drop (suc k) n zero xs e = ground arith
  drop-drop (suc k) n (suc at) [] e = sym (drop-nil n)
  drop-drop (suc k) n (suc at) (x ∷ xs) e = drop-drop k n at xs (omega arith)

  -- A page and what follows it.
  take-drop-length : (n : ℕ) (xs : List A) → take n xs ++ drop (length (take n xs)) xs ≡ xs
  take-drop-length zero xs = refl
  take-drop-length (suc n) [] = refl
  take-drop-length (suc n) (x ∷ xs) = ap (λ r. x ∷ r) (take-drop-length n xs)

Numbered-drop :
    (k from at : ℕ) (log : List Stored)
    → Numbered from log
    → at ≡ from + k
    → Numbered at (drop k log)
Numbered-drop zero from at log n e = subst (λ j. Numbered j log) (omega arith) n
Numbered-drop (suc k) from at [] n e = tt
Numbered-drop (suc k) from at (m ∷ log) n e = Numbered-drop k (suc from) at log n.1 (omega arith)

Numbered-take : (k from : ℕ) (log : List Stored) → Numbered from log → Numbered from (take k log)
Numbered-take zero from log n = tt
Numbered-take (suc k) from [] n = tt
Numbered-take (suc k) from (m ∷ log) n = (n.0, Numbered-take k (suc from) log n.1)

-- Where the loop stands after a page.
last_seq-read_after :
    (channel : String) (size position : ℕ) (s : A2aStore)
    → IsNumbered s
    → last_seq position (take size (drop position (log_of channel s)))
      ≡ position + length (take size (drop position (log_of channel s)))
last_seq-read_after channel size position s v =
    last_seq-Numbered position (take size (drop position (log_of channel s))) (
      Numbered-take size position (drop position (log_of channel s))
        (Numbered-drop position 0 position (log_of channel s) (v.log channel) (omega arith)))

pub length-drop : (n : ℕ) (xs : List Stored) → length (drop n xs) ≡ length xs - n
length-drop zero xs = omega arith
length-drop (suc n) [] = omega arith
length-drop (suc n) (x ∷ xs) = omega (arith, length-drop n xs)

length-take-suc : (n : ℕ) (xs : List Stored) → 1 ≤ length xs → 1 ≤ length (take (suc n) xs)
length-take-suc n [] h = omega arith
length-take-suc n (x ∷ xs) h = omega arith

-- One turn of the loop over the messages `rest`, when the further turns read what the page leaves.
turn :
    (size : ℕ) (rest : List Stored) (further : Option (List Stored))
    → (1 ≤ length rest → further ≡ some (drop (length (take (suc size) rest)) rest))
    → before (take (suc size) rest) further ≡ some rest
unfolding before
turn size [] further f = refl
turn size (m ∷ rest) further f =
    rw (f (omega arith)) (ap (λ r. some (m ∷ r)) (take-drop-length size rest))

-- The loop reads every message after `position` in order, in pages of any positive size, when it
-- may take one step more than there are messages left.
pub pages-drop :
    (fuel : ℕ) (channel : String) (size position : ℕ) (s : A2aStore)
    → IsNumbered s
    → 1 ≤ size
    → length (drop position (log_of channel s)) < fuel
    → pages fuel channel size position s ≡ some (drop position (log_of channel s))
unfolding pages
pages-drop zero channel size position s v w f = ground arith
pages-drop (suc fuel) channel zero position s v w f = ground arith
pages-drop (suc fuel) channel (suc size) position s v w f =
    let log = log_of channel s in
    let page = take (suc size) (drop position log) in
    rw
      (
        read_after-drop channel position (suc size) s v,
        last_seq-read_after channel (suc size) position s v,
      )
      (turn size (drop position log) (pages fuel channel (suc size) (position + length page) s)
        (λ some_left.
          pages-drop fuel channel (suc size) (position + length page) s v w (
            omega (
              arith,
              length-drop position log,
              length-drop (position + length page) log,
              length-take-suc size (drop position log) some_left,
            ))
          ∙ ap some (drop-drop position (length page) (position + length page) log refl)))
