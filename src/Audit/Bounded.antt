-- ===== src/Audit/Bounded.antt =====
-- The in-memory sink of src/hallpass/audit.py keeps the most recent events.
use hallpass.Prelude.{
  ℕ, zero, suc, ◌-◌, ◌≤◌, ◌≡◌, refl, sym, ◌∙◌, ap, List, [], ◌∷◌, ◌++◌, if◌then◌else◌, ltb, length,
  length-append, drop, arith, Bool-cases, inl, inr,
}
use mathlib.Core.List.{append-nil, append_assoc}
use hallpass.Audit.{AuditEvent, MemoryLog, append}

-- The last `n` of a list.
abbrev pub last {ℓ} : {A : Type ℓ} → ℕ → List A → List A
last n xs = drop (length xs - n) xs

-- The log after these events.
unfoldable pub append_all : List AuditEvent → MemoryLog → MemoryLog
append_all [] log = log
append_all (event ∷ events) log = append_all events (append event log)

module _ {ℓ} {A : Type ℓ} where
  drop-append : (n : ℕ) (xs ys : List A) → n ≤ length xs → drop n (xs ++ ys) ≡ drop n xs ++ ys
  drop-append zero xs ys h = refl
  drop-append (suc n) [] ys h = absurd (omega arith)
  drop-append (suc n) (x ∷ xs) ys h = drop-append n xs ys (omega arith)

  drop_nil : (n : ℕ) → drop {A = A} n [] ≡ []
  drop_nil zero = refl
  drop_nil (suc n) = refl

  drop-drop_one : (n : ℕ) (xs : List A) → drop 1 (drop n xs) ≡ drop (suc n) xs
  drop-drop_one zero xs = refl
  drop-drop_one (suc n) [] = refl
  drop-drop_one (suc n) (x ∷ xs) = drop-drop_one n xs

  length-drop : (n : ℕ) (xs : List A) → length (drop n xs) ≡ length xs - n
  length-drop zero xs = omega arith
  length-drop (suc n) [] = omega arith
  length-drop (suc n) (x ∷ xs) = omega (arith, length-drop n xs)

  -- One more element, when the last `n` are kept.
  last-snoc :
      (n : ℕ) (xs : List A) (x : A)
      → (let ys = last n xs ++ x ∷ [] in if ltb n (length ys) then drop 1 ys else ys)
        ≡ last n (xs ++ x ∷ [])
  last-snoc n xs x =
      let k = length xs - n in
      let size = length-append xs (x ∷ []) in
      let kept = length-append (drop k xs) (x ∷ []) in
      let dropped = length-drop k xs in
      let moved = drop-append k xs (x ∷ []) (omega arith) in
      elim (Bool-cases (ltb n (length (last n xs ++ x ∷ [])))) [
        | inl full ↦
            let e : length (xs ++ x ∷ []) - n ≡ suc k = ground arith in
            rw (full, e) (ap (drop 1) (sym moved) ∙ drop-drop_one k (xs ++ x ∷ []))
        | inr room ↦
            let e : length (xs ++ x ∷ []) - n ≡ k = ground arith in rw (room, e) (sym moved)
      ]

append_all_from :
    (events history : List AuditEvent) (log : MemoryLog)
    → log.events ≡ last log.capacity history
    → (append_all events log).events ≡ last log.capacity (history ++ events)
unfolding append_all append
append_all_from [] history log h = h ∙ ap (last log.capacity) (sym (append-nil history))
append_all_from (event ∷ events) history log h =
    append_all_from events (history ++ event ∷ []) (append event log) (
      ap
        (λ kept.
          let ys = kept ++ event ∷ [] in if ltb log.capacity (length ys) then drop 1 ys else ys)
        h
      ∙ last-snoc log.capacity history event)
    ∙ ap (last log.capacity) (append_assoc history (event ∷ []) events)

-- After any events, an empty sink holds exactly the last `capacity` of them, in order.
pub append_all-last :
    (events : List AuditEvent) (capacity : ℕ)
    → (append_all events (record { capacity = capacity; events = [] })).events
      ≡ last capacity events
append_all-last events capacity =
    append_all_from events [] (record { capacity = capacity; events = [] })
      (sym (drop_nil (0 - capacity)))
