-- ===== src/Idempotency/Laws.antt =====
-- What the in-memory store of src/hallpass/idempotency.py answers.
use hallpass.Prelude.{
  ℕ, ◌+◌, ◌≤◌, ◌≡◌, ◌==◌, false, if◌then◌else◌, ltb, Option, none, some, arith, string_eq,
  triple_eq, triple_beq_iff,
}
use hallpass.Prelude.Dict
use hallpass.Prelude.Dict.{Dict, get-put, get-remove}
use hallpass.Idempotency.{CallKey, MemoryStore, StoreLaws, get, put, memory_ops}

module _ {Out : Type 0} where
  -- What the store holds under `k` at `now`.
  abbrev pub held : MemoryStore Out → CallKey → ℕ → Option Out
  held s k now = elim (Dict.get s.entries k) [
    | none ↦ none
    | some entry ↦ if ltb (entry.stored_at + s.ttl) now then none else some entry.result
  ]

  pub get-held : (k : CallKey) (now : ℕ) (s : MemoryStore Out) → (get k now s).0 ≡ held s k now
  unfolding get
  get-held k now s = ground arith

  -- A look-up changes nothing that a later look-up can see: what it deletes has expired.
  pub held-get :
      (j k : CallKey) (now later : ℕ) (s : MemoryStore Out)
      → now ≤ later
      → held (get j now s).1 k later ≡ held s k later
  unfolding get
  held-get j k now later s h = ground (arith, get-remove s.entries j k, triple_beq_iff j k)

  -- A stored result is found until its time to live is over, under its own key, and a result under
  -- any other key (another subject's, another tool's) is what it was.
  pub held-put :
      (j k : CallKey) (result : Out) (now later : ℕ) (s : MemoryStore Out)
      → held (put j result now s) k later ≡ (
          if j == k
          then (if ltb (now + s.ttl) later then none else some result)
          else held s k later)
  unfolding put
  held-put j k result now later s = ground (
    arith,
    get-put s.entries j k (record { result = result; stored_at = now }),
    triple_beq_iff j k,
  )

  pub held_put_self :
      (k : CallKey) (out : Out) (now later : ℕ) (s : MemoryStore Out)
      → later ≤ now + s.ttl
      → held (put k out now s) k later ≡ some out
  held_put_self k out now later s h =
      ground (arith, held-put k k out now later s, triple_beq_iff k k)

  pub held_put_other :
      (j k : CallKey) (out : Out) (now later : ℕ) (s : MemoryStore Out)
      → (j == k) ≡ false
      → held (put j out now s) k later ≡ held s k later
  held_put_other j k out now later s h = ground (arith, held-put j k out now later s)

  pub ttl_get : (k : CallKey) (now : ℕ) (s : MemoryStore Out) → (get k now s).1.ttl ≡ s.ttl
  unfolding get
  ttl_get k now s = ground arith

  -- The in-memory store keeps the promises of a store.
  unfoldable pub memory_laws : StoreLaws (memory_ops {Out = Out})
  unfolding memory_ops
  memory_laws = record {
    held = held;
    ttl = λ s. s.ttl;
    get_held = get-held;
    held_get = held-get;
    ttl_get = ttl_get;
    held_put = held_put_self;
    held_put_other = held_put_other;
  }
