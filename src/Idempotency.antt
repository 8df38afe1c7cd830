-- ===== src/Idempotency.antt =====
-- src/hallpass/idempotency.py: the results that are remembered for retried calls. Times are
-- numbers, and `now - stored_at > ttl` is written `stored_at + ttl < now`.
pub mod Laws
use hallpass.Prelude.{
  String, ℕ, ◌+◌, ◌≤◌, ◌≡◌, ◌==◌, Bool, true, false, if◌then◌else◌, ltb, Option, none, some,
  string_eq, triple_eq, [],
}
use hallpass.Prelude.Dict
use hallpass.Prelude.Dict.{Dict}

-- (subject, tool, key)
abbrev pub CallKey : Type 0
CallKey = String × String × String

-- `IdempotencyStore`, over the state of the store; the number is the time of the call.
pub record StoreOps (S Out : Type 0) : Type 0 where
  pub get : CallKey → ℕ → S → Option Out × S
  pub put : CallKey → Out → ℕ → S → S

-- What a store promises, by what it holds under a key at a time: a look-up answers with that and
-- does not disturb it, a stored result is held until its time to live is over, and storing one disturbs
-- no other key.
pub record StoreLaws {S Out : Type 0} (ops : StoreOps S Out) : Type 0 where
  pub held : S → CallKey → ℕ → Option Out
  pub ttl : S → ℕ
  pub get_held : (k : CallKey) (now : ℕ) (s : S) → (ops.get k now s).0 ≡ held s k now
  pub held_get :
      (j k : CallKey) (now later : ℕ) (s : S)
      → now ≤ later
      → held (ops.get j now s).1 k later ≡ held s k later
  pub ttl_get : (k : CallKey) (now : ℕ) (s : S) → ttl (ops.get k now s).1 ≡ ttl s
  pub held_put :
      (k : CallKey) (out : Out) (now later : ℕ) (s : S)
      → later ≤ now + ttl s
      → held (ops.put k out now s) k later ≡ some out
  pub held_put_other :
      (j k : CallKey) (out : Out) (now later : ℕ) (s : S)
      → (j == k) ≡ false
      → held (ops.put j out now s) k later ≡ held s k later

-- `_Entry`
pub record Entry (Out : Type 0) : Type 0 where
  pub result : Out
  pub stored_at : ℕ

-- `InMemoryIdempotencyStore`
pub record MemoryStore (Out : Type 0) : Type 0 where
  pub ttl : ℕ
  pub entries : Dict CallKey (Entry Out)

module _ {Out : Type 0} where
  -- `get`: an entry past its time to live is deleted and missed.
  unfoldable pub get : CallKey → ℕ → MemoryStore Out → Option Out × MemoryStore Out
  get k now s = elim (Dict.get s.entries k) [
    | none ↦ (none, s)
    | some entry ↦
        if ltb (entry.stored_at + s.ttl) now
        then (none, record s { entries = Dict.remove s.entries k })
        else (some entry.result, s)
  ]

  -- `put`
  unfoldable pub put : CallKey → Out → ℕ → MemoryStore Out → MemoryStore Out
  put k result now s = record s {
    entries = Dict.put s.entries k (record { result = result; stored_at = now });
  }

  unfoldable pub memory_ops : StoreOps (MemoryStore Out) Out
  unfolding get put
  memory_ops = record { get = get; put = put }
