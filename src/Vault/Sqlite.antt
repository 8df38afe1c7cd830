-- ===== src/Vault/Sqlite.antt =====
-- `SqliteVaultBackend` of src/hallpass/vault.py: the rows of the table `credentials`, by their
-- primary key, each statement as it acts on them.
pub mod Refines
use hallpass.Prelude.{
  String, ℕ, Bool, not, List, Option, none, some, map, filter, string_eq, pair_eq, ◌==◌,
}
use hallpass.Prelude.Dict
use hallpass.Prelude.Dict.{Dict, values}
use hallpass.Prelude.Order.{sort, str_leb}

pub record Row (C : Type 0) : Type 0 where
  pub subject : String
  pub service : String
  pub ciphertext : C
  pub updated_at : ℕ

abbrev pub Table : Type 0 → Type 0
Table C = Dict (String × String) (Row C)

-- `durable`, by the path
abbrev pub durable : String → Bool
durable path = not (path == ":memory:")

module _ {C : Type 0} where
  -- `put`
  unfoldable pub put : String → String → C → ℕ → Table C → Table C
  put subject service ciphertext updated_at t =
      Dict.put t (subject, service)
        (record {
          subject = subject;
          service = service;
          ciphertext = ciphertext;
          updated_at = updated_at;
        })

  -- `get`
  unfoldable pub get : String → String → Table C → Option C
  get subject service t = elim (Dict.get t (subject, service)) [
    | none ↦ none
    | some r ↦ some r.ciphertext
  ]

  -- `delete`
  unfoldable pub delete : String → String → Table C → Bool × Table C
  delete subject service t = (Dict.has t (subject, service), Dict.remove t (subject, service))

  -- `services`
  unfoldable pub services : String → Table C → List String
  services subject t =
      sort str_leb (map (λ (r : Row C). r.service) (filter (λ r. r.subject == subject) (values t)))
