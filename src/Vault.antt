-- ===== src/Vault.antt =====
-- src/hallpass/vault.py: the credentials, encrypted, by (subject, service), over the in-memory
-- backend. Fernet is a parameter.
pub mod Laws
pub mod Sqlite
use hallpass.Prelude.{
  String, ℕ, suc, ◌≡◌, Bool, false, List, Option, none, some, string_eq, pair_eq, is_some, filter,
  map, ◌==◌, [],
}
use hallpass.Prelude.Dict
use hallpass.Prelude.Dict.{Dict, keys}
use hallpass.Prelude.Order.{sort, str_leb}

-- `Fernet` under one key, over the type of the ciphertexts. The number is the randomness that one
-- encryption draws; `none` stands for `InvalidToken`.
pub record Fernet (C : Type 0) : Type 0 where
  pub encrypt : ℕ → String → C
  pub decrypt : C → Option String

-- What is documented of Fernet: a key decrypts what it has encrypted.
abbrev pub Decrypts : {C : Type 0} → Fernet C → Type 0
Decrypts f = (n : ℕ) (secret : String) → f.decrypt (f.encrypt n secret) ≡ some secret

-- `CredentialVault` over an `InMemoryVaultBackend`; `entropy` counts the encryptions.
pub record Vault (C : Type 0) : Type 0 where
  pub entries : Dict (String × String) C
  pub entropy : ℕ

-- What `fetch` returns or raises.
pub data Fetched : Type 0 where
  secret : String → Fetched
  absent vault_error : Fetched

-- `InMemoryVaultBackend.durable`, which `CredentialVault.durable` passes on
abbrev pub durable : {C : Type 0} → Vault C → Bool
durable v = false

module _ {C : Type 0} where
  -- `InMemoryVaultBackend.put`, `get`, `delete`, `services`
  unfoldable pub backend_put :
      String → String → C → Dict (String × String) C → Dict (String × String) C
  backend_put subject service ciphertext d = Dict.put d (subject, service) ciphertext

  unfoldable pub backend_get : String → String → Dict (String × String) C → Option C
  backend_get subject service d = Dict.get d (subject, service)

  unfoldable pub backend_delete :
      String → String → Dict (String × String) C → Bool × Dict (String × String) C
  backend_delete subject service d =
      (Dict.has d (subject, service), Dict.remove d (subject, service))

  unfoldable pub backend_services : String → Dict (String × String) C → List String
  backend_services subject d = sort str_leb (map (λ k. k.1) (filter (λ k. k.0 == subject) (keys d)))

  -- `delete`
  unfoldable pub delete : String → String → Vault C → Bool × Vault C
  unfolding backend_delete
  delete subject service v =
      let (existed, entries) = backend_delete subject service v.entries in
      (existed, record v { entries = entries })

  -- `services`
  unfoldable pub services : String → Vault C → List String
  unfolding backend_services
  services subject v = backend_services subject v.entries

  module _ (f : Fernet C) where
    -- `store`
    unfoldable pub store : String → String → String → Vault C → Vault C
    unfolding backend_put
    store subject service plain v = record {
      entries = backend_put subject service (f.encrypt v.entropy plain) v.entries;
      entropy = suc v.entropy;
    }

    -- `fetch`
    unfoldable pub fetch : String → String → Vault C → Fetched
    unfolding backend_get
    fetch subject service v = elim (backend_get subject service v.entries) [
      | none ↦ absent
      | some ciphertext ↦ elim (f.decrypt ciphertext) [
        | none ↦ vault_error
        | some plain ↦ secret plain
      ]
    ]
