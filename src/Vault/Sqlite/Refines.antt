-- ===== src/Vault/Sqlite/Refines.antt =====
-- The SQLite backend of src/hallpass/vault.py answers as the in-memory one does.
use hallpass.Prelude.{
  String, ℕ, ◌≡◌, refl, sym, ap, Bool, List, [], ◌∷◌, map, filter, Option, string_eq, pair_eq, ◌==◌,
  arith,
}
use hallpass.Prelude.Dict.{Dict, keys, values, Each, Each-put, Each-remove}
use hallpass.Prelude.Order.{sort, str_leb}
use hallpass.Prelude.Views.{
  map_values, get-map_values, has-map_values, put-map_values, remove-map_values,
}
use hallpass.Prelude.Simulation.{run_all, Any, every_call, Simulates, run_all-Simulates}
use hallpass.Vault.{backend_put, backend_get, backend_delete, backend_services}
use hallpass.Vault.Sqlite.{Row, Table, put, get, delete, services}

module _ (C : Type 0) where
  abbrev pub cipher : Row C → C
  cipher r = r.ciphertext

  abbrev pub seen : Table C → Dict (String × String) C
  seen = map_values cipher

  -- A row stands under its own key.
  abbrev pub Keyed : String × String → Row C → Type 0
  Keyed k r = (r.subject, r.service) ≡ k

  get-seen :
      (subject service : String) (t : Table C)
      → get subject service t ≡ backend_get subject service (seen t)
  unfolding get backend_get
  get-seen subject service t = ground (arith, get-map_values cipher t (subject, service))

  services-rows :
      (subject : String) (t : Table C)
      → Each Keyed t
      → map (λ (r : Row C). r.service) (filter (λ r. r.subject == subject) (values t))
        ≡ map (λ (k : String × String). k.1) (filter (λ k. k.0 == subject) (keys (seen t)))
  unfolding filter
  services-rows subject [] k = refl
  services-rows subject ((j, r) ∷ t) k = ground (
    arith,
    services-rows subject t k.1,
    ap (λ (i : String × String). i.0) k.0,
    ap (λ (i : String × String). i.1) k.0,
  )

  -- The calls on a backend; the ciphertext is that of `CredentialVault.store`, with its time.
  pub data Call : Type 0 where
    put_call : String → String → C → ℕ → Call
    get_call : String → String → Call
    delete_call : String → String → Call
    services_call : String → Call

  pub data Reply : Type 0 where
    stored : Reply
    got : Option C → Reply
    deleted : Bool → Reply
    listed : List String → Reply

  abbrev pub on_memory : Call → Dict (String × String) C → Reply × Dict (String × String) C
  on_memory (put_call subject service ciphertext at) d =
      (stored, backend_put subject service ciphertext d)
  on_memory (get_call subject service) d = (got (backend_get subject service d), d)
  on_memory (delete_call subject service) d =
      let r = backend_delete subject service d in (deleted r.0, r.1)
  on_memory (services_call subject) d = (listed (backend_services subject d), d)

  abbrev pub on_sqlite : Call → Table C → Reply × Table C
  on_sqlite (put_call subject service ciphertext at) t =
      (stored, put subject service ciphertext at t)
  on_sqlite (get_call subject service) t = (got (get subject service t), t)
  on_sqlite (delete_call subject service) t = let r = delete subject service t in (deleted r.0, r.1)
  on_sqlite (services_call subject) t = (listed (services subject t), t)

  sqlite-Simulates : Simulates Any (Each Keyed) seen on_memory on_sqlite
  unfolding put backend_put delete backend_delete services backend_services
  sqlite-Simulates (put_call subject service ciphertext at) t w k =
      let row : Row C = record {
        subject = subject;
        service = service;
        ciphertext = ciphertext;
        updated_at = at;
      } in
      (
        refl,
        put-map_values cipher t (subject, service) row,
        Each-put Keyed t (subject, service) row refl k,
      )
  sqlite-Simulates (get_call subject service) t w k = (ap got (get-seen subject service t), refl, k)
  sqlite-Simulates (delete_call subject service) t w k = (
    ap deleted (sym (has-map_values cipher t (subject, service))),
    remove-map_values cipher t (subject, service),
    Each-remove Keyed t (subject, service) k,
  )
  sqlite-Simulates (services_call subject) t w k =
      (ap (λ ss. listed (sort str_leb ss)) (services-rows subject t k), refl, k)

  -- On any history of calls from an empty vault, the SQLite backend gives the answers of the
  -- in-memory one, call by call.
  pub sqlite_vault :
      (calls : List Call) → (run_all on_sqlite calls []).0 ≡ (run_all on_memory calls []).0
  sqlite_vault calls =
      (run_all-Simulates Any (Each Keyed) seen on_memory on_sqlite sqlite-Simulates calls []
        (every_call calls) tt).0
