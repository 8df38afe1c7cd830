-- ===== src/Vault/Laws.antt =====
-- The vault of src/hallpass/vault.py, as its callers see it.
use hallpass.Prelude.{
  String, ◌≡◌, refl, ◌∙◌, ◌==◌, ◌&&◌, List, [], ◌∷◌, string_eq, pair_eq, if◌then◌else◌, arith, elem,
  map, filter,
}
use hallpass.Prelude.Dict
use hallpass.Prelude.Dict.{Dict, get-put, get-remove, keys, elem-keys}
use hallpass.Prelude.Order.{str_leb, elem-sort}
use hallpass.Vault.{Fernet, Decrypts, Vault, secret, absent, store, fetch, delete, services}

module _ {C : Type 0} (f : Fernet C) (decrypts : Decrypts f) where
  -- If Fernet decrypts what it encrypted, a stored credential is read back by its own subject and
  -- service, and by no other pair.
  pub fetch-store :
      (s t svc svc' plain : String) (v : Vault C)
      → fetch f t svc' (store f s svc plain v)
        ≡ (if s == t && svc == svc' then secret plain else fetch f t svc' v)
  unfolding fetch store
  fetch-store s t svc svc' plain v = ground (
    arith,
    get-put v.entries (s, svc) (t, svc') (f.encrypt v.entropy plain),
    decrypts v.entropy plain,
  )

  -- A deleted credential is absent, and every other one is what it was.
  pub fetch-delete :
      (s t svc svc' : String) (v : Vault C)
      → fetch f t svc' (delete s svc v).1
        ≡ (if s == t && svc == svc' then absent else fetch f t svc' v)
  unfolding fetch delete
  fetch-delete s t svc svc' v = ground (arith, get-remove v.entries (s, svc) (t, svc'))

elem-map-filter :
    (subject service : String) (ks : List (String × String))
    → elem service (map (λ (k : String × String). k.1) (filter (λ k. k.0 == subject) ks))
      ≡ elem (subject, service) ks
unfolding elem filter
elem-map-filter subject service [] = refl
elem-map-filter subject service (k ∷ ks) = ground (arith, elem-map-filter subject service ks)

-- The services that are listed for a subject are those that it has a credential for.
pub elem-services :
    {C : Type 0} (subject service : String) (v : Vault C)
    → elem service (services subject v) ≡ Dict.has v.entries (subject, service)
unfolding services
elem-services subject service v =
    elem-sort str_leb service (map (λ k. k.1) (filter (λ k. k.0 == subject) (keys v.entries)))
    ∙ elem-map-filter subject service (keys v.entries)
    ∙ elem-keys v.entries (subject, service)
