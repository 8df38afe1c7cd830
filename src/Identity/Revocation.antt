-- ===== src/Identity/Revocation.antt =====
-- `InMemoryRevocationList` of src/hallpass/identity.py, and the interface that the verifier
-- consults (`RevocationList`).
use hallpass.Prelude.{
  String, ◌≡◌, Bool, true, false, if◌then◌else◌, ◌==◌, string_eq, List, ◌∙◌, arith, elem,
}
use hallpass.Prelude.Dict
use hallpass.Prelude.Dict.{Dict, keys, get-put, get-remove, elem-keys}
use hallpass.Prelude.Order.{sort, str_leb, elem-sort}

-- `RevocationList`, over the state of the list; a look-up may refresh a cache.
pub record RevocationOps (R : Type 0) : Type 0 where
  pub is_revoked : String → R → Bool × R

-- `InMemoryRevocationList`: subject to reason
pub record RevocationTable : Type 0 where
  pub revoked_by : Dict String String

unfoldable pub revoke : String → String → RevocationTable → RevocationTable
revoke subject reason r = record { revoked_by = Dict.put r.revoked_by subject reason }

unfoldable pub restore : String → RevocationTable → RevocationTable
restore subject r = record { revoked_by = Dict.remove r.revoked_by subject }

unfoldable pub is_revoked : String → RevocationTable → Bool
is_revoked subject r = Dict.has r.revoked_by subject

unfoldable pub revoked : RevocationTable → List String
revoked r = sort str_leb (keys r.revoked_by)

unfoldable pub table_ops : RevocationOps RevocationTable
unfolding is_revoked
table_ops = record { is_revoked = λ subject r. (is_revoked subject r, r) }

module _ (s t : String) (r : RevocationTable) where
  pub is_revoked-revoke :
      (reason : String)
      → is_revoked t (revoke s reason r) ≡ (if s == t then true else is_revoked t r)
  unfolding is_revoked revoke
  is_revoked-revoke reason = ground (arith, get-put r.revoked_by s t reason)

  pub is_revoked-restore : is_revoked t (restore s r) ≡ (if s == t then false else is_revoked t r)
  unfolding is_revoked restore
  is_revoked-restore = ground (arith, get-remove r.revoked_by s t)

-- The listing and the test agree.
pub elem-revoked : (t : String) (r : RevocationTable) → elem t (revoked r) ≡ is_revoked t r
unfolding revoked is_revoked
elem-revoked t r = elem-sort str_leb t (keys r.revoked_by) ∙ elem-keys r.revoked_by t
