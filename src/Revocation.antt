-- ===== src/Revocation.antt =====
-- src/hallpass/revocation.py: a shared source of revocations, and the view of it that a replica
-- keeps.
pub mod Sqlite
pub mod Cached
use hallpass.Prelude.{String, ℕ, ◌≡◌, ◌==◌, Bool, true, false, if◌then◌else◌, List, string_eq, elem}

-- `RevocationStore`; the number of `revoke` is the time of the call.
pub record SourceOps (S : Type 0) : Type 0 where
  pub revoke : String → String → ℕ → S → S
  pub restore : String → S → S
  pub is_revoked : String → S → Bool
  pub revoked : S → List String

-- What a source promises: the list and the test agree, and a write changes its own subject only.
pub record SourceLaws {S : Type 0} (ops : SourceOps S) : Type 0 where
  pub listed : (t : String) (src : S) → elem t (ops.revoked src) ≡ ops.is_revoked t src
  pub revokes :
      (s t reason : String) (at : ℕ) (src : S)
      → ops.is_revoked t (ops.revoke s reason at src)
        ≡ (if s == t then true else ops.is_revoked t src)
  pub restores :
      (s t : String) (src : S)
      → ops.is_revoked t (ops.restore s src) ≡ (if s == t then false else ops.is_revoked t src)
