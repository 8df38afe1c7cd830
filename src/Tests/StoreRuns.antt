-- ===== src/Tests/StoreRuns.antt =====
-- Runs of src/hallpass/vault.py, idempotency.py, audit.py and revocation.py.
use hallpass.Prelude.{
  String, ℕ, ◌≡◌, refl, true, [], ◌∷◌, none, some, string_eq, pair_eq, triple_eq,
}
use hallpass.Vault.{Vault, secret, absent, store, fetch, delete}
use hallpass.Vault.Laws.{fetch-store, fetch-delete}
use hallpass.Idempotency.{MemoryStore}
use hallpass.Audit.{AuditEvent, text}
use hallpass.Identity.Revocation.{RevocationTable, is_revoked, revoke, is_revoked-revoke}
use hallpass.Identity.Jwks.{HttpJwks, Document, get_warm}
use hallpass.Identity.Jwks as Jwks
use hallpass.Tests.Fixtures.{plain}

abbrev kept : Vault (ℕ × String)
kept = record { entries = []; entropy = 0 }

fetch-store_example : fetch plain "ann" "notes" (store plain "ann" "notes" "pw" kept) ≡ secret "pw"
fetch-store_example = fetch-store plain (λ n s. refl) "ann" "ann" "notes" "notes" "pw" kept

fetch-delete_example :
    fetch plain "ann" "notes" (delete "ann" "notes" (store plain "ann" "notes" "pw" kept)).1
    ≡ absent
fetch-delete_example =
    fetch-delete plain (λ n s. refl) "ann" "ann" "notes" "notes"
      (store plain "ann" "notes" "pw" kept)

abbrev results : MemoryStore String
results = record { ttl = 10; entries = [] }

abbrev seen : String → AuditEvent
seen who = record {
  subject = who;
  action = "call_tool";
  decision = "allow";
  tool = none;
  reason = text "";
  at = 0;
  duration = none;
}

abbrev table : RevocationTable
table = record { revoked_by = ("bob", "left") ∷ [] }

is_revoked-revoke_example : is_revoked "ann" (revoke "ann" "lost key" table) ≡ true
is_revoked-revoke_example = is_revoked-revoke "ann" "ann" table "lost key"

abbrev warm : HttpJwks String
warm = record (Jwks.init 300 30) { cached = some (record { kid = some "k"; material = "m" } ∷ []) }
