-- ===== src/Tests/Fixtures.antt =====
-- A small deployment: one connector with one tool, two principals, a limiter and a result store.
use hallpass.Prelude.{
  String, ℕ, refl, true, false, List, [], ◌∷◌, none, some, ◌==◌, string_eq, if◌then◌else◌, pair_eq,
  triple_eq,
}
use hallpass.Prelude.Dict
use hallpass.Identity.{Principal}
use hallpass.Identity.Verifier.{Result, ok, raise, rejected, token_rejected}
use hallpass.Gating.{ToolSpec}
use hallpass.RateLimit.{Limiter, check}
use hallpass.Idempotency.{MemoryStore, memory_ops}
use hallpass.Vault.{Fernet}
use hallpass.Connectors.{done, store_credential, call, Connector}
use hallpass.Core.Types.{Types, Handler, Wiring, App, Times}
use hallpass.Core.Registry.{add_connector}
use hallpass.Core.Registry.Valid.{IsValid, add_connector-IsValid}

abbrev pub demo : Types
demo = record {
  V = ℕ;
  L = Limiter;
  S = MemoryStore String;
  C = ℕ × String;
  W = List String;
  Args = String;
  Request = String;
  Reply = String;
  Out = String;
  Err = String;
}

abbrev pub ann : Principal
ann = record { subject = "ann"; scopes = "notes:write" ∷ []; claims = []; kind = "user" }

abbrev pub bob : Principal
bob = record { subject = "bob"; scopes = []; claims = []; kind = "user" }

abbrev pub plain : Fernet (ℕ × String)
plain = record { encrypt = λ n s. (n, s); decrypt = λ c. some c.1 }

abbrev pub sign_in : String → ℕ → ℕ → ℕ → Result Principal × ℕ
sign_in token now later n =
    (if token == "ann's" then ok ann else raise (rejected token_rejected), n)

abbrev pub demo_wiring : Wiring demo
demo_wiring = record {
  verifier = record { verify = sign_in };
  limiter = some (record { check = check });
  idempotency = some memory_ops;
  has_audit = true;
  ranker = λ query tools. tools;
  fernet = plain;
  env = λ request log. ("done", request ∷ log);
}

-- The tool keeps its argument as the caller's credential, and calls its service.
abbrev pub write_note : ToolSpec (Handler demo)
write_note = record {
  name = "write_note";
  description = "write a note";
  required_scopes = "notes:write" ∷ [];
  handler = λ args. store_credential args (call "write" (λ r. done r));
  connector = "";
  input_schema = none;
  annotations = record { read_only = false; destructive = false; idempotent = false };
}

abbrev pub notes : Connector (Handler demo)
notes = record { service = "notes"; available = none; tools = write_note ∷ [] }

abbrev pub bare : App demo
bare = record {
  verifier_state = 0;
  limiter_state = record { max_calls = 5; window = 60; hits = [] };
  store_state = record { ttl = 100; entries = [] };
  gate = record { tools = [] };
  service_of = [];
  unavailable = [];
  vault = record { entries = (("bob", "notes"), (0, "b")) ∷ []; entropy = 1 };
  audit = [];
  world = [];
}

pub bare-IsValid : IsValid bare
unfolding Dict.get
bare-IsValid = record {
  gate = record { distinct = tt; named = λ k spec h. cc };
  served = λ name. refl;
}

abbrev pub ready : App demo
ready = (add_connector notes bare).1

pub ready-IsValid : IsValid ready
ready-IsValid = add_connector-IsValid notes bare bare-IsValid

abbrev pub noon : Times
noon = record {
  verify_now = 10;
  verify_later = 10;
  limit = 11;
  lookup = 12;
  started = 13;
  finished = 14;
  remembered = 15;
  recorded = 16;
}

abbrev pub after_noon : Times
after_noon = record {
  verify_now = 20;
  verify_later = 20;
  limit = 21;
  lookup = 22;
  started = 23;
  finished = 24;
  remembered = 25;
  recorded = 26;
}
