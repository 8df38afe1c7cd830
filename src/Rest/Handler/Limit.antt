-- ===== src/Rest/Handler/Limit.antt =====
-- Whatever the handler of src/hallpass/rest.py returns has been through the response limit.
use mathlib.Core.Path.{subst}
use hallpass.Prelude.{
  String, ℕ, ◌≤◌, ◌≡◌, sym, ◌∙◌, ◌-◌, ◌⊎◌, inl, inr, Option, none, some, string_eq, ◌==◌,
  Bool-cases,
}
use hallpass.Prelude.Dict.{Dict}
use hallpass.Prelude.Text.{chars}
use hallpass.Guard.{Envelope, envelope_overhead, utf8_length}
use hallpass.Guard.Preview.{guard_response_lem}
use hallpass.Vault.{Fernet, Vault, Fetched, secret, absent, vault_error}
use hallpass.Connectors.{
  Script, done, fail, credential, store_credential, call, UserContext, read_credential,
  write_credential, run, returned, raised,
}
use hallpass.Rest.{ConnectorError, Response, body, failed, raised_other, HttpRequest}
use hallpass.Rest.Service.{Endpoint, RestService}
use hallpass.Rest.Handler.{
  Values, formatted, missing_key, malformed_path, then_run, Task, connector_error, Prepared,
  prepare, raise_error, after_answer, send, PathResult, with_path, Built, built, not_built,
  crashed_format, is_stale, request_for, limited, attempt, with_renewed, renew, serve,
  with_credential, handler,
}

module _ {C : Type 0} (f : Fernet C) (ctx : UserContext) where
  module _ {Request Reply W Err : Type 0} (env : Request → W → Reply × W) where
    -- What holds of everything that the second script returns holds of what both return.
    returned-then_run :
        {A B : Type 0} (P : B → Type 0) (h : Script Request Reply A Err)
        (k : A → Script Request Reply B Err)
        → ((a : A) (v : Vault C) (w : W) (b : B) → (run f ctx env (k a) v w).0 ≡ returned b → P b)
        → (v : Vault C) (w : W) (b : B) → (run f ctx env (then_run h k) v w).0 ≡ returned b
        → P b
    unfolding run then_run
    returned-then_run P (done a) k each v w b e = each a v w b e
    returned-then_run P (fail x) k each v w b e = cc
    returned-then_run P (credential h) k each v w b e =
        returned-then_run P (h (read_credential f ctx v)) k each v w b e
    returned-then_run P (store_credential plain h) k each v w b e =
        returned-then_run P h k each (write_credential f ctx plain v) w b e
    returned-then_run P (call request h) k each v w b e =
        returned-then_run P (h (env request w).0) k each v (env request w).1 b e

  module _ {V W : Type 0} (py : Values V) (service : RestService) (endpoint : Endpoint)
      (env : HttpRequest V → W → Response V × W) where
    -- Everything that the handler returns has been through the limit, whatever its refresher does.
    abbrev Limited : Option ℕ → V → Type 0
    Limited limit b = (raw : V) × (limited py service endpoint limit raw ≡ b)

    returned-attempt :
        (limit : Option ℕ) (p : Prepared V) (plain : String) (handle : ConnectorError → Task V V)
        → ((e : ConnectorError) (v : Vault C) (w : W) (b : V)
            → (run f ctx env (handle e) v w).0 ≡ returned b
            → Limited limit b)
        → (v : Vault C) (w : W) (b : V)
        → (run f ctx env (attempt py service endpoint limit p plain handle) v w).0 ≡ returned b
        → Limited limit b
    unfolding run attempt
    returned-attempt limit p plain handle each v w b h =
        of_built (request_for py service endpoint p plain) h
      where
        of_answer :
            (r : Response V) (w' : W)
            → (run f ctx env (after_answer py service endpoint limit handle r) v w').0 ≡ returned b
            → Limited limit b
        of_answer (body raw) w' e = (raw, cc)
        of_answer (failed x) w' e = each x v w' b e
        of_answer raised_other w' e = cc

        of_built :
            (x : Built V)
            → (run f ctx env (send py service endpoint limit handle x) v w).0 ≡ returned b
            → Limited limit b
        of_built (not_built x) e = each x v w b e
        of_built crashed_format e = cc
        of_built (built q) e = of_answer (env q w).0 (env q w).1 e

    returned-with_renewed :
        (limit : Option ℕ) (p : Prepared V) (plain : String) (e : ConnectorError) (r : Fetched)
        (v : Vault C) (w : W) (b : V)
        → (run f ctx env (with_renewed py service endpoint limit p plain e r) v w).0 ≡ returned b
        → Limited limit b
    unfolding run with_renewed
    returned-with_renewed limit p plain e absent v w b h = cc
    returned-with_renewed limit p plain e vault_error v w b h = cc
    returned-with_renewed limit p plain e (secret renewed) v w b h =
        elim (Bool-cases (renewed == plain)) [
          | inl same ↦ let k : raised (connector_error e) ≡ returned b = rw same at h in cc
          | inr other ↦
              returned-attempt limit p renewed (raise_error py service endpoint) (λ x v' w' c k. cc)
                v w b (rw other at h)
        ]

    returned-renew :
        (refresher : Option (String → String → Task V Unit)) (limit : Option ℕ) (p : Prepared V)
        (plain : String) (e : ConnectorError) (v : Vault C) (w : W) (b : V)
        → (run f ctx env (renew py service endpoint refresher ctx limit p plain e) v w).0
          ≡ returned b
        → Limited limit b
    unfolding run renew
    returned-renew none limit p plain e v w b h = cc
    returned-renew (some refresh) limit p plain e v w b h = elim (Bool-cases (is_stale e.status)) [
      | inl stale ↦
          returned-then_run env (Limited limit) (refresh ctx.principal.subject service.service)
            (λ _. credential (with_renewed py service endpoint limit p plain e))
            (λ a v' w' c k.
              returned-with_renewed limit p plain e (read_credential f ctx v') v' w' c k)
            v w b (rw stale at h)
      | inr other ↦ let k : raised (connector_error e) ≡ returned b = rw other at h in cc
    ]

    returned-with_credential :
        (refresher : Option (String → String → Task V Unit)) (limit : Option ℕ) (base_url : String)
        (args : Dict String V) (r : Fetched) (v : Vault C) (w : W) (b : V)
        → (run f ctx env
            (with_credential py service endpoint refresher ctx limit base_url args r)
            v
            w).0
          ≡ returned b
        → Limited limit b
    unfolding run with_credential with_path serve
    returned-with_credential refresher limit base_url args absent v w b h = cc
    returned-with_credential refresher limit base_url args vault_error v w b h = cc
    returned-with_credential refresher limit base_url args (secret plain) v w b h =
        of_path (py.format_path endpoint.path args) h
      where
        of_path :
            (x : PathResult)
            → (run f ctx env
                (with_path py service endpoint refresher ctx limit base_url args plain x)
                v
                w).0
              ≡ returned b
            → Limited limit b
        of_path missing_key e = cc
        of_path malformed_path e = cc
        of_path (formatted path) e =
            let p = prepare py service endpoint base_url path args in
            returned-attempt limit p plain (renew py service endpoint refresher ctx limit p plain)
              (returned-renew refresher limit p plain) v w b e

    -- With a limit of `max_bytes`, whatever the services answer and whatever a refresher does, a
    -- value that the handler returns has at most `max_bytes` bytes of text, or is an envelope that
    -- states the limit and whose preview has at most `max_bytes` less 512 bytes, and none where the
    -- limit is 512 or less. Nothing is said of the size of the envelope as a whole, with its keys and
    -- with the escapes in its preview.
    pub handler_within_limit :
        (refresher : Option (String → String → Task V Unit)) (max_bytes : ℕ) (base_url : String)
        (args : Dict String V) (v : Vault C) (w : W) (b : V)
        → (run f ctx env
            (handler py service endpoint refresher ctx (some max_bytes) base_url args)
            v
            w).0
          ≡ returned b
        → (utf8_length (chars (py.serialize b)) ≤ max_bytes)
          ⊎ ((e : Envelope) × (b ≡ py.wrap e)
              × (e.max_bytes ≡ max_bytes)
              × (utf8_length (chars e.preview) ≤ max_bytes - envelope_overhead))
    unfolding run handler limited
    handler_within_limit refresher max_bytes base_url args v w b h =
        let (raw, e) =
          returned-with_credential refresher (some max_bytes) base_url args
            (read_credential f ctx v) v w b h in
        elim (guard_response_lem py.serialize py.wrap max_bytes raw) [
          | inl (small, kept) ↦
              inl
                (subst (λ x. utf8_length (chars (py.serialize x)) ≤ max_bytes) (sym kept ∙ e) small)
          | inr (large, (env', wrapped, size, stated, preview, rest)) ↦
              inr (env', sym e ∙ wrapped, stated, preview)
        ]
