-- ===== src/Rest/Handler/Renewal.antt =====
-- What a run of the handler of src/hallpass/rest.py does where no refresher is wired: the request
-- that it makes and the credential that it carries.
pub mod Stale
use hallpass.Prelude.{
  String, ℕ, ◌≡◌, refl, ◌∙◌, ap, ◌⊎◌, inl, inr, true, false, Option, none, some, string_eq, ◌==◌,
}
use hallpass.Prelude.Dict.{Dict}
use hallpass.Vault.{Fernet, Vault, Fetched, secret, absent, vault_error}
use hallpass.Connectors.{
  Script, done, fail, credential, store_credential, call, UserContext, read_credential,
  write_credential, run, Outcome, returned, raised,
}
use hallpass.Rest.{ConnectorError, Response, body, failed, raised_other, HttpRequest}
use hallpass.Rest.Auth.{local_error}
use hallpass.Rest.Service.{Endpoint, RestService}
use hallpass.Rest.Handler.{
  Values, formatted, missing_key, malformed_path, then_run, Task, Failure, connector_error,
  client_raised, broken_format, unreadable_credential, Prepared, prepare, raise_error, after_answer,
  send, PathResult, with_path, Built, built, not_built, crashed_format, is_stale, request_for,
  limited, attempt, with_renewed, renew, serve, with_credential, handler,
}

module _ {C : Type 0} (f : Fernet C) (ctx : UserContext) where
  module _ {Request Reply W Err : Type 0} (env : Request → W → Reply × W) where
    -- A run of one script after another.
    pub run-then_run :
        {A B : Type 0} (h : Script Request Reply A Err) (k : A → Script Request Reply B Err) (a : A)
        (v v' : Vault C) (w w' : W)
        → run f ctx env h v w ≡ (returned a, v', w')
        → run f ctx env (then_run h k) v w ≡ run f ctx env (k a) v' w'
    unfolding run then_run
    run-then_run (done b) k a v v' w w' e = cc
    run-then_run (fail x) k a v v' w w' e = cc
    run-then_run (credential h) k a v v' w w' e =
        run-then_run (h (read_credential f ctx v)) k a v v' w w' e
    run-then_run (store_credential plain h) k a v v' w w' e =
        run-then_run h k a (write_credential f ctx plain v) v' w w' e
    run-then_run (call request h) k a v v' w w' e =
        run-then_run (h (env request w).0) k a v v' (env request w).1 w' e

    pub run-then_run_raised :
        {A B : Type 0} (h : Script Request Reply A Err) (k : A → Script Request Reply B Err)
        (x : Err) (v v' : Vault C) (w w' : W)
        → run f ctx env h v w ≡ (raised x, v', w')
        → run f ctx env (then_run h k) v w ≡ (raised x, v', w')
    unfolding run then_run
    run-then_run_raised (done b) k x v v' w w' e = cc
    run-then_run_raised (fail y) k x v v' w w' e = cc
    run-then_run_raised (credential h) k x v v' w w' e =
        run-then_run_raised (h (read_credential f ctx v)) k x v v' w w' e
    run-then_run_raised (store_credential plain h) k x v v' w w' e =
        run-then_run_raised h k x (write_credential f ctx plain v) v' w w' e
    run-then_run_raised (call request h) k x v v' w w' e =
        run-then_run_raised (h (env request w).0) k x v v' (env request w).1 w' e

  module _ {V W : Type 0} (py : Values V) (service : RestService) (endpoint : Endpoint)
      (env : HttpRequest V → W → Response V × W) where
    -- What the answer to a request makes of the outcome, where nothing handles its error.
    abbrev pub answer : Option ℕ → Response V → Outcome V Failure
    answer limit (body b) = returned (limited py service endpoint limit b)
    answer limit (failed e) = raised (connector_error e)
    answer limit raised_other = raised client_raised

    run-attempt :
        (limit : Option ℕ) (p : Prepared V) (plain : String) (q : HttpRequest V)
        (handle : ConnectorError → Task V V) (v : Vault C) (w : W)
        → request_for py service endpoint p plain ≡ built q
        → run f ctx env (attempt py service endpoint limit p plain handle) v w
          ≡ run f ctx env (after_answer py service endpoint limit handle (env q w).0) v (env q w).1
    unfolding run attempt
    run-attempt limit p plain q handle v w e =
        ap (λ b. run f ctx env (send py service endpoint limit handle b) v w) e

    run-after_answer :
        (limit : Option ℕ) (r : Response V) (v : Vault C) (w : W)
        → run f ctx env
            (after_answer py service endpoint limit (raise_error py service endpoint) r)
            v
            w
          ≡ (answer limit r, v, w)
    unfolding run
    run-after_answer limit (body b) v w = refl
    run-after_answer limit (failed e) v w = refl
    run-after_answer limit raised_other v w = refl

    pub run-attempt_raise :
        (limit : Option ℕ) (p : Prepared V) (plain : String) (q : HttpRequest V) (v : Vault C)
        (w : W)
        → request_for py service endpoint p plain ≡ built q
        → run f ctx env
            (attempt py service endpoint limit p plain (raise_error py service endpoint))
            v
            w
          ≡ (answer limit (env q w).0, v, (env q w).1)
    run-attempt_raise limit p plain q v w e =
        run-attempt limit p plain q (raise_error py service endpoint) v w e
        ∙ run-after_answer limit (env q w).0 v (env q w).1

    -- A run that raises with nothing done, or one whose single request is the handler's own.
    abbrev pub Alone :
        Option ℕ → String → Dict String V → Vault C → W → Outcome V Failure × Vault C × W → Type 0
    Alone limit base_url args v w end =
        ((x : Failure) × (end ≡ (raised x, v, w)))
        ⊎ ((plain path : String) × (q : HttpRequest V) × (read_credential f ctx v ≡ secret plain)
            × (py.format_path endpoint.path args ≡ formatted path)
            × (request_for py service endpoint (prepare py service endpoint base_url path args)
                  plain
                ≡ built q)
            × (end ≡ (answer limit (env q w).0, v, (env q w).1)))

    run-serve-none :
        (limit : Option ℕ) (base_url plain path : String) (args : Dict String V) (v : Vault C)
        (w : W)
        → read_credential f ctx v ≡ secret plain
        → py.format_path endpoint.path args ≡ formatted path
        → Alone limit base_url args v w (
            run f ctx env
              (serve py service endpoint none ctx limit
                (prepare py service endpoint base_url path args)
                plain)
              v
              w)
    unfolding run serve attempt renew
    run-serve-none limit base_url plain path args v w r fp =
        of_built (request_for py service endpoint p plain) refl
      where
        p : Prepared V
        p = prepare py service endpoint base_url path args

        handle : ConnectorError → Task V V
        handle = renew py service endpoint none ctx limit p plain

        of_answer :
            (a : Response V) (w' : W)
            → run f ctx env (after_answer py service endpoint limit handle a) v w'
              ≡ (answer limit a, v, w')
        of_answer (body b) w' = refl
        of_answer (failed e) w' = refl
        of_answer raised_other w' = refl

        of_built :
            (x : Built V)
            → request_for py service endpoint p plain ≡ x
            → Alone limit base_url args v w
                (run f ctx env (send py service endpoint limit handle x) v w)
        of_built (not_built e) b = inl (connector_error e, refl)
        of_built crashed_format b = inl (broken_format, refl)
        of_built (built q) b = inr (plain, path, q, r, fp, b, of_answer (env q w).0 (env q w).1)

    -- Where no refresher is wired, the handler leaves the vault as it is and either raises without a
    -- request, or makes exactly one, built from the caller's own credential, and its outcome is the
    -- answer to that one.
    pub handler_one_request :
        (limit : Option ℕ) (base_url : String) (args : Dict String V) (v : Vault C) (w : W)
        → Alone limit base_url args v w
            (run f ctx env (handler py service endpoint none ctx limit base_url args) v w)
    unfolding run handler with_credential with_path
    handler_one_request limit base_url args v w = of_read (read_credential f ctx v) refl
      where
        of_path :
            (plain : String)
            → read_credential f ctx v ≡ secret plain
            → (x : PathResult) → py.format_path endpoint.path args ≡ x
            → Alone limit base_url args v w (
                run f ctx env
                  (with_path py service endpoint none ctx limit base_url args plain x)
                  v
                  w)
        of_path plain r missing_key e =
            inl (connector_error (local_error "missing path argument"), refl)
        of_path plain r malformed_path e = inl (broken_format, refl)
        of_path plain r (formatted path) e = run-serve-none limit base_url plain path args v w r e

        of_read :
            (r : Fetched)
            → read_credential f ctx v ≡ r
            → Alone limit base_url args v w (
                run f ctx env
                  (with_credential py service endpoint none ctx limit base_url args r)
                  v
                  w)
        of_read absent e = inl (connector_error (local_error "not connected for this user"), refl)
        of_read vault_error e = inl (unreadable_credential, refl)
        of_read (secret plain) e = of_path plain e (py.format_path endpoint.path args) refl
