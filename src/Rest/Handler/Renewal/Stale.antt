-- ===== src/Rest/Handler/Renewal/Stale.antt =====
-- What a run of the handler of src/hallpass/rest.py does where a refresher is wired.
use hallpass.Prelude.{
  String, ℕ, ◌≡◌, refl, sym, ap, ◌⊎◌, inl, inr, Bool, true, false, Option, some, string_eq, ◌==◌,
  Bool-cases, arith,
}
use mathlib.Core.Path.{subst}
use hallpass.Prelude.Dict.{Dict}
use hallpass.Vault.{Fernet, Vault, Fetched, secret, absent, vault_error}
use hallpass.Connectors.{credential, UserContext, read_credential, run, Outcome, returned, raised}
use hallpass.Rest.{ConnectorError, Response, body, failed, raised_other, HttpRequest}
use hallpass.Rest.Auth.{local_error}
use hallpass.Rest.Service.{Endpoint, RestService}
use hallpass.Rest.Handler.{
  Values, formatted, missing_key, malformed_path, then_run, Task, Failure, connector_error,
  broken_format, unreadable_credential, Prepared, prepare, raise_error, after_answer, send,
  PathResult, with_path, Built, built, not_built, crashed_format, is_stale, request_for, attempt,
  with_renewed, renew, serve, with_credential, handler,
}
use hallpass.Rest.Handler.Renewal.{answer, run-then_run, run-then_run_raised, run-attempt_raise}

module _ {C : Type 0} (f : Fernet C) (ctx : UserContext) {V W : Type 0} (py : Values V)
    (service : RestService) (endpoint : Endpoint) (env : HttpRequest V → W → Response V × W)
    (refresh : String → String → Task V Unit) (limit : Option ℕ) where
  abbrev End : Type 0
  End = Outcome V Failure × Vault C × W

  -- The refresher's own run, for the caller and this service.
  abbrev pub refreshed : Vault C → W → Outcome Unit Failure × Vault C × W
  refreshed v w = run f ctx env (refresh ctx.principal.subject service.service) v w

  -- The vault holds another credential than `old`, and a request can carry it.
  abbrev pub Renewed : Prepared V → String → Vault C → String → HttpRequest V → Type 0
  Renewed p old v new q =
      (read_credential f ctx v ≡ secret new)
      × ((new == old) ≡ false)
      × (request_for py service endpoint p new ≡ built q)

  -- After the refresher has returned: one more request, with the other credential, whose answer is
  -- the outcome; and where there is no such credential, an exception and no more.
  abbrev pub Second : Prepared V → String → Vault C → W → End → Type 0
  Second p old v w end =
      ((new : String) × (q : HttpRequest V) × Renewed p old v new q
        × (end ≡ (answer f ctx py service endpoint env limit (env q w).0, v, (env q w).1)))
      ⊎ (((x : Failure) × (end ≡ (raised x, v, w)))
          × ((new : String) (q : HttpRequest V) → ¬ Renewed p old v new q))

  -- After the answer to the first request: it is the outcome, unless it calls the credential stale;
  -- then the refresher runs, and its exception is the outcome, or a second request may follow.
  abbrev pub First : Prepared V → String → Vault C → Response V → W → End → Type 0
  First p old v a w end =
      (((e : ConnectorError) → a ≡ failed e → is_stale e.status ≡ false)
        × (end ≡ (answer f ctx py service endpoint env limit a, v, w)))
      ⊎ ((e : ConnectorError) × (a ≡ failed e)
          × (is_stale e.status ≡ true)
          × (((x : Failure) × ((refreshed v w).0 ≡ raised x)
                × (end ≡ (raised x, (refreshed v w).1, (refreshed v w).2)))
              ⊎ (((refreshed v w).0 ≡ returned tt)
                  × Second p old (refreshed v w).1 (refreshed v w).2 end)))

  -- The first request for a credential and a path: the answer to it and the world after it, where it
  -- can be built, and the error that keeps it from being built, with the world as it is.
  abbrev pub Asked : String → String → String → Dict String V → W → Response V → W → Type 0
  Asked base_url old path args w a w' =
      ((q : HttpRequest V) × (request_for py service endpoint
            (prepare py service endpoint base_url path args) old
          ≡ built q)
        × ((a, w') ≡ env q w))
      ⊎ ((e : ConnectorError) × (request_for py service endpoint
              (prepare py service endpoint base_url path args) old
            ≡ not_built e)
          × (a ≡ failed e)
          × (w' ≡ w))

  -- The whole run: an exception with nothing done, or a first request with the caller's credential.
  abbrev pub Served : String → Dict String V → Vault C → W → End → Type 0
  Served base_url args v w end =
      ((x : Failure) × (end ≡ (raised x, v, w)))
      ⊎ ((old path : String) × (a : Response V) × (w' : W) × (read_credential f ctx v ≡ secret old)
          × (py.format_path endpoint.path args ≡ formatted path)
          × Asked base_url old path args w a w'
          × First (prepare py service endpoint base_url path args) old v a w' end)

  renewed-Second :
      (p : Prepared V) (old : String) (e : ConnectorError) (r : Fetched) (v : Vault C) (w : W)
      → read_credential f ctx v ≡ r
      → Second p old v w (run f ctx env (with_renewed py service endpoint limit p old e r) v w)
  unfolding run with_renewed attempt
  renewed-Second p old e absent v w h =
      inr ((connector_error e, refl), λ new q k. ground (arith, k.0))
  renewed-Second p old e vault_error v w h =
      inr ((unreadable_credential, refl), λ new q k. ground (arith, k.0))
  renewed-Second p old e (secret new) v w h = elim (Bool-cases (new == old)) [
    | inl same ↦ inr ((connector_error e, rw same refl), λ new' q k. ground (arith, h, k.0, k.1))
    | inr other ↦ rw other (of_built other (request_for py service endpoint p new) refl)
  ]
    where
      of_built :
          (new == old) ≡ false
          → (x : Built V) → request_for py service endpoint p new ≡ x
          → Second p old v w (
              run f ctx env
                (attempt py service endpoint limit p new (raise_error py service endpoint))
                v
                w)
      of_built other (built q) b = inl (
        new,
        q,
        (h, other, b),
        run-attempt_raise f ctx py service endpoint env limit p new q v w b,
      )
      of_built other (not_built x) b = inr (
        (connector_error x, rw b refl),
        λ new' q k.
            let moved : new ≡ new' = ground (arith, h, k.0) in
            ground (arith, k.2, b, ap (request_for py service endpoint p) moved),
      )
      of_built other crashed_format b = inr (
        (broken_format, rw b refl),
        λ new' q k.
            let moved : new ≡ new' = ground (arith, h, k.0) in
            ground (arith, k.2, b, ap (request_for py service endpoint p) moved),
      )

  -- What the handler of the exception makes of a stale credential.
  renew-First :
      (p : Prepared V) (old : String) (e : ConnectorError) (v : Vault C) (w : W)
      → First p old v
          (failed e)
          w
          (run f ctx env (renew py service endpoint (some refresh) ctx limit p old e) v w)
  unfolding run renew
  renew-First p old e v w = elim (Bool-cases (is_stale e.status)) [
    | inr other ↦
        inl ((λ e' h. subst (λ (r : Response V). stale_answer r ≡ false) h other), rw other refl)
    | inl stale ↦ rw stale (inr (e, refl, stale, of_run (refreshed v w).0 refl))
  ]
    where
      stale_answer : Response V → Bool
      stale_answer (body b) = false
      stale_answer raised_other = false
      stale_answer (failed x) = is_stale x.status

      rest : Task V V
      rest =
          then_run (refresh ctx.principal.subject service.service)
            (λ _. credential (with_renewed py service endpoint limit p old e))

      of_run :
          (o : Outcome Unit Failure)
          → (refreshed v w).0 ≡ o
          → ((x : Failure) × ((refreshed v w).0 ≡ raised x)
              × (run f ctx env rest v w ≡ (raised x, (refreshed v w).1, (refreshed v w).2)))
            ⊎ (((refreshed v w).0 ≡ returned tt)
                × Second p old (refreshed v w).1 (refreshed v w).2 (run f ctx env rest v w))
      of_run (raised x) h = inl (
        x,
        h,
        run-then_run_raised f ctx env (refresh ctx.principal.subject service.service)
            (λ _. credential (with_renewed py service endpoint limit p old e)) x v (refreshed v w).1
            w (refreshed v w).2 (ap (λ o. (o, (refreshed v w).1, (refreshed v w).2)) h),
      )
      of_run (returned tt) h = inr (
        h,
        subst (Second p old (refreshed v w).1 (refreshed v w).2)
            (sym (
              run-then_run f ctx env (refresh ctx.principal.subject service.service)
                (λ _. credential (with_renewed py service endpoint limit p old e)) tt v
                (refreshed v w).1 w (refreshed v w).2
                (ap (λ o. (o, (refreshed v w).1, (refreshed v w).2)) h)))
            (renewed-Second p old e (read_credential f ctx (refreshed v w).1) (refreshed v w).1
              (refreshed v w).2 refl),
      )

  answer-First :
      (p : Prepared V) (old : String) (a : Response V) (v : Vault C) (w : W)
      → First p old v a w (
          run f ctx env
            (after_answer py service endpoint limit
              (renew py service endpoint (some refresh) ctx limit p old)
              a)
            v
            w)
  unfolding run
  answer-First p old (body b) v w = inl ((λ e h. cc), refl)
  answer-First p old raised_other v w = inl ((λ e h. cc), refl)
  answer-First p old (failed e) v w = renew-First p old e v w

  serve-Served :
      (base_url old path : String) (args : Dict String V) (v : Vault C) (w : W)
      → read_credential f ctx v ≡ secret old
      → py.format_path endpoint.path args ≡ formatted path
      → Served base_url args v w (
          run f ctx env
            (serve py service endpoint
              (some refresh)
              ctx
              limit
              (prepare py service endpoint base_url path args)
              old)
            v
            w)
  unfolding run serve attempt
  serve-Served base_url old path args v w r fp =
      of_built (request_for py service endpoint p old) refl
    where
      p : Prepared V
      p = prepare py service endpoint base_url path args

      of_built :
          (x : Built V)
          → request_for py service endpoint p old ≡ x
          → Served base_url args v w (
              run f ctx env
                (send py service endpoint limit
                  (renew py service endpoint (some refresh) ctx limit p old)
                  x)
                v
                w)
      of_built (not_built e) b =
          inr (old, path, failed e, w, r, fp, inr (e, b, refl, refl), renew-First p old e v w)
      of_built crashed_format b = inl (broken_format, refl)
      of_built (built q) b = inr (
        old,
        path,
        (env q w).0,
        (env q w).1,
        r,
        fp,
        inl (q, b, refl),
        answer-First p old (env q w).0 v (env q w).1,
      )

  -- Whatever the refresher and the services do, a run of the handler is one of these. It raises with
  -- nothing done. Or it makes one request, built from the caller's own credential, and its outcome is
  -- the answer to that one, if the answer is no error that calls the credential stale; an error that
  -- keeps the request from being built counts as its answer. Or it is such an error, the refresher
  -- runs once, for the caller and this service, and then: what the refresher raises is the outcome;
  -- or the vault holds another credential, a second request is built from that one, and its answer
  -- is the outcome; or there is no such credential or request, and the run raises with nothing more
  -- done.
  pub handler-Served :
      (base_url : String) (args : Dict String V) (v : Vault C) (w : W)
      → Served base_url args v w
          (run f ctx env (handler py service endpoint (some refresh) ctx limit base_url args) v w)
  unfolding run handler with_credential with_path
  handler-Served base_url args v w = of_read (read_credential f ctx v) refl
    where
      of_path :
          (old : String)
          → read_credential f ctx v ≡ secret old
          → (x : PathResult) → py.format_path endpoint.path args ≡ x
          → Served base_url args v w (
              run f ctx env
                (with_path py service endpoint (some refresh) ctx limit base_url args old x)
                v
                w)
      of_path old r missing_key e =
          inl (connector_error (local_error "missing path argument"), refl)
      of_path old r malformed_path e = inl (broken_format, refl)
      of_path old r (formatted path) e = serve-Served base_url old path args v w r e

      of_read :
          (r : Fetched)
          → read_credential f ctx v ≡ r
          → Served base_url args v w (
              run f ctx env
                (with_credential py service endpoint (some refresh) ctx limit base_url args r)
                v
                w)
      of_read absent e = inl (connector_error (local_error "not connected for this user"), refl)
      of_read vault_error e = inl (unreadable_credential, refl)
      of_read (secret old) e = of_path old e (py.format_path endpoint.path args) refl
