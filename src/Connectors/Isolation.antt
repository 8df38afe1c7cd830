-- ===== src/Connectors/Isolation.antt =====
-- The seam of src/hallpass/connectors.py isolates: whatever its handler does, a tool reaches one
-- credential only, that of its caller for its connector's service.
use hallpass.Prelude.{
  suc, String, ◌≡◌, refl, ◌∙◌, ◌==◌, false, string_eq, pair_eq, pair_beq_iff, arith, ap,
}
use hallpass.Prelude.Dict
use hallpass.Prelude.Dict.{Dict, get-put}
use hallpass.Vault.{Fernet, Vault, fetch, store}
use hallpass.Connectors.{
  Script, done, fail, credential, store_credential, call, UserContext, read_credential,
  write_credential, run,
}

module _ {C : Type 0} (f : Fernet C) (ctx : UserContext) where
  -- The key of the one credential of a context.
  abbrev pub own : String × String
  own = (ctx.principal.subject, ctx.service)

  module _ {Request Reply Out Err W : Type 0} (env : Request → W → Reply × W) where
    -- No run changes the stored credential of another subject or another service.
    pub run-frame :
        (h : Script Request Reply Out Err) (v : Vault C) (w : W) (k : String × String)
        → (own == k) ≡ false
        → Dict.get (run f ctx env h v w).1.entries k ≡ Dict.get v.entries k
    unfolding run
    run-frame (done a) v w k other = refl
    run-frame (fail e) v w k other = refl
    run-frame (credential h) v w k other = run-frame (h (read_credential f ctx v)) v w k other
    run-frame (store_credential plain h) v w k other =
        run-frame h (write_credential f ctx plain v) w k other
        ∙ (unfold store in get-put v.entries own k (f.encrypt v.entropy plain) ∙ (rw other))
    run-frame (call request h) v w k other =
        run-frame (h (env request w).0) v (env request w).1 k other

  -- Two vaults that a context cannot tell apart.
  pub record SameFor (u v : Vault C) : Type 0 where
    pub same : Dict.get u.entries own ≡ Dict.get v.entries own
    pub entropy : u.entropy ≡ v.entropy

  SameFor-read : (u v : Vault C) → SameFor u v → read_credential f ctx u ≡ read_credential f ctx v
  unfolding read_credential fetch
  SameFor-read u v s = ground (arith, s.same)

  SameFor-write :
      (plain : String) (u v : Vault C)
      → SameFor u v
      → SameFor (write_credential f ctx plain u) (write_credential f ctx plain v)
  unfolding write_credential store
  SameFor-write plain u v s = record {
    same = ground (
      arith,
      get-put u.entries own own (f.encrypt u.entropy plain),
      get-put v.entries own own (f.encrypt v.entropy plain),
      pair_beq_iff own own,
    );
    entropy = ap suc s.entropy;
  }

  module _ {Request Reply Out Err W : Type 0} (env : Request → W → Reply × W) where
    -- What a run answers, what it does to the world, and what it leaves in its own slot depend on
    -- no credential but its own.
    pub run-SameFor :
        (h : Script Request Reply Out Err) (u v : Vault C) (w : W)
        → SameFor u v
        → ((run f ctx env h u w).0 ≡ (run f ctx env h v w).0)
          × ((run f ctx env h u w).2 ≡ (run f ctx env h v w).2)
          × SameFor (run f ctx env h u w).1 (run f ctx env h v w).1
    unfolding run
    run-SameFor (done a) u v w s = (refl, refl, s)
    run-SameFor (fail e) u v w s = (refl, refl, s)
    run-SameFor (credential h) u v w s =
        rw (SameFor-read u v s, run) (run-SameFor (h (read_credential f ctx v)) u v w s)
    run-SameFor (store_credential plain h) u v w s =
        run-SameFor h (write_credential f ctx plain u) (write_credential f ctx plain v) w
          (SameFor-write plain u v s)
    run-SameFor (call request h) u v w s = run-SameFor (h (env request w).0) u v (env request w).1 s
