-- ===== src/Connectors.antt =====
-- src/hallpass/connectors.py: what a tool handler is given, and what it can reach with it.
--
-- A handler is code that is not in this repository. It is taken as a tree of the things that the
-- seam lets it do: return, raise, call the two methods of its `UserContext`, and call a downstream
-- service, whose answer an environment chooses.
pub mod Isolation
use hallpass.Prelude.{String, List, Bool, Option}
use hallpass.Identity.{Principal}
use hallpass.Gating.{ToolSpec}
use hallpass.Vault.{Fernet, Vault, Fetched, fetch, store}

pub data Script (Request Reply Out Err : Type 0) : Type 0 where
  done : Out → Script Request Reply Out Err
  fail : Err → Script Request Reply Out Err
  credential : (Fetched → Script Request Reply Out Err) → Script Request Reply Out Err
  store_credential : String → Script Request Reply Out Err → Script Request Reply Out Err
  call : Request → (Reply → Script Request Reply Out Err) → Script Request Reply Out Err

pub data Outcome (Out Err : Type 0) : Type 0 where
  returned : Out → Outcome Out Err
  raised : Err → Outcome Out Err

-- `UserContext`: the vault is that of the state in which a method is called.
pub record UserContext : Type 0 where
  pub principal : Principal
  pub service : String

module _ {C : Type 0} (f : Fernet C) (ctx : UserContext) where
  -- `UserContext.credential`
  unfoldable pub read_credential : Vault C → Fetched
  read_credential v = fetch f ctx.principal.subject ctx.service v

  -- `UserContext.store_credential`
  unfoldable pub write_credential : String → Vault C → Vault C
  write_credential plain v = store f ctx.principal.subject ctx.service plain v

  -- A handler's run, in a world that answers its calls.
  unfoldable pub run :
      {Request Reply Out Err W : Type 0}
      → (Request → W → Reply × W)
      → Script Request Reply Out Err
      → Vault C
      → W
      → Outcome Out Err × Vault C × W
  unfolding read_credential write_credential
  run env (done a) v w = (returned a, v, w)
  run env (fail e) v w = (raised e, v, w)
  run env (credential k) v w = run env (k (read_credential v)) v w
  run env (store_credential plain rest) v w = run env rest (write_credential plain v) w
  run env (call request k) v w = let (reply, w') = env request w in run env (k reply) v w'

-- `Connector`: `available` is `none` if the connector has no such method.
pub record Connector (H : Type 0) : Type 0 where
  pub service : String
  pub available : Option Bool
  pub tools : List (ToolSpec H)
