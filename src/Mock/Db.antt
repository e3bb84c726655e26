-- ===== src/Mock/Db.antt =====
-- web/src/mocks/db.ts: the state of the mock API.
use wasm_hooks.Common.Int.{ℤ}
use wasm_hooks.Common.{ℕ, String, List, Option}
use wasm_hooks.Entity.Hook.{OperatorHook, Binding}
use wasm_hooks.Entity.Module.{Module}
use wasm_hooks.Entity.Tenant.{Tenant}
use wasm_hooks.Entity.ApiKey.{ApiKey}
use wasm_hooks.Entity.Invocation.{Invocation}

-- A module with the time when its validation ends and the reason if it is to fail.
pub record PendingModule : Type 0 where
  pub base : Module
  pub open base use *
  pub validates_at : ℕ
  pub reject_reason : Option String

pub record StoredApiKey : Type 0 where
  pub key : ApiKey
  pub open key use *
  pub token : String

-- `F` is the type of floating-point numbers. `bindings` is the `Map` in its order of insertion. The state of the random
-- numbers, which the source keeps in the closure `random`, is here too.
pub record Db (F : Type 0) : Type 0 where
  pub hooks : List OperatorHook
  pub modules : List PendingModule
  pub bindings : List (String × Binding)
  pub invocations : List (Invocation F)
  pub tenants : List Tenant
  pub api_keys : List StoredApiKey
  pub random : ℤ

-- `publicModule`
unfoldable pub public_module : PendingModule → Module
public_module m = m.base
