-- ===== src/Entity/Tenant.antt =====
-- web/src/entities/tenant: tenants, their quotas and console sessions.
use wasm_hooks.Common.{ℕ, String, Option}
use wasm_hooks.Common.Int.{ℤ}

abbrev pub external_id_max : ℕ
external_id_max = 128

abbrev pub quota_max : ℕ
quota_max = 2147483647

pub record Tenant : Type 0 where
  pub external_id : String
  pub name : String
  pub rate_limit_rps : ℤ
  pub concurrency_limit : ℤ
  pub created_at : String
  pub updated_at : String

pub record TenantCreate : Type 0 where
  pub external_id : String
  pub name : String
  pub rate_limit_rps : ℤ
  pub concurrency_limit : ℤ

pub record TenantPatch : Type 0 where
  pub name : Option String
  pub rate_limit_rps : Option ℤ
  pub concurrency_limit : Option ℤ

pub record ConsoleSession : Type 0 where
  pub token : String
  pub expires_at : String
