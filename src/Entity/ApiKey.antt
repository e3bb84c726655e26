-- ===== src/Entity/ApiKey.antt =====
-- web/src/entities/api-key/model: the installation keys.
use wasm_hooks.Common.{ℕ, String, Option}

abbrev pub key_name_max : ℕ
key_name_max = 64

pub record ApiKey : Type 0 where
  pub id : String
  pub name : String
  pub created_at : String
  pub revoked_at : Option String

-- The answer to a creation, the only one that holds the token.
pub record ApiKeyCreated : Type 0 where
  pub key : ApiKey
  pub open key use *
  pub token : String
