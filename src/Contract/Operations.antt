-- ===== src/Contract/Operations.antt =====
-- The operations of the contract: web/src/shared/api/contract.gen.ts, `operations`. Headers are left out: the contract
-- says of each that it is unknown.
use wasm_hooks.Common.{ℕ, String, List, [], ◌∷◌, Option, none, some}
use wasm_hooks.Contract.Shape.{Shape, string}
use wasm_hooks.Contract.Schemas

-- A body, by its media type.
pub record Body : Type 0 where
  pub media : String
  pub type : Shape

pub record Answer : Type 0 where
  pub status : ℕ
  pub content : Option Body

-- An operation: its parameters in the path, the body that it takes, and its answers.
pub record Operation : Type 0 where
  pub parameters : List (String × Shape)
  pub request_body : Option Body
  pub responses : List Answer

abbrev pub body : String → Shape → Body
body media s = record { media = media; type = s }

abbrev pub answer : ℕ → Option Body → Answer
answer status content = record { status = status; content = content }

-- `create_console_session_api_v1_tenants__external_id__console_sessions_post`
abbrev pub create_console_session_operation : Operation
create_console_session_operation = record {
  parameters = ("external_id", string) ∷ [];
  request_body = none;
  responses =
      answer 201 (some (body "application/json" Schemas.console_session_shape))
      ∷ answer 400 (some (body "application/problem+json" Schemas.problem_shape))
      ∷ answer 401 (some (body "application/problem+json" Schemas.problem_shape))
      ∷ answer 422 (some (body "application/problem+json" Schemas.problem_shape))
      ∷ [];
}

-- `list_hooks_api_v1_hooks_get`
abbrev pub list_hooks_operation : Operation
list_hooks_operation = record {
  parameters = [];
  request_body = none;
  responses =
      answer 200 (some (body "application/json" Schemas.hook_list_shape))
      ∷ answer 400 (some (body "application/problem+json" Schemas.problem_shape))
      ∷ answer 401 (some (body "application/problem+json" Schemas.problem_shape))
      ∷ answer 422 (some (body "application/problem+json" Schemas.problem_shape))
      ∷ [];
}

-- `create_hook_api_v1_hooks_post`
abbrev pub create_hook_operation : Operation
create_hook_operation = record {
  parameters = [];
  request_body = some (body "application/json" Schemas.hook_create_shape);
  responses =
      answer 201 (some (body "application/json" Schemas.hook_shape))
      ∷ answer 400 (some (body "application/problem+json" Schemas.problem_shape))
      ∷ answer 401 (some (body "application/problem+json" Schemas.problem_shape))
      ∷ answer 422 (some (body "application/problem+json" Schemas.problem_shape))
      ∷ [];
}

-- `get_hook_api_v1_hooks__name__get`
abbrev pub get_hook_operation : Operation
get_hook_operation = record {
  parameters = ("name", string) ∷ [];
  request_body = none;
  responses =
      answer 200 (some (body "application/json" Schemas.hook_shape))
      ∷ answer 400 (some (body "application/problem+json" Schemas.problem_shape))
      ∷ answer 401 (some (body "application/problem+json" Schemas.problem_shape))
      ∷ answer 422 (some (body "application/problem+json" Schemas.problem_shape))
      ∷ [];
}

-- `replace_hook_api_v1_hooks__name__put`
abbrev pub replace_hook_operation : Operation
replace_hook_operation = record {
  parameters = ("name", string) ∷ [];
  request_body = some (body "application/json" Schemas.hook_spec_shape);
  responses =
      answer 200 (some (body "application/json" Schemas.hook_shape))
      ∷ answer 400 (some (body "application/problem+json" Schemas.problem_shape))
      ∷ answer 401 (some (body "application/problem+json" Schemas.problem_shape))
      ∷ answer 422 (some (body "application/problem+json" Schemas.problem_shape))
      ∷ [];
}

-- `list_tenants_api_v1_tenants_get`
abbrev pub list_tenants_operation : Operation
list_tenants_operation = record {
  parameters = [];
  request_body = none;
  responses =
      answer 200 (some (body "application/json" Schemas.tenant_list_shape))
      ∷ answer 400 (some (body "application/problem+json" Schemas.problem_shape))
      ∷ answer 401 (some (body "application/problem+json" Schemas.problem_shape))
      ∷ answer 422 (some (body "application/problem+json" Schemas.problem_shape))
      ∷ [];
}

-- `create_tenant_api_v1_tenants_post`
abbrev pub create_tenant_operation : Operation
create_tenant_operation = record {
  parameters = [];
  request_body = some (body "application/json" Schemas.tenant_create_shape);
  responses =
      answer 201 (some (body "application/json" Schemas.tenant_shape))
      ∷ answer 400 (some (body "application/problem+json" Schemas.problem_shape))
      ∷ answer 401 (some (body "application/problem+json" Schemas.problem_shape))
      ∷ answer 422 (some (body "application/problem+json" Schemas.problem_shape))
      ∷ [];
}

-- `get_tenant_api_v1_tenants__external_id__get`
abbrev pub get_tenant_operation : Operation
get_tenant_operation = record {
  parameters = ("external_id", string) ∷ [];
  request_body = none;
  responses =
      answer 200 (some (body "application/json" Schemas.tenant_shape))
      ∷ answer 400 (some (body "application/problem+json" Schemas.problem_shape))
      ∷ answer 401 (some (body "application/problem+json" Schemas.problem_shape))
      ∷ answer 422 (some (body "application/problem+json" Schemas.problem_shape))
      ∷ [];
}

-- `patch_tenant_api_v1_tenants__external_id__patch`
abbrev pub patch_tenant_operation : Operation
patch_tenant_operation = record {
  parameters = ("external_id", string) ∷ [];
  request_body = some (body "application/json" Schemas.tenant_patch_shape);
  responses =
      answer 200 (some (body "application/json" Schemas.tenant_shape))
      ∷ answer 400 (some (body "application/problem+json" Schemas.problem_shape))
      ∷ answer 401 (some (body "application/problem+json" Schemas.problem_shape))
      ∷ answer 422 (some (body "application/problem+json" Schemas.problem_shape))
      ∷ [];
}

-- `list_api_keys_api_v1_api_keys_get`
abbrev pub list_api_keys_operation : Operation
list_api_keys_operation = record {
  parameters = [];
  request_body = none;
  responses =
      answer 200 (some (body "application/json" Schemas.api_key_list_shape))
      ∷ answer 400 (some (body "application/problem+json" Schemas.problem_shape))
      ∷ answer 401 (some (body "application/problem+json" Schemas.problem_shape))
      ∷ answer 422 (some (body "application/problem+json" Schemas.problem_shape))
      ∷ [];
}

-- `create_api_key_api_v1_api_keys_post`
abbrev pub create_api_key_operation : Operation
create_api_key_operation = record {
  parameters = [];
  request_body = some (body "application/json" Schemas.api_key_create_shape);
  responses =
      answer 201 (some (body "application/json" Schemas.api_key_created_shape))
      ∷ answer 400 (some (body "application/problem+json" Schemas.problem_shape))
      ∷ answer 401 (some (body "application/problem+json" Schemas.problem_shape))
      ∷ answer 422 (some (body "application/problem+json" Schemas.problem_shape))
      ∷ [];
}

-- `revoke_api_key_api_v1_api_keys__key_id__delete`
abbrev pub revoke_api_key_operation : Operation
revoke_api_key_operation = record {
  parameters = ("key_id", string) ∷ [];
  request_body = none;
  responses =
      answer 204 none
      ∷ answer 400 (some (body "application/problem+json" Schemas.problem_shape))
      ∷ answer 401 (some (body "application/problem+json" Schemas.problem_shape))
      ∷ answer 422 (some (body "application/problem+json" Schemas.problem_shape))
      ∷ [];
}

-- `list_hooks_api_v1_tenant_hooks_get`
abbrev pub list_tenant_hooks_operation : Operation
list_tenant_hooks_operation = record {
  parameters = [];
  request_body = none;
  responses =
      answer 200 (some (body "application/json" Schemas.tenant_hook_list_shape))
      ∷ answer 400 (some (body "application/problem+json" Schemas.problem_shape))
      ∷ answer 401 (some (body "application/problem+json" Schemas.problem_shape))
      ∷ answer 422 (some (body "application/problem+json" Schemas.problem_shape))
      ∷ [];
}

-- `get_hook_api_v1_tenant_hooks__hook__get`
abbrev pub get_tenant_hook_operation : Operation
get_tenant_hook_operation = record {
  parameters = ("hook", string) ∷ [];
  request_body = none;
  responses =
      answer 200 (some (body "application/json" Schemas.tenant_hook_shape))
      ∷ answer 400 (some (body "application/problem+json" Schemas.problem_shape))
      ∷ answer 401 (some (body "application/problem+json" Schemas.problem_shape))
      ∷ answer 422 (some (body "application/problem+json" Schemas.problem_shape))
      ∷ [];
}

-- `list_modules_api_v1_tenant_hooks__hook__modules_get`
abbrev pub list_modules_operation : Operation
list_modules_operation = record {
  parameters = ("hook", string) ∷ [];
  request_body = none;
  responses =
      answer 200 (some (body "application/json" Schemas.module_list_shape))
      ∷ answer 400 (some (body "application/problem+json" Schemas.problem_shape))
      ∷ answer 401 (some (body "application/problem+json" Schemas.problem_shape))
      ∷ answer 422 (some (body "application/problem+json" Schemas.problem_shape))
      ∷ [];
}

-- `upload_module_api_v1_tenant_hooks__hook__modules_post`
abbrev pub upload_module_operation : Operation
upload_module_operation = record {
  parameters = ("hook", string) ∷ [];
  request_body = some (body "multipart/form-data" Schemas.upload_body_shape);
  responses =
      answer 201 (some (body "application/json" Schemas.module_shape))
      ∷ answer 400 (some (body "application/problem+json" Schemas.problem_shape))
      ∷ answer 401 (some (body "application/problem+json" Schemas.problem_shape))
      ∷ answer 422 (some (body "application/problem+json" Schemas.problem_shape))
      ∷ [];
}

-- `update_binding_api_v1_tenant_hooks__hook__binding_put`
abbrev pub update_binding_operation : Operation
update_binding_operation = record {
  parameters = ("hook", string) ∷ [];
  request_body = some (body "application/json" Schemas.binding_update_shape);
  responses =
      answer 200 (some (body "application/json" Schemas.tenant_binding_shape))
      ∷ answer 400 (some (body "application/problem+json" Schemas.problem_shape))
      ∷ answer 401 (some (body "application/problem+json" Schemas.problem_shape))
      ∷ answer 422 (some (body "application/problem+json" Schemas.problem_shape))
      ∷ [];
}
