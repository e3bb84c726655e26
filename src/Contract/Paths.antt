-- ===== src/Contract/Paths.antt =====
-- The paths of the contract: web/src/shared/api/contract.gen.ts, `paths`.
use wasm_hooks.Common.{String, List, [], ◌∷◌, Option, none, some}
use wasm_hooks.Contract.Operations

-- The operations of a path, by their methods; `options`, `head` and `trace` have none.
pub record PathItem : Type 0 where
  pub get : Option Operations.Operation
  pub put : Option Operations.Operation
  pub post : Option Operations.Operation
  pub delete : Option Operations.Operation
  pub patch : Option Operations.Operation

abbrev empty_item : PathItem
empty_item = record { get = none; put = none; post = none; delete = none; patch = none }

abbrev pub tenants_external_id_console_sessions_path : PathItem
tenants_external_id_console_sessions_path = record empty_item {
  post = some Operations.create_console_session_operation;
}

abbrev pub hooks_path : PathItem
hooks_path = record empty_item {
  get = some Operations.list_hooks_operation;
  post = some Operations.create_hook_operation;
}

abbrev pub hooks_name_path : PathItem
hooks_name_path = record empty_item {
  get = some Operations.get_hook_operation;
  put = some Operations.replace_hook_operation;
}

abbrev pub tenants_path : PathItem
tenants_path = record empty_item {
  get = some Operations.list_tenants_operation;
  post = some Operations.create_tenant_operation;
}

abbrev pub tenants_external_id_path : PathItem
tenants_external_id_path = record empty_item {
  get = some Operations.get_tenant_operation;
  patch = some Operations.patch_tenant_operation;
}

abbrev pub api_keys_path : PathItem
api_keys_path = record empty_item {
  get = some Operations.list_api_keys_operation;
  post = some Operations.create_api_key_operation;
}

abbrev pub api_keys_key_id_path : PathItem
api_keys_key_id_path = record empty_item { delete = some Operations.revoke_api_key_operation }

abbrev pub tenant_hooks_path : PathItem
tenant_hooks_path = record empty_item { get = some Operations.list_tenant_hooks_operation }

abbrev pub tenant_hooks_hook_path : PathItem
tenant_hooks_hook_path = record empty_item { get = some Operations.get_tenant_hook_operation }

abbrev pub tenant_hooks_hook_modules_path : PathItem
tenant_hooks_hook_modules_path = record empty_item {
  get = some Operations.list_modules_operation;
  post = some Operations.upload_module_operation;
}

abbrev pub tenant_hooks_hook_binding_path : PathItem
tenant_hooks_hook_binding_path = record empty_item {
  put = some Operations.update_binding_operation;
}

abbrev pub paths : List (String × PathItem)
paths =
    ("/api/v1/tenants/{external_id}/console-sessions", tenants_external_id_console_sessions_path)
    ∷ ("/api/v1/hooks", hooks_path)
    ∷ ("/api/v1/hooks/{name}", hooks_name_path)
    ∷ ("/api/v1/tenants", tenants_path)
    ∷ ("/api/v1/tenants/{external_id}", tenants_external_id_path)
    ∷ ("/api/v1/api-keys", api_keys_path)
    ∷ ("/api/v1/api-keys/{key_id}", api_keys_key_id_path)
    ∷ ("/api/v1/tenant/hooks", tenant_hooks_path)
    ∷ ("/api/v1/tenant/hooks/{hook}", tenant_hooks_hook_path)
    ∷ ("/api/v1/tenant/hooks/{hook}/modules", tenant_hooks_hook_modules_path)
    ∷ ("/api/v1/tenant/hooks/{hook}/binding", tenant_hooks_hook_binding_path)
    ∷ []
