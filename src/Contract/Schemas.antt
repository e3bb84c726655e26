-- ===== src/Contract/Schemas.antt =====
-- The schemas of the contract: web/src/shared/api/contract.gen.ts, `components["schemas"]`.
use wasm_hooks.Common.{[], ◌∷◌}
use wasm_hooks.Contract.Shape.{
  Shape, string, number, boolean, nothing, unknown, literal, table, list, either, object_of, need,
  may,
}

-- `ApiKey`
abbrev pub api_key_shape : Shape
api_key_shape = object_of (
    need "id" string
    ∷ need "name" string
    ∷ need "created_at" string
    ∷ need "revoked_at" (either string nothing)
    ∷ [])

-- `ApiKeyCreate`
abbrev pub api_key_create_shape : Shape
api_key_create_shape = object_of (need "name" string ∷ [])

-- `ApiKeyCreated`
abbrev pub api_key_created_shape : Shape
api_key_created_shape = object_of (
    need "id" string
    ∷ need "name" string
    ∷ need "created_at" string
    ∷ need "revoked_at" (either string nothing)
    ∷ need "token" string
    ∷ [])

-- `ApiKeyList`
abbrev pub api_key_list_shape : Shape
api_key_list_shape = object_of (need "items" (list api_key_shape) ∷ [])

-- `BindingUpdate`
abbrev pub binding_update_shape : Shape
binding_update_shape = object_of (
    may "active_module_id" (either string nothing)
    ∷ may "config" (either (table string) nothing)
    ∷ [])

-- `Body_upload_module_api_v1_tenant_hooks__hook__modules_post`
abbrev pub upload_body_shape : Shape
upload_body_shape = object_of (need "file" string ∷ [])

-- `ConsoleSession`
abbrev pub console_session_shape : Shape
console_session_shape = object_of (need "token" string ∷ need "expires_at" string ∷ [])

-- `Hook`
abbrev pub hook_shape : Shape
hook_shape = object_of (
    need "input_schema" (table unknown)
    ∷ need "output_schema" (table unknown)
    ∷ need "timeout_ms" number
    ∷ need "memory_max_pages" number
    ∷ may "allowed_host_functions" (list string)
    ∷ may "allowed_effect_types" (list string)
    ∷ need "sample_input" (table unknown)
    ∷ need "name" string
    ∷ need "def_version" number
    ∷ need "created_at" string
    ∷ need "updated_at" string
    ∷ [])

-- `HookCreate`
abbrev pub hook_create_shape : Shape
hook_create_shape = object_of (
    need "input_schema" (table unknown)
    ∷ need "output_schema" (table unknown)
    ∷ need "timeout_ms" number
    ∷ need "memory_max_pages" number
    ∷ may "allowed_host_functions" (list string)
    ∷ may "allowed_effect_types" (list string)
    ∷ need "sample_input" (table unknown)
    ∷ need "name" string
    ∷ [])

-- `HookList`
abbrev pub hook_list_shape : Shape
hook_list_shape = object_of (need "items" (list hook_shape) ∷ [])

-- `HookSpec`
abbrev pub hook_spec_shape : Shape
hook_spec_shape = object_of (
    need "input_schema" (table unknown)
    ∷ need "output_schema" (table unknown)
    ∷ need "timeout_ms" number
    ∷ need "memory_max_pages" number
    ∷ may "allowed_host_functions" (list string)
    ∷ may "allowed_effect_types" (list string)
    ∷ need "sample_input" (table unknown)
    ∷ [])

-- `HookView`
abbrev pub hook_view_shape : Shape
hook_view_shape = object_of (
    need "name" string
    ∷ need "def_version" number
    ∷ need "input_schema" (table unknown)
    ∷ need "output_schema" (table unknown)
    ∷ need "timeout_ms" number
    ∷ need "memory_max_pages" number
    ∷ need "allowed_host_functions" (list string)
    ∷ need "allowed_effect_types" (list string)
    ∷ may "sample_input" unknown
    ∷ [])

-- `ValidationCheck`
abbrev pub validation_check_shape : Shape
validation_check_shape = object_of (
    need "name" (
      either (literal "fetch") (
        either (literal "compile")
          (either (literal "exports") (either (literal "imports") (literal "sample_call")))))
    ∷ need "ok" boolean
    ∷ may "detail" (either string nothing)
    ∷ [])

-- `ValidationReport`
abbrev pub validation_report_shape : Shape
validation_report_shape =
    object_of (need "ok" boolean ∷ need "checks" (list validation_check_shape) ∷ [])

-- `Module`
abbrev pub module_shape : Shape
module_shape = object_of (
    need "id" string
    ∷ need "hook" string
    ∷ need "content_hash" string
    ∷ need "size_bytes" number
    ∷ need "status" (
        either (literal "uploaded") (
          either (literal "validating")
            (either (literal "validated") (either (literal "rejected") (literal "archived")))))
    ∷ need "validation_report" (either validation_report_shape nothing)
    ∷ need "uploaded_at" string
    ∷ [])

-- `ModuleList`
abbrev pub module_list_shape : Shape
module_list_shape = object_of (need "items" (list module_shape) ∷ [])

-- `Tenant`
abbrev pub tenant_shape : Shape
tenant_shape = object_of (
    need "external_id" string
    ∷ need "name" string
    ∷ need "rate_limit_rps" number
    ∷ need "concurrency_limit" number
    ∷ need "created_at" string
    ∷ need "updated_at" string
    ∷ [])

-- `TenantBinding`
abbrev pub tenant_binding_shape : Shape
tenant_binding_shape = object_of (
    need "active_module_id" (either string nothing)
    ∷ need "active_module_hash" (either string nothing)
    ∷ need "config" (table string)
    ∷ need "config_version" number
    ∷ need "updated_at" string
    ∷ [])

-- `TenantCreate`
abbrev pub tenant_create_shape : Shape
tenant_create_shape = object_of (
    need "external_id" string
    ∷ need "name" string
    ∷ need "rate_limit_rps" number
    ∷ need "concurrency_limit" number
    ∷ [])

-- `TenantHook`
abbrev pub tenant_hook_shape : Shape
tenant_hook_shape =
    object_of
      (need "hook" hook_view_shape ∷ need "binding" (either tenant_binding_shape nothing) ∷ [])

-- `TenantHookList`
abbrev pub tenant_hook_list_shape : Shape
tenant_hook_list_shape = object_of (need "items" (list tenant_hook_shape) ∷ [])

-- `TenantList`
abbrev pub tenant_list_shape : Shape
tenant_list_shape = object_of (need "items" (list tenant_shape) ∷ [])

-- `TenantPatch`
abbrev pub tenant_patch_shape : Shape
tenant_patch_shape = object_of (
    may "name" (either string nothing)
    ∷ may "rate_limit_rps" (either number nothing)
    ∷ may "concurrency_limit" (either number nothing)
    ∷ [])

-- `Problem`
abbrev pub problem_shape : Shape
problem_shape = object_of (
    need "type" string
    ∷ need "title" string
    ∷ need "status" number
    ∷ need "detail" (either string nothing)
    ∷ [])
