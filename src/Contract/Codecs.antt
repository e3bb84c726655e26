-- ===== src/Contract/Codecs.antt =====
-- The zod schemas of web/src/entities/*/model, `problemSchema` of web/src/shared/api/http.ts, and the types of what the
-- console sends.
use wasm_hooks.Common.{String, List, [], ◌∷◌}
use wasm_hooks.Common.Int.{pos}
use wasm_hooks.Json.{whole, arr, nil}
use wasm_hooks.Contract.Shape.{Shape, string, number, table, list, unknown, object_of, need, may}
use wasm_hooks.Contract.Zod.{
  Zod, z_string, z_boolean, z_unknown, z_datetime, z_number, z_enum, z_array, z_record, z_nullish,
  z_nullable, z_optional, z_fallback, z_object, ZodFields, z_end, z_field, z_extend, int, positive,
  nonnegative,
}

abbrev pub fields_of : List (String × Zod) → ZodFields
fields_of [] = z_end
fields_of ((name, s) ∷ fs) = z_field name s (fields_of fs)

abbrev pub integer : Zod
integer = z_number (int ∷ [])

-- `z.object({ items: z.array(s) })`
abbrev pub items_schema : Zod → Zod
items_schema s = z_object (fields_of (("items", z_array s) ∷ []))

-- entities/tenant
abbrev pub quota_schema : Zod
quota_schema = z_fallback (z_nullish integer) (whole (pos 0))

abbrev pub tenant_schema : Zod
tenant_schema = z_object (
    fields_of (
      ("external_id", z_string)
      ∷ ("name", z_string)
      ∷ ("rate_limit_rps", quota_schema)
      ∷ ("concurrency_limit", quota_schema)
      ∷ ("created_at", z_datetime)
      ∷ ("updated_at", z_datetime)
      ∷ []))

abbrev pub tenant_list_schema : Zod
tenant_list_schema = items_schema tenant_schema

abbrev pub console_session_schema : Zod
console_session_schema =
    z_object (fields_of (("token", z_string) ∷ ("expires_at", z_datetime) ∷ []))

-- `TenantCreate` and `TenantPatch`
abbrev pub tenant_create_type : Shape
tenant_create_type = object_of (
    need "external_id" string
    ∷ need "name" string
    ∷ need "rate_limit_rps" number
    ∷ need "concurrency_limit" number
    ∷ [])

abbrev pub tenant_patch_type : Shape
tenant_patch_type =
    object_of
      (may "name" string ∷ may "rate_limit_rps" number ∷ may "concurrency_limit" number ∷ [])

-- entities/hook
abbrev pub json_object : Zod
json_object = z_record z_unknown

abbrev pub string_list : Zod
string_list = z_fallback (z_nullish (z_array z_string)) (arr nil)

abbrev pub operator_hook_schema : Zod
operator_hook_schema = z_object (
    fields_of (
      ("name", z_string)
      ∷ ("def_version", integer)
      ∷ ("input_schema", json_object)
      ∷ ("output_schema", json_object)
      ∷ ("timeout_ms", integer)
      ∷ ("memory_max_pages", integer)
      ∷ ("allowed_host_functions", string_list)
      ∷ ("allowed_effect_types", string_list)
      ∷ ("sample_input", json_object)
      ∷ ("created_at", z_datetime)
      ∷ ("updated_at", z_datetime)
      ∷ []))

abbrev pub operator_hook_list_schema : Zod
operator_hook_list_schema = items_schema operator_hook_schema

-- `HookSpec`, by its properties, and `HookCreate`
abbrev pub hook_spec_type : Shape
hook_spec_type = object_of (
    need "input_schema" (table unknown)
    ∷ need "output_schema" (table unknown)
    ∷ need "timeout_ms" number
    ∷ need "memory_max_pages" number
    ∷ need "allowed_host_functions" (list string)
    ∷ need "allowed_effect_types" (list string)
    ∷ need "sample_input" (table unknown)
    ∷ [])

abbrev pub hook_create_type : Shape
hook_create_type = object_of (
    need "input_schema" (table unknown)
    ∷ need "output_schema" (table unknown)
    ∷ need "timeout_ms" number
    ∷ need "memory_max_pages" number
    ∷ need "allowed_host_functions" (list string)
    ∷ need "allowed_effect_types" (list string)
    ∷ need "sample_input" (table unknown)
    ∷ need "name" string
    ∷ [])

abbrev pub hook_schema : Zod
hook_schema = z_object (
    fields_of (
      ("name", z_string)
      ∷ ("def_version", integer)
      ∷ ("input_schema", json_object)
      ∷ ("output_schema", json_object)
      ∷ ("timeout_ms", z_number (int ∷ positive ∷ []))
      ∷ ("memory_max_pages", z_number (int ∷ positive ∷ []))
      ∷ ("allowed_host_functions", z_array z_string)
      ∷ ("allowed_effect_types", z_array z_string)
      ∷ ("sample_input", z_optional z_unknown)
      ∷ []))

abbrev pub binding_schema : Zod
binding_schema = z_object (
    fields_of (
      ("active_module_id", z_nullish z_string)
      ∷ ("active_module_hash", z_nullish z_string)
      ∷ ("config", z_record z_string)
      ∷ ("config_version", integer)
      ∷ ("updated_at", z_datetime)
      ∷ []))

abbrev pub tenant_hook_schema : Zod
tenant_hook_schema =
    z_object (fields_of (("hook", hook_schema) ∷ ("binding", z_nullish binding_schema) ∷ []))

abbrev pub tenant_hook_list_schema : Zod
tenant_hook_list_schema = items_schema tenant_hook_schema

-- entities/module
abbrev pub module_status_schema : Zod
module_status_schema = z_enum "uploaded" ("validating" ∷ "validated" ∷ "rejected" ∷ "archived" ∷ [])

abbrev pub validation_check_schema : Zod
validation_check_schema = z_object (
    fields_of (
      ("name", z_enum "fetch" ("compile" ∷ "exports" ∷ "imports" ∷ "sample_call" ∷ []))
      ∷ ("ok", z_boolean)
      ∷ ("detail", z_nullish z_string)
      ∷ []))

abbrev pub validation_report_schema : Zod
validation_report_schema =
    z_object (fields_of (("ok", z_boolean) ∷ ("checks", z_array validation_check_schema) ∷ []))

abbrev pub module_schema : Zod
module_schema = z_object (
    fields_of (
      ("id", z_string)
      ∷ ("hook", z_string)
      ∷ ("content_hash", z_string)
      ∷ ("size_bytes", z_number (int ∷ nonnegative ∷ []))
      ∷ ("status", module_status_schema)
      ∷ ("validation_report", z_nullish validation_report_schema)
      ∷ ("uploaded_at", z_datetime)
      ∷ []))

abbrev pub module_list_schema : Zod
module_list_schema = items_schema module_schema

-- entities/api-key
abbrev pub api_key_fields : ZodFields
api_key_fields = fields_of (
    ("id", z_string)
    ∷ ("name", z_string)
    ∷ ("created_at", z_datetime)
    ∷ ("revoked_at", z_nullish z_datetime)
    ∷ [])

abbrev pub api_key_schema : Zod
api_key_schema = z_object api_key_fields

abbrev pub api_key_list_schema : Zod
api_key_list_schema = items_schema api_key_schema

unfoldable pub api_key_created_schema : Zod
unfolding z_extend
api_key_created_schema = z_object (z_extend api_key_fields (fields_of (("token", z_string) ∷ [])))

-- entities/invocation
abbrev pub outcome_schema : Zod
outcome_schema =
    z_enum "ok" ("no_handler" ∷ "timeout" ∷ "handler_error" ∷ "quota_exceeded" ∷ "unavailable" ∷ [])

abbrev pub invocation_schema : Zod
invocation_schema = z_object (
    fields_of (
      ("seq", integer)
      ∷ ("ts", z_datetime)
      ∷ ("hook", z_string)
      ∷ ("module_hash", z_nullable z_string)
      ∷ ("outcome", outcome_schema)
      ∷ ("reason", z_nullable z_string)
      ∷ ("error", z_nullable z_string)
      ∷ ("duration_ms", z_number (nonnegative ∷ []))
      ∷ ("cold_start", z_boolean)
      ∷ ("idempotency_key", z_nullable z_string)
      ∷ ("logs", z_array z_string)
      ∷ []))

abbrev pub invocation_list_schema : Zod
invocation_list_schema = items_schema invocation_schema

-- `problemSchema`
abbrev pub problem_schema : Zod
problem_schema = z_object (
    fields_of (
      ("type", z_nullish z_string)
      ∷ ("title", z_nullish z_string)
      ∷ ("status", z_nullish (z_number []))
      ∷ ("detail", z_nullish z_string)
      ∷ []))
