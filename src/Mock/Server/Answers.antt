-- ===== src/Mock/Server/Answers.antt =====
-- What the mock API answers, with the JSON of its bodies, beside what the contract declares: the table of handlers of
-- web/src/mocks/handlers.ts against `operations` of web/src/shared/api/contract.gen.ts.
use wasm_hooks.Common.{
  ℕ, ltb, nat_eq, if◌then◌else◌, String, Bool, [], ◌∷◌, true, false, Option, none, some, find,
}
use wasm_hooks.Json.{Json, null}
use wasm_hooks.Mock.Db.{Db}
use wasm_hooks.Mock.Http.{Reply, authed}
use wasm_hooks.Mock.Tenants.{list_tenants, get_tenant, create_tenant, patch_tenant}
use wasm_hooks.Mock.ApiKeys.{list_api_keys, create_api_key, revoke_api_key}
use wasm_hooks.Mock.Hooks.{list_hooks, get_hook, create_hook, put_hook}
use wasm_hooks.Mock.Modules.{list_modules, upload_module}
use wasm_hooks.Mock.Bindings.{list_tenant_hooks, get_tenant_hook, put_binding}
use wasm_hooks.Mock.Log.{list_invocations}
use wasm_hooks.Mock.Sessions.{create_console_session}
use wasm_hooks.Mock.Server.{
  Platform, Call, hooks_list, tenants_list, keys_list, tenant_hooks_list, hook_get, tenant_get,
  tenant_hook_get, hook_create, hook_put, tenant_create, tenant_patch, key_create, key_revoke,
  modules_list, module_upload, binding_put, session_create, invocations_list,
}
use wasm_hooks.Contract.Shape.{conforms}
use wasm_hooks.Contract.Zod.{input_of}
use wasm_hooks.Contract.Codecs
use wasm_hooks.Contract.Operations
use wasm_hooks.Contract.Encode.{
  content_of, items_json, null_or, tenant_json, api_key_json, api_key_created_json, hook_json,
  console_session_json, invocation_json, binding_json, tenant_hook_json, module_json,
}

-- The log of invocations, which the contract does not have: an operation with the type that the console reads.
abbrev pub invocations_operation : Operations.Operation
invocations_operation = record {
  parameters = [];
  request_body = none;
  responses =
      Operations.answer 200
        (some (Operations.body "application/json" (input_of Codecs.invocation_list_schema)))
      ∷ [];
}

-- The operation of the contract that a call is for.
abbrev pub operation_of : Call → Operations.Operation
operation_of hooks_list = Operations.list_hooks_operation
operation_of tenants_list = Operations.list_tenants_operation
operation_of keys_list = Operations.list_api_keys_operation
operation_of tenant_hooks_list = Operations.list_tenant_hooks_operation
operation_of (hook_get name) = Operations.get_hook_operation
operation_of (tenant_get id) = Operations.get_tenant_operation
operation_of (tenant_hook_get name) = Operations.get_tenant_hook_operation
operation_of (hook_create body) = Operations.create_hook_operation
operation_of (hook_put name body) = Operations.replace_hook_operation
operation_of (tenant_create body) = Operations.create_tenant_operation
operation_of (tenant_patch id body) = Operations.patch_tenant_operation
operation_of (session_create id) = Operations.create_console_session_operation
operation_of (invocations_list query) = invocations_operation
operation_of (key_create body draws) = Operations.create_api_key_operation
operation_of (key_revoke id) = Operations.revoke_api_key_operation
operation_of (modules_list hook) = Operations.list_modules_operation
operation_of (module_upload hook field) = Operations.upload_module_operation
operation_of (binding_put hook body) = Operations.update_binding_operation

abbrev pub content_fits : Option Operations.Body → Option Json → Bool
content_fits none none = true
content_fits (some b) (some v) = conforms false b.type v
content_fits _ _ = false

abbrev pub declared_by : Option Operations.Answer → Option Json → Bool
declared_by none content = false
declared_by (some a) content = content_fits a.content content

abbrev pub is_problem : Option Json → Bool
is_problem none = false
is_problem (some v) = conforms false (input_of Codecs.problem_schema) v

-- A success is one that the operation declares, with the declared body; every other answer is a problem document as
-- the console reads it.
unfoldable pub allows : Operations.Operation → ℕ × Option Json → Bool
unfolding conforms input_of
allows op (status, content) =
    if ltb status 400
    then declared_by (find (λ a. nat_eq a.status status) op.responses) content
    else is_problem content

module _ {F : Type 0} where
  abbrev pub with_content : {A : Type 0} → (A → Json) → Reply A × Db F → (ℕ × Option Json) × Db F
  with_content f (reply, db) = (content_of f reply, db)

  -- `dispatch`, with the bodies of the answers.
  unfoldable pub answer : Platform F → Call → Option String → ℕ → Db F → (ℕ × Option Json) × Db F
  unfolding authed
  answer p hooks_list auth now db =
      with_content (items_json hook_json) (authed auth (list_hooks p.collate) db)
  answer p tenants_list auth now db =
      with_content (items_json tenant_json) (authed auth (list_tenants p.collate) db)
  answer p keys_list auth now db =
      with_content (items_json api_key_json) (authed auth (list_api_keys p.collate) db)
  answer p tenant_hooks_list auth now db =
      with_content (items_json (null_or tenant_hook_json)) (authed auth list_tenant_hooks db)
  answer p (hook_get name) auth now db = with_content hook_json (authed auth (get_hook name) db)
  answer p (tenant_get id) auth now db = with_content tenant_json (authed auth (get_tenant id) db)
  answer p (tenant_hook_get name) auth now db =
      with_content tenant_hook_json (authed auth (get_tenant_hook name) db)
  answer p (hook_create body) auth now db =
      with_content hook_json (authed auth (create_hook body now) db)
  answer p (hook_put name body) auth now db =
      with_content hook_json (authed auth (put_hook name body now) db)
  answer p (tenant_create body) auth now db =
      with_content tenant_json (authed auth (create_tenant body now) db)
  answer p (tenant_patch id body) auth now db =
      with_content tenant_json (authed auth (patch_tenant id body now) db)
  answer p (session_create id) auth now db =
      with_content console_session_json (authed auth (create_console_session p.encoder id now) db)
  answer p (invocations_list query) auth now db =
      with_content (items_json (invocation_json p.floats))
        (authed auth (list_invocations p.floats p.parse_date p.to_index query now) db)
  answer p (key_create body draws) auth now db =
      with_content api_key_created_json (authed auth (create_api_key body draws now) db)
  answer p (key_revoke id) auth now db =
      with_content (λ u. null) (authed auth (revoke_api_key id now) db)
  answer p (modules_list hook) auth now db =
      with_content (items_json module_json) (authed auth (list_modules p.collate hook now) db)
  answer p (module_upload hook field) auth now db =
      with_content module_json (authed auth (upload_module p.digest hook field now) db)
  answer p (binding_put hook body) auth now db =
      with_content binding_json (authed auth (put_binding hook body now) db)
