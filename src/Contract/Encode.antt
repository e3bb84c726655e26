-- ===== src/Contract/Encode.antt =====
-- The JSON texts of what the mock API answers with, `HttpResponse.json(value)`: an object has the properties of the
-- value, and one that is `undefined` is left out.
pub mod Conforms
use wasm_hooks.Common.{ℕ, String, Bool, List, [], ◌∷◌, ◌++◌, map, Option, none, some}
use wasm_hooks.Common.Int.{pos}
use wasm_hooks.Json.{Json, null, bool, whole, str, arr, obj, Record, of_props, of_elems}
use wasm_hooks.Entity.Hook.{OperatorHook, Binding, TenantHook}
use wasm_hooks.Entity.Module.{
  Module, ModuleStatus, status_text, ValidationReport, ValidationCheck, CheckName, fetch, compile,
  exports, imports, sample_call,
}
use wasm_hooks.Entity.Tenant.{Tenant, ConsoleSession}
use wasm_hooks.Entity.ApiKey.{ApiKey, ApiKeyCreated}
use wasm_hooks.Common.Int.{ℤ}
use wasm_hooks.Entity.Invocation.{Invocation, outcome_text}
use wasm_hooks.Mock.Log.{Floats}
use wasm_hooks.Json.{fraction}
use wasm_hooks.Mock.Http.{Reply, json, problem, no_content}

abbrev pub null_or : {A : Type 0} → (A → Json) → Option A → Json
null_or f none = null
null_or f (some a) = f a

abbrev pub defined : String → Option String → Record
defined key none = []
defined key (some s) = (key, str s) ∷ []

abbrev pub strings : List String → Json
strings ss = arr (of_elems (map (λ s. str s) ss))

abbrev pub items_json : {A : Type 0} → (A → Json) → List A → Json
items_json f xs = obj (of_props (("items", arr (of_elems (map f xs))) ∷ []))

abbrev pub tenant_json : Tenant → Json
tenant_json t = obj (
    of_props (
      ("external_id", str t.external_id)
      ∷ ("name", str t.name)
      ∷ ("rate_limit_rps", whole t.rate_limit_rps)
      ∷ ("concurrency_limit", whole t.concurrency_limit)
      ∷ ("created_at", str t.created_at)
      ∷ ("updated_at", str t.updated_at)
      ∷ []))

abbrev pub console_session_json : ConsoleSession → Json
console_session_json s =
    obj (of_props (("token", str s.token) ∷ ("expires_at", str s.expires_at) ∷ []))

abbrev pub api_key_json : ApiKey → Json
api_key_json k = obj (
    of_props (
      ("id", str k.id)
      ∷ ("name", str k.name)
      ∷ ("created_at", str k.created_at)
      ∷ ("revoked_at", null_or (λ s. str s) k.revoked_at)
      ∷ []))

abbrev pub api_key_created_json : ApiKeyCreated → Json
api_key_created_json k = obj (
    of_props (
      ("id", str k.id)
      ∷ ("name", str k.name)
      ∷ ("created_at", str k.created_at)
      ∷ ("revoked_at", null_or (λ s. str s) k.revoked_at)
      ∷ ("token", str k.token)
      ∷ []))

abbrev pub hook_json : OperatorHook → Json
hook_json h = obj (
    of_props (
      ("name", str h.name)
      ∷ ("def_version", whole (pos h.def_version))
      ∷ ("created_at", str h.created_at)
      ∷ ("updated_at", str h.updated_at)
      ∷ ("input_schema", obj (of_props h.input_schema))
      ∷ ("output_schema", obj (of_props h.output_schema))
      ∷ ("timeout_ms", whole h.timeout_ms)
      ∷ ("memory_max_pages", whole h.memory_max_pages)
      ∷ ("sample_input", obj (of_props h.sample_input))
      ∷ ("allowed_host_functions", strings h.allowed_host_functions)
      ∷ ("allowed_effect_types", strings h.allowed_effect_types)
      ∷ []))

abbrev pub binding_json : Binding → Json
binding_json b = obj (
    of_props (
      ("active_module_id", null_or (λ s. str s) b.active_module_id)
      ∷ ("active_module_hash", null_or (λ s. str s) b.active_module_hash)
      ∷ ("config", obj (of_props (map (λ e. (e.0, str e.1)) b.config)))
      ∷ ("config_version", whole (pos b.config_version))
      ∷ ("updated_at", str b.updated_at)
      ∷ []))

abbrev pub tenant_hook_json : TenantHook → Json
tenant_hook_json h =
    obj (of_props (("hook", hook_json h.hook) ∷ ("binding", null_or binding_json h.binding) ∷ []))

abbrev pub check_name_text : CheckName → String
check_name_text fetch = "fetch"
check_name_text compile = "compile"
check_name_text exports = "exports"
check_name_text imports = "imports"
check_name_text sample_call = "sample_call"

abbrev pub check_json : ValidationCheck → Json
check_json c = obj (
    of_props
      (("name", str (check_name_text c.name)) ∷ ("ok", bool c.ok) ∷ defined "detail" c.detail))

abbrev pub report_json : ValidationReport → Json
report_json r =
    obj (of_props (("ok", bool r.ok) ∷ ("checks", arr (of_elems (map check_json r.checks))) ∷ []))

abbrev pub module_json : Module → Json
module_json m = obj (
    of_props (
      ("id", str m.id)
      ∷ ("hook", str m.hook)
      ∷ ("content_hash", str m.content_hash)
      ∷ ("size_bytes", whole (pos m.size_bytes))
      ∷ ("status", str (status_text m.status))
      ∷ ("validation_report", null_or report_json m.validation_report)
      ∷ ("uploaded_at", str m.uploaded_at)
      ∷ []))

-- `problem(status, title, detail)`
abbrev pub problem_json : ℕ → String → Option String → Json
problem_json status title detail = obj (
    of_props (
      ("type", str "about:blank")
      ∷ ("title", str title)
      ∷ ("status", whole (pos status))
      ∷ defined "detail" detail))

-- The status and the body of a reply.
abbrev pub content_of : {A : Type 0} → (A → Json) → Reply A → ℕ × Option Json
content_of f (json status a) = (status, some (f a))
content_of f (problem status title detail headers) =
    (status, some (problem_json status title detail))
content_of f no_content = (204, none)

abbrev pub number_json : Option ℤ → String → Json
number_json none text = fraction text
number_json (some z) text = whole z

unfoldable pub invocation_json : {F : Type 0} → Floats F → Invocation F → Json
unfolding outcome_text
invocation_json floats i = obj (
    of_props (
      ("seq", whole (pos i.seq))
      ∷ ("ts", str i.ts)
      ∷ ("hook", str i.hook)
      ∷ ("module_hash", null_or (λ s. str s) i.module_hash)
      ∷ ("outcome", str (outcome_text i.outcome))
      ∷ ("reason", null_or (λ s. str s) i.reason)
      ∷ ("error", null_or (λ s. str s) i.error)
      ∷ ("duration_ms", number_json (floats.to_integer i.duration_ms) (floats.print i.duration_ms))
      ∷ ("cold_start", bool i.cold_start)
      ∷ ("idempotency_key", null_or (λ s. str s) i.idempotency_key)
      ∷ ("logs", strings i.logs)
      ∷ []))
