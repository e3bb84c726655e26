-- ===== src/Mock/Server.antt =====
-- web/src/mocks/handlers.ts: the table of handlers, as one step of the mock API. Every handler is wrapped by
-- `authed`.
pub mod Frames
pub mod Valid
pub mod Invariant
pub mod Revoked
pub mod Numbered
pub mod Refusals
pub mod Answers
pub mod Conforms
use wasm_hooks.Common.{ℕ, String, Bool, List, [], ◌∷◌, Option}
use wasm_hooks.Json.{Record}
use wasm_hooks.Mock.Db.{Db}
use wasm_hooks.Mock.Http.{Reply, status_of, authed}
use wasm_hooks.Mock.Tenants.{list_tenants, get_tenant, create_tenant, patch_tenant}
use wasm_hooks.Mock.ApiKeys.{Draws, list_api_keys, create_api_key, revoke_api_key}
use wasm_hooks.Mock.Hooks.{list_hooks, get_hook, create_hook, put_hook}
use wasm_hooks.Mock.Modules.{FormField, list_modules, upload_module}
use wasm_hooks.Common.Int.{ℤ}
use wasm_hooks.Mock.Log.{Floats, LogQuery, list_invocations}
use wasm_hooks.Mock.Sessions.{Encoder, create_console_session}
use wasm_hooks.Mock.Bindings.{BindingUpdate, list_tenant_hooks, get_tenant_hook, put_binding}

-- What the browser brings: `localeCompare` as a test, SHA-256, `btoa` and `TextEncoder`, floating-point numbers,
-- `Date.parse`, and `Number` of a text as an index of `slice`.
pub record Platform (F : Type 0) : Type 0 where
  pub collate : String → String → Bool
  pub digest : List ℕ → List ℕ
  pub encoder : Encoder
  pub floats : Floats F
  pub parse_date : String → Option ℕ
  pub to_index : String → ℤ

pub data Call : Type 0 where
  hooks_list tenants_list keys_list tenant_hooks_list : Call
  hook_get tenant_get tenant_hook_get : (name : String) → Call
  hook_create : Record → Call
  hook_put : (name : String) → Record → Call
  tenant_create : Record → Call
  tenant_patch : (external_id : String) → Record → Call
  session_create : (external_id : String) → Call
  invocations_list : LogQuery → Call
  key_create : Record → Draws → Call
  key_revoke : (id : String) → Call
  modules_list : (hook : String) → Call
  module_upload : (hook : String) → FormField → Call
  binding_put : (hook : String) → BindingUpdate → Call

-- A request: the call, its `Authorization` header and its time.
pub record Request : Type 0 where
  pub call : Call
  pub authorization : Option String
  pub now : ℕ

module _ {F : Type 0} where
  -- The status of a reply, and the state that it leaves.
  abbrev pub outcome : {A : Type 0} → Reply A × Db F → ℕ × Db F
  outcome (reply, db) = (status_of reply, db)

  -- A handler behind `authed`.
  unfoldable pub dispatch : Platform F → Call → Option String → ℕ → Db F → ℕ × Db F
  unfolding authed
  dispatch p hooks_list auth now db = outcome (authed auth (list_hooks p.collate) db)
  dispatch p tenants_list auth now db = outcome (authed auth (list_tenants p.collate) db)
  dispatch p keys_list auth now db = outcome (authed auth (list_api_keys p.collate) db)
  dispatch p tenant_hooks_list auth now db = outcome (authed auth list_tenant_hooks db)
  dispatch p (hook_get name) auth now db = outcome (authed auth (get_hook name) db)
  dispatch p (tenant_get id) auth now db = outcome (authed auth (get_tenant id) db)
  dispatch p (tenant_hook_get name) auth now db = outcome (authed auth (get_tenant_hook name) db)
  dispatch p (hook_create body) auth now db = outcome (authed auth (create_hook body now) db)
  dispatch p (hook_put name body) auth now db = outcome (authed auth (put_hook name body now) db)
  dispatch p (tenant_create body) auth now db = outcome (authed auth (create_tenant body now) db)
  dispatch p (tenant_patch id body) auth now db =
      outcome (authed auth (patch_tenant id body now) db)
  dispatch p (session_create id) auth now db =
      outcome (authed auth (create_console_session p.encoder id now) db)
  dispatch p (invocations_list query) auth now db =
      outcome (authed auth (list_invocations p.floats p.parse_date p.to_index query now) db)
  dispatch p (key_create body draws) auth now db =
      outcome (authed auth (create_api_key body draws now) db)
  dispatch p (key_revoke id) auth now db = outcome (authed auth (revoke_api_key id now) db)
  dispatch p (modules_list hook) auth now db =
      outcome (authed auth (list_modules p.collate hook now) db)
  dispatch p (module_upload hook field) auth now db =
      outcome (authed auth (upload_module p.digest hook field now) db)
  dispatch p (binding_put hook body) auth now db =
      outcome (authed auth (put_binding hook body now) db)

  unfoldable pub serve : Platform F → Request → Db F → ℕ × Db F
  unfolding dispatch
  serve p r db = dispatch p r.call r.authorization r.now db

  -- The state after a history of requests.
  unfoldable pub run : Platform F → List Request → Db F → Db F
  unfolding serve
  run p [] db = db
  run p (r ∷ rs) db = run p rs (serve p r db).1
