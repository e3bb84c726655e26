-- ===== src/Mock/Server/Refusals.antt =====
-- A refused request writes nothing.
use wasm_hooks.Common.{arith, ℕ, ◌≤◌, ◌≡◌, refl, String, Option, Bool-cases, inl, inr}
use wasm_hooks.Mock.Db.{Db}
use wasm_hooks.Mock.Http.{Reply, status_of, authed, has_bearer}
use wasm_hooks.Mock.Tenants.{create_tenant, patch_tenant, list_tenants, get_tenant}
use wasm_hooks.Mock.ApiKeys.{create_api_key, revoke_api_key, list_api_keys}
use wasm_hooks.Mock.Hooks.{create_hook, put_hook, list_hooks, get_hook}
use wasm_hooks.Mock.Hooks.Frame.{create_hook-frame, put_hook-frame}
use wasm_hooks.Mock.Modules.{upload_module, list_modules}
use wasm_hooks.Mock.Bindings.{put_binding, list_tenant_hooks, get_tenant_hook}
use wasm_hooks.Mock.Server.Frames.{
  create_tenant-frame, patch_tenant-frame, create_api_key-frame, revoke_api_key-frame,
  list_modules-frame, upload_module-frame, put_binding-frame, get_hook-db,
  create_console_session-db, get_tenant-db, get_tenant_hook-db,
}
use wasm_hooks.Mock.Log.{LogQuery, list_invocations}
use wasm_hooks.Mock.Sessions.{create_console_session}
use wasm_hooks.Mock.Server.{
  Platform, Call, hooks_list, tenants_list, keys_list, tenant_hooks_list, hook_get, tenant_get,
  tenant_hook_get, hook_create, hook_put, tenant_create, tenant_patch, key_create, key_revoke,
  modules_list, module_upload, binding_put, session_create, invocations_list, Request, dispatch,
  serve, outcome,
}

-- An outcome that is a refusal has left the state.
abbrev Spares : {F : Type 0} → Db F → ℕ × Db F → Type 0
Spares db (status, db') = 400 ≤ status → db' ≡ db

module _ {F : Type 0} (db : Db F) where
  authed-Spares :
      {A : Type 0} (auth : Option String) (resolver : Db F → Reply A × Db F)
      → (400 ≤ status_of (resolver db).0 → (resolver db).1 ≡ db)
      → Spares db (outcome (authed auth resolver db))
  unfolding authed
  authed-Spares auth resolver h = elim (Bool-cases (has_bearer db.api_keys auth)) [
    | inl known ↦ rw known h
    | inr unknown ↦ rw unknown (λ e. refl)
  ]

  late :
      (p : Platform F) (query : LogQuery) (now : ℕ)
      → 400 ≤ status_of (list_invocations p.floats p.parse_date p.to_index query now db).0
      → ⊥
  unfolding list_invocations
  late p query now h = omega arith

  dispatch-Spares :
      (p : Platform F) (c : Call) (auth : Option String) (now : ℕ)
      → Spares db (dispatch p c auth now db)
  unfolding dispatch list_hooks list_tenants list_api_keys list_tenant_hooks
  dispatch-Spares p hooks_list auth now = authed-Spares auth (list_hooks p.collate) (λ e. refl)
  dispatch-Spares p tenants_list auth now = authed-Spares auth (list_tenants p.collate) (λ e. refl)
  dispatch-Spares p keys_list auth now = authed-Spares auth (list_api_keys p.collate) (λ e. refl)
  dispatch-Spares p tenant_hooks_list auth now = authed-Spares auth list_tenant_hooks (λ e. refl)
  dispatch-Spares p (hook_get name) auth now =
      authed-Spares auth (get_hook name) (λ e. get_hook-db db name)
  dispatch-Spares p (tenant_get id) auth now =
      authed-Spares auth (get_tenant id) (λ e. get_tenant-db db id)
  dispatch-Spares p (tenant_hook_get name) auth now =
      authed-Spares auth (get_tenant_hook name) (λ e. get_tenant_hook-db db name)
  dispatch-Spares p (hook_create body) auth now =
      authed-Spares auth (create_hook body now) (create_hook-frame db body now).1
  dispatch-Spares p (hook_put name body) auth now =
      authed-Spares auth (put_hook name body now) (put_hook-frame db name body now).1
  dispatch-Spares p (tenant_create body) auth now =
      authed-Spares auth (create_tenant body now) (create_tenant-frame db body now).1
  dispatch-Spares p (tenant_patch id body) auth now =
      authed-Spares auth (patch_tenant id body now) (patch_tenant-frame db id body now).1
  dispatch-Spares p (session_create id) auth now =
      authed-Spares auth (create_console_session p.encoder id now)
        (λ e. create_console_session-db db p.encoder id now)
  dispatch-Spares p (invocations_list query) auth now =
      authed-Spares auth (list_invocations p.floats p.parse_date p.to_index query now)
        (λ e. absurd (late p query now e))
  dispatch-Spares p (key_create body draws) auth now =
      authed-Spares auth (create_api_key body draws now) (create_api_key-frame db body draws now).1
  dispatch-Spares p (key_revoke id) auth now =
      authed-Spares auth (revoke_api_key id now) (revoke_api_key-frame db id now).1
  dispatch-Spares p (modules_list hook) auth now =
      authed-Spares auth (list_modules p.collate hook now)
        (list_modules-frame db p.collate hook now).1
  dispatch-Spares p (module_upload hook field) auth now =
      authed-Spares auth (upload_module p.digest hook field now)
        (upload_module-frame db p.digest hook field now).1
  dispatch-Spares p (binding_put hook body) auth now =
      authed-Spares auth (put_binding hook body now) (put_binding-frame db hook body now).1

-- A request that is answered with a status of 400 or more leaves the state as it was.
pub serve_refused :
    {F : Type 0} (p : Platform F) (r : Request) (db : Db F)
    → 400 ≤ (serve p r db).0
    → (serve p r db).1 ≡ db
unfolding serve
serve_refused p r db h = dispatch-Spares db p r.call r.authorization r.now h
