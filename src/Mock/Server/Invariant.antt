-- ===== src/Mock/Server/Invariant.antt =====
-- Well-formedness of the state, from one request to any history of them.
use wasm_hooks.Common.{ℕ, String, List, [], ◌∷◌, Option, Bool-cases, inl, inr}
use wasm_hooks.Mock.Db.{Db}
use wasm_hooks.Mock.Http.{Reply, authed, has_bearer}
use wasm_hooks.Mock.Tenants.{create_tenant, patch_tenant, list_tenants, get_tenant}
use wasm_hooks.Mock.ApiKeys.{create_api_key, revoke_api_key, list_api_keys}
use wasm_hooks.Mock.Hooks.{create_hook, put_hook, list_hooks, get_hook}
use wasm_hooks.Mock.Modules.{upload_module, list_modules}
use wasm_hooks.Mock.Bindings.{put_binding, list_tenant_hooks, get_tenant_hook}
use wasm_hooks.Mock.Server.Frames.{
  get_hook-db, create_console_session-db, get_tenant-db, get_tenant_hook-db,
}
use wasm_hooks.Mock.Server.Valid.{
  IsValid, create_tenant-IsValid, patch_tenant-IsValid, create_api_key-IsValid,
  revoke_api_key-IsValid, create_hook-IsValid, put_hook-IsValid, list_modules-IsValid,
  upload_module-IsValid, put_binding-IsValid, list_invocations-IsValid,
}
use wasm_hooks.Mock.Log.{list_invocations}
use wasm_hooks.Mock.Sessions.{create_console_session}
use wasm_hooks.Mock.Server.{
  Platform, Call, hooks_list, tenants_list, keys_list, tenant_hooks_list, hook_get, tenant_get,
  tenant_hook_get, hook_create, hook_put, tenant_create, tenant_patch, key_create, key_revoke,
  modules_list, module_upload, binding_put, session_create, invocations_list, Request, dispatch,
  serve, run,
}

module _ {F : Type 0} (db : Db F) (v : IsValid db) where
  authed-IsValid :
      {A : Type 0} (auth : Option String) (resolver : Db F → Reply A × Db F)
      → IsValid (resolver db).1
      → IsValid (authed auth resolver db).1
  unfolding authed
  authed-IsValid auth resolver h = elim (Bool-cases (has_bearer db.api_keys auth)) [
    | inl known ↦ rw known h
    | inr unknown ↦ rw unknown v
  ]

  dispatch-IsValid :
      (p : Platform F) (c : Call) (auth : Option String) (now : ℕ)
      → IsValid (dispatch p c auth now db).1
  unfolding dispatch list_hooks list_tenants list_api_keys list_tenant_hooks get_hook get_tenant
      get_tenant_hook
  dispatch-IsValid p hooks_list auth now = authed-IsValid auth (list_hooks p.collate) v
  dispatch-IsValid p tenants_list auth now = authed-IsValid auth (list_tenants p.collate) v
  dispatch-IsValid p keys_list auth now = authed-IsValid auth (list_api_keys p.collate) v
  dispatch-IsValid p tenant_hooks_list auth now = authed-IsValid auth list_tenant_hooks v
  dispatch-IsValid p (hook_get name) auth now =
      authed-IsValid auth (get_hook name) (rw (get_hook-db db name) v)
  dispatch-IsValid p (tenant_get id) auth now =
      authed-IsValid auth (get_tenant id) (rw (get_tenant-db db id) v)
  dispatch-IsValid p (tenant_hook_get name) auth now =
      authed-IsValid auth (get_tenant_hook name) (rw (get_tenant_hook-db db name) v)
  dispatch-IsValid p (hook_create body) auth now =
      authed-IsValid auth (create_hook body now) (create_hook-IsValid db v body now)
  dispatch-IsValid p (hook_put name body) auth now =
      authed-IsValid auth (put_hook name body now) (put_hook-IsValid db v name body now)
  dispatch-IsValid p (tenant_create body) auth now =
      authed-IsValid auth (create_tenant body now) (create_tenant-IsValid db v body now)
  dispatch-IsValid p (tenant_patch id body) auth now =
      authed-IsValid auth (patch_tenant id body now) (patch_tenant-IsValid db v id body now)
  dispatch-IsValid p (session_create id) auth now =
      authed-IsValid auth (create_console_session p.encoder id now)
        (rw (create_console_session-db db p.encoder id now) v)
  dispatch-IsValid p (invocations_list query) auth now =
      authed-IsValid auth (list_invocations p.floats p.parse_date p.to_index query now)
        (list_invocations-IsValid db v p.floats p.parse_date p.to_index query now)
  dispatch-IsValid p (key_create body draws) auth now =
      authed-IsValid auth (create_api_key body draws now)
        (create_api_key-IsValid db v body draws now)
  dispatch-IsValid p (key_revoke id) auth now =
      authed-IsValid auth (revoke_api_key id now) (revoke_api_key-IsValid db v id now)
  dispatch-IsValid p (modules_list hook) auth now =
      authed-IsValid auth (list_modules p.collate hook now)
        (list_modules-IsValid db v p.collate hook now)
  dispatch-IsValid p (module_upload hook field) auth now =
      authed-IsValid auth (upload_module p.digest hook field now)
        (upload_module-IsValid db v p.digest hook field now)
  dispatch-IsValid p (binding_put hook body) auth now =
      authed-IsValid auth (put_binding hook body now) (put_binding-IsValid db v hook body now)

  -- A request keeps the state valid.
  pub serve-IsValid : (p : Platform F) (r : Request) → IsValid (serve p r db).1
  unfolding serve
  serve-IsValid p r = dispatch-IsValid p r.call r.authorization r.now

-- Every history of requests, well formed or not and authorised or not, keeps the state valid: tenants with identifiers within
-- their bounds and quotas that are not negative, keys and hooks with names that are distinct and within theirs, hooks with limits within
-- their ranges, modules whose reports agree with their status and whose content is new for their hook, and bindings to validated
-- modules of their hook.
pub run-IsValid :
    {F : Type 0} (p : Platform F) (rs : List Request) (db : Db F)
    → IsValid db
    → IsValid (run p rs db)
unfolding run
run-IsValid p [] db v = v
run-IsValid p (r ∷ rs) db v = run-IsValid p rs (serve p r db).1 (serve-IsValid db v p r)
