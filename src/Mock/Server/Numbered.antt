-- ===== src/Mock/Server/Numbered.antt =====
-- The log of invocations stays numbered from 1, whatever requests follow.
use wasm_hooks.Common.Int.{ℤ}
use wasm_hooks.Common.{ℕ, ◌≡◌, ap, sym, subst, String, List, [], ◌∷◌, Option, Bool-cases, inl, inr}
use wasm_hooks.Entity.Invocation.{Invocation}
use wasm_hooks.Mock.Db.{Db}
use wasm_hooks.Mock.Http.{Reply, authed, has_bearer}
use wasm_hooks.Mock.Tenants.{create_tenant, patch_tenant, list_tenants, get_tenant}
use wasm_hooks.Mock.ApiKeys.{create_api_key, revoke_api_key, list_api_keys}
use wasm_hooks.Mock.Hooks.{create_hook, put_hook, list_hooks, get_hook}
use wasm_hooks.Mock.Hooks.Frame.{create_hook-frame, put_hook-frame}
use wasm_hooks.Mock.Modules.{upload_module, list_modules}
use wasm_hooks.Mock.Bindings.{put_binding, list_tenant_hooks, get_tenant_hook}
use wasm_hooks.Mock.Server.Frames.{
  create_tenant-frame, create_api_key-frame, revoke_api_key-frame, patch_tenant-frame,
  list_modules-frame, upload_module-frame, put_binding-frame, get_hook-db,
  create_console_session-db, get_tenant-db, get_tenant_hook-db,
}
use wasm_hooks.Mock.Log.{list_invocations}
use wasm_hooks.Mock.Sessions.{create_console_session}
use wasm_hooks.Mock.Server.{
  Platform, Call, hooks_list, tenants_list, keys_list, tenant_hooks_list, hook_get, tenant_get,
  tenant_hook_get, hook_create, hook_put, tenant_create, tenant_patch, key_create, key_revoke,
  modules_list, module_upload, binding_put, session_create, invocations_list, Request, dispatch,
  serve, run,
}
use wasm_hooks.Mock.Log.Laws.{AreNumbered, tick-AreNumbered, initial_invocations-AreNumbered}
use wasm_hooks.Mock.Seed.{initial_state, seed_hash}

module _ {F : Type 0} (db : Db F) (v : AreNumbered 1 db.invocations) where
  keeps :
      {log : List (Invocation F)}
      → log ≡ db.invocations
      → AreNumbered 1 db.invocations
      → AreNumbered 1 log
  keeps e h = subst (AreNumbered 1) (sym e) h

  authed-AreNumbered :
      {A : Type 0} (auth : Option String) (resolver : Db F → Reply A × Db F)
      → AreNumbered 1 (resolver db).1.invocations
      → AreNumbered 1 (authed auth resolver db).1.invocations
  unfolding authed
  authed-AreNumbered auth resolver h = elim (Bool-cases (has_bearer db.api_keys auth)) [
    | inl known ↦ rw known h
    | inr unknown ↦ rw unknown v
  ]

  dispatch-AreNumbered :
      (p : Platform F) (c : Call) (auth : Option String) (now : ℕ)
      → AreNumbered 1 (dispatch p c auth now db).1.invocations
  unfolding dispatch list_hooks list_tenants list_api_keys list_tenant_hooks list_invocations
  dispatch-AreNumbered p hooks_list auth now = authed-AreNumbered auth (list_hooks p.collate) v
  dispatch-AreNumbered p tenants_list auth now = authed-AreNumbered auth (list_tenants p.collate) v
  dispatch-AreNumbered p keys_list auth now = authed-AreNumbered auth (list_api_keys p.collate) v
  dispatch-AreNumbered p tenant_hooks_list auth now = authed-AreNumbered auth list_tenant_hooks v
  dispatch-AreNumbered p (hook_get name) auth now =
      authed-AreNumbered auth (get_hook name) (rw (get_hook-db db name) v)
  dispatch-AreNumbered p (tenant_get id) auth now =
      authed-AreNumbered auth (get_tenant id) (rw (get_tenant-db db id) v)
  dispatch-AreNumbered p (tenant_hook_get name) auth now =
      authed-AreNumbered auth (get_tenant_hook name) (rw (get_tenant_hook-db db name) v)
  dispatch-AreNumbered p (session_create id) auth now =
      authed-AreNumbered auth (create_console_session p.encoder id now)
        (rw (create_console_session-db db p.encoder id now) v)
  dispatch-AreNumbered p (hook_create body) auth now =
      authed-AreNumbered auth (create_hook body now)
        (keeps (ap (λ d. d.invocations) (create_hook-frame db body now).0) v)
  dispatch-AreNumbered p (hook_put name body) auth now =
      authed-AreNumbered auth (put_hook name body now)
        (keeps (ap (λ d. d.invocations) (put_hook-frame db name body now).0) v)
  dispatch-AreNumbered p (tenant_create body) auth now =
      authed-AreNumbered auth (create_tenant body now)
        (keeps (ap (λ d. d.invocations) (create_tenant-frame db body now).0) v)
  dispatch-AreNumbered p (tenant_patch id body) auth now =
      authed-AreNumbered auth (patch_tenant id body now)
        (keeps (ap (λ d. d.invocations) (patch_tenant-frame db id body now).0) v)
  dispatch-AreNumbered p (key_create body draws) auth now =
      authed-AreNumbered auth (create_api_key body draws now)
        (keeps (ap (λ d. d.invocations) (create_api_key-frame db body draws now).0) v)
  dispatch-AreNumbered p (key_revoke id) auth now =
      authed-AreNumbered auth (revoke_api_key id now)
        (keeps (ap (λ d. d.invocations) (revoke_api_key-frame db id now).0) v)
  dispatch-AreNumbered p (modules_list hook) auth now =
      authed-AreNumbered auth (list_modules p.collate hook now)
        (keeps (ap (λ d. d.invocations) (list_modules-frame db p.collate hook now).0) v)
  dispatch-AreNumbered p (module_upload hook field) auth now =
      authed-AreNumbered auth (upload_module p.digest hook field now)
        (keeps (ap (λ d. d.invocations) (upload_module-frame db p.digest hook field now).0) v)
  dispatch-AreNumbered p (binding_put hook body) auth now =
      authed-AreNumbered auth (put_binding hook body now)
        (keeps (ap (λ d. d.invocations) (put_binding-frame db hook body now).0) v)
  dispatch-AreNumbered p (invocations_list query) auth now =
      authed-AreNumbered auth (list_invocations p.floats p.parse_date p.to_index query now)
        (tick-AreNumbered p.floats p.parse_date now db 1 v)

run-AreNumbered :
    {F : Type 0} (p : Platform F) (rs : List Request) (db : Db F)
    → AreNumbered 1 db.invocations
    → AreNumbered 1 (run p rs db).invocations
unfolding run serve
run-AreNumbered p [] db v = v
run-AreNumbered p (r ∷ rs) db v =
    run-AreNumbered p rs (serve p r db).1 (dispatch-AreNumbered db v p r.call r.authorization r.now)

-- Whatever requests the mock API serves from its initial state, the entries of its log are numbered 1, 2, 3 and so on.
pub reachable-AreNumbered :
    {F : Type 0} (p : Platform F) (now : ℕ) (seed : ℤ) (rs : List Request)
    → AreNumbered 1 (run p rs (initial_state p.floats now seed)).invocations
unfolding initial_state
reachable-AreNumbered p now seed rs =
    run-AreNumbered p rs _
      (initial_invocations-AreNumbered p.floats (seed_hash "9b7d04f1") now seed)
