-- ===== src/Mock/Server/Revoked.antt =====
-- A revoked key stays revoked, whatever requests follow.
use wasm_hooks.Common.{
  ℕ, ◌≡◌, refl, ap, sym, subst, String, false, List, [], ◌∷◌, Option, some, Bool-cases, inl, inr,
  find,
}
use wasm_hooks.Mock.Db.{Db, StoredApiKey}
use wasm_hooks.Mock.Http.{Reply, authed, has_bearer, bearer_token}
use wasm_hooks.Mock.Tenants.{create_tenant, patch_tenant, list_tenants, get_tenant}
use wasm_hooks.Mock.ApiKeys.{create_api_key, revoke_api_key, list_api_keys, has_id}
use wasm_hooks.Mock.ApiKeys.Laws.{
  Refuses, create_api_key-Refuses, revoke_api_key-Refuses, revoke_api_key-revokes,
}
use wasm_hooks.Mock.ApiKeys.Valid.{KeysAreValid}
use wasm_hooks.Mock.Hooks.{create_hook, put_hook, list_hooks, get_hook}
use wasm_hooks.Mock.Hooks.Frame.{create_hook-frame, put_hook-frame}
use wasm_hooks.Mock.Modules.{upload_module, list_modules}
use wasm_hooks.Mock.Bindings.{put_binding, list_tenant_hooks, get_tenant_hook}
use wasm_hooks.Mock.Server.Frames.{
  create_tenant-frame, patch_tenant-frame, list_modules-frame, upload_module-frame,
  put_binding-frame, get_hook-db, create_console_session-db, list_invocations-frame, get_tenant-db,
  get_tenant_hook-db,
}
use wasm_hooks.Mock.Log.{list_invocations}
use wasm_hooks.Mock.Sessions.{create_console_session}
use wasm_hooks.Mock.Server.{
  Platform, Call, hooks_list, tenants_list, keys_list, tenant_hooks_list, hook_get, tenant_get,
  tenant_hook_get, hook_create, hook_put, tenant_create, tenant_patch, key_create, key_revoke,
  modules_list, module_upload, binding_put, session_create, invocations_list, Request, dispatch,
  serve, run,
}

keeps :
    (token : String) {ks ks' : List StoredApiKey} → ks' ≡ ks → Refuses token ks → Refuses token ks'
keeps token e h = subst (Refuses token) (sym e) h

module _ {F : Type 0} (token : String) where
  authed-Refuses :
      (db : Db F)
      → Refuses token db.api_keys
      → {A : Type 0} (auth : Option String) (resolver : Db F → Reply A × Db F)
      → Refuses token (resolver db).1.api_keys
      → Refuses token (authed auth resolver db).1.api_keys
  unfolding authed
  authed-Refuses db v auth resolver h = elim (Bool-cases (has_bearer db.api_keys auth)) [
    | inl known ↦ rw known h
    | inr unknown ↦ rw unknown v
  ]

  dispatch-Refuses :
      (p : Platform F) (c : Call) (auth : Option String) (now : ℕ) (db : Db F)
      → Refuses token db.api_keys
      → Refuses token (dispatch p c auth now db).1.api_keys
  unfolding dispatch list_hooks list_tenants list_api_keys list_tenant_hooks
  dispatch-Refuses p hooks_list auth now db v = authed-Refuses db v auth (list_hooks p.collate) v
  dispatch-Refuses p tenants_list auth now db v =
      authed-Refuses db v auth (list_tenants p.collate) v
  dispatch-Refuses p keys_list auth now db v = authed-Refuses db v auth (list_api_keys p.collate) v
  dispatch-Refuses p tenant_hooks_list auth now db v = authed-Refuses db v auth list_tenant_hooks v
  dispatch-Refuses p (hook_get name) auth now db v =
      authed-Refuses db v auth (get_hook name) (rw (get_hook-db db name) v)
  dispatch-Refuses p (tenant_get id) auth now db v =
      authed-Refuses db v auth (get_tenant id) (rw (get_tenant-db db id) v)
  dispatch-Refuses p (tenant_hook_get name) auth now db v =
      authed-Refuses db v auth (get_tenant_hook name) (rw (get_tenant_hook-db db name) v)
  dispatch-Refuses p (hook_create body) auth now db v =
      authed-Refuses db v auth (create_hook body now)
        (keeps token (ap (λ d. d.api_keys) (create_hook-frame db body now).0) v)
  dispatch-Refuses p (hook_put name body) auth now db v =
      authed-Refuses db v auth (put_hook name body now)
        (keeps token (ap (λ d. d.api_keys) (put_hook-frame db name body now).0) v)
  dispatch-Refuses p (tenant_create body) auth now db v =
      authed-Refuses db v auth (create_tenant body now)
        (keeps token (ap (λ d. d.api_keys) (create_tenant-frame db body now).0) v)
  dispatch-Refuses p (tenant_patch id body) auth now db v =
      authed-Refuses db v auth (patch_tenant id body now)
        (keeps token (ap (λ d. d.api_keys) (patch_tenant-frame db id body now).0) v)
  dispatch-Refuses p (session_create id) auth now db v =
      authed-Refuses db v auth (create_console_session p.encoder id now)
        (rw (create_console_session-db db p.encoder id now) v)
  dispatch-Refuses p (invocations_list query) auth now db v =
      authed-Refuses db v auth (list_invocations p.floats p.parse_date p.to_index query now) (
        keeps token
          (ap (λ d. d.api_keys)
            (list_invocations-frame db p.floats p.parse_date p.to_index query now))
          v)
  dispatch-Refuses p (key_create body draws) auth now db v =
      authed-Refuses db v auth (create_api_key body draws now)
        (create_api_key-Refuses db token body draws now v)
  dispatch-Refuses p (key_revoke id) auth now db v =
      authed-Refuses db v auth (revoke_api_key id now) (revoke_api_key-Refuses db token id now v)
  dispatch-Refuses p (modules_list hook) auth now db v =
      authed-Refuses db v auth (list_modules p.collate hook now)
        (keeps token (ap (λ d. d.api_keys) (list_modules-frame db p.collate hook now).0) v)
  dispatch-Refuses p (module_upload hook field) auth now db v =
      authed-Refuses db v auth (upload_module p.digest hook field now)
        (keeps token (ap (λ d. d.api_keys) (upload_module-frame db p.digest hook field now).0) v)
  dispatch-Refuses p (binding_put hook body) auth now db v =
      authed-Refuses db v auth (put_binding hook body now)
        (keeps token (ap (λ d. d.api_keys) (put_binding-frame db hook body now).0) v)

  run-Refuses :
      (p : Platform F) (rs : List Request) (db : Db F)
      → Refuses token db.api_keys
      → Refuses token (run p rs db).api_keys
  unfolding run serve
  run-Refuses p [] db v = v
  run-Refuses p (r ∷ rs) db v =
      run-Refuses p rs (serve p r db).1 (dispatch-Refuses p r.call r.authorization r.now db v)

denied :
    {F : Type 0} (p : Platform F) (auth : Option String) (now : ℕ) (db : Db F)
    → has_bearer db.api_keys auth ≡ false
    → (c : Call) → dispatch p c auth now db ≡ (401, db)
unfolding dispatch authed
denied p auth now db h hooks_list = rw h refl
denied p auth now db h _ = rw h refl

-- A request without a usable bearer token is answered 401, whatever it asks for, and changes nothing.
pub serve_unauthorized :
    {F : Type 0} (p : Platform F) (r : Request) (db : Db F)
    → has_bearer db.api_keys r.authorization ≡ false
    → serve p r db ≡ (401, db)
unfolding serve
serve_unauthorized p r db h = denied p r.authorization r.now db h r.call

Refuses-has_bearer :
    (ks : List StoredApiKey) (token header : String)
    → Refuses token ks
    → bearer_token header ≡ some token
    → has_bearer ks (some header) ≡ false
unfolding has_bearer
Refuses-has_bearer ks token header h e = rw e (rw h refl)

-- Once a key is revoked, every later request that bears its token is answered 401 and changes nothing,
-- whatever requests came between.
pub revoked_forever :
    {F : Type 0} (p : Platform F) (db : Db F) (id : String) (at : ℕ) (k : StoredApiKey)
    (rs : List Request) (r : Request) (header : String)
    → KeysAreValid db.api_keys
    → find (has_id id) db.api_keys ≡ some k
    → r.authorization ≡ some header
    → bearer_token header ≡ some k.token
    → let after = run p rs (revoke_api_key id at db).1 in serve p r after ≡ (401, after)
revoked_forever p db id at k rs r header v found bears token =
    serve_unauthorized p r (run p rs (revoke_api_key id at db).1) (
      rw bears (
        Refuses-has_bearer _ k.token header
          (run-Refuses k.token p rs (revoke_api_key id at db).1
            (revoke_api_key-revokes db k.token id at k v found refl))
          token))
