-- ===== src/Mock/Server/Valid.antt =====
-- The state of the mock API stays well formed through every request.
use wasm_hooks.Common.{ℕ, sym, subst, String, Bool, List, arith, length}
use wasm_hooks.Json.{Record}
use wasm_hooks.Mock.Db.{Db}
use wasm_hooks.Mock.Tenants.{create_tenant, patch_tenant}
use wasm_hooks.Mock.Tenants.Valid.{TenantsAreValid, create_tenant-AreValid, patch_tenant-AreValid}
use wasm_hooks.Mock.ApiKeys.{Draws, create_api_key, revoke_api_key}
use wasm_hooks.Mock.ApiKeys.Valid.{KeysAreValid, create_api_key-AreValid, revoke_api_key-AreValid}
use wasm_hooks.Mock.Hooks.{create_hook, put_hook}
use wasm_hooks.Mock.Hooks.Valid.{HooksAreValid, create_hook-AreValid, put_hook-AreValid}
use wasm_hooks.Mock.Hooks.Frame.{create_hook-frame, put_hook-frame}
use wasm_hooks.Mock.Modules.{
  FormField, absent, text, file, upload_module, upload_file, store_module, list_modules, new_module,
  content_hash_of,
}
use wasm_hooks.Mock.Modules.Laws.{ModulesAreValid, upload_module-AreValid, list_modules-AreValid}
use wasm_hooks.Mock.Bindings.{BindingUpdate, put_binding}
use wasm_hooks.Mock.Bindings.Active.{
  BindingsAreValid, BindingsAreValid-settle, BindingsAreValid-append,
}
use wasm_hooks.Mock.Bindings.Preserve.{put_binding-AreValid}
use wasm_hooks.Common.{Option}
use wasm_hooks.Common.Int.{ℤ}
use wasm_hooks.Mock.Log.{Floats, LogQuery, list_invocations}
use wasm_hooks.Mock.Server.Frames.{
  create_tenant-frame, patch_tenant-frame, create_api_key-frame, revoke_api_key-frame,
  list_modules-frame, list_invocations-frame, upload_module-frame, put_binding-frame,
}

pub record IsValid {F : Type 0} (db : Db F) : Type 0 where
  pub tenants_valid : TenantsAreValid db.tenants
  pub keys_valid : KeysAreValid db.api_keys
  pub hooks_valid : HooksAreValid db.hooks
  pub modules_valid : ModulesAreValid db.modules
  pub bindings_valid : BindingsAreValid db.modules db.bindings

module _ {F : Type 0} (db : Db F) (v : IsValid db) where
  pub create_tenant-IsValid : (body : Record) (now : ℕ) → IsValid (create_tenant body now db).1
  create_tenant-IsValid body now = subst IsValid (sym (create_tenant-frame db body now).0) (record {
    tenants_valid = create_tenant-AreValid db v.tenants_valid body now;
    keys_valid = v.keys_valid;
    hooks_valid = v.hooks_valid;
    modules_valid = v.modules_valid;
    bindings_valid = v.bindings_valid;
  })

  pub patch_tenant-IsValid :
      (id : String) (body : Record) (now : ℕ) → IsValid (patch_tenant id body now db).1
  patch_tenant-IsValid id body now =
      subst IsValid (sym (patch_tenant-frame db id body now).0) (record {
        tenants_valid = patch_tenant-AreValid db v.tenants_valid id body now;
        keys_valid = v.keys_valid;
        hooks_valid = v.hooks_valid;
        modules_valid = v.modules_valid;
        bindings_valid = v.bindings_valid;
      })

  pub create_api_key-IsValid :
      (body : Record) (draws : Draws) (now : ℕ) → IsValid (create_api_key body draws now db).1
  create_api_key-IsValid body draws now =
      subst IsValid (sym (create_api_key-frame db body draws now).0) (record {
        tenants_valid = v.tenants_valid;
        keys_valid = create_api_key-AreValid db v.keys_valid body draws now;
        hooks_valid = v.hooks_valid;
        modules_valid = v.modules_valid;
        bindings_valid = v.bindings_valid;
      })

  pub revoke_api_key-IsValid : (id : String) (now : ℕ) → IsValid (revoke_api_key id now db).1
  revoke_api_key-IsValid id now = subst IsValid (sym (revoke_api_key-frame db id now).0) (record {
    tenants_valid = v.tenants_valid;
    keys_valid = revoke_api_key-AreValid db v.keys_valid id now;
    hooks_valid = v.hooks_valid;
    modules_valid = v.modules_valid;
    bindings_valid = v.bindings_valid;
  })

  pub create_hook-IsValid : (body : Record) (now : ℕ) → IsValid (create_hook body now db).1
  create_hook-IsValid body now = subst IsValid (sym (create_hook-frame db body now).0) (record {
    tenants_valid = v.tenants_valid;
    keys_valid = v.keys_valid;
    hooks_valid = create_hook-AreValid db v.hooks_valid body now;
    modules_valid = v.modules_valid;
    bindings_valid = v.bindings_valid;
  })

  pub put_hook-IsValid :
      (name : String) (body : Record) (now : ℕ) → IsValid (put_hook name body now db).1
  put_hook-IsValid name body now = subst IsValid (sym (put_hook-frame db name body now).0) (record {
    tenants_valid = v.tenants_valid;
    keys_valid = v.keys_valid;
    hooks_valid = put_hook-AreValid db v.hooks_valid name body now;
    modules_valid = v.modules_valid;
    bindings_valid = v.bindings_valid;
  })

  list_modules-bindings :
      (collate : String → String → Bool) (name : String) (now : ℕ)
      → BindingsAreValid (list_modules collate name now db).1.modules db.bindings
  unfolding list_modules
  list_modules-bindings collate name now =
      ground (
        arith,
        v.bindings_valid,
        BindingsAreValid-settle now db.modules db.bindings v.bindings_valid,
      )

  pub list_modules-IsValid :
      (collate : String → String → Bool) (name : String) (now : ℕ)
      → IsValid (list_modules collate name now db).1
  list_modules-IsValid collate name now =
      subst IsValid (sym (list_modules-frame db collate name now).0) (record {
        tenants_valid = v.tenants_valid;
        keys_valid = v.keys_valid;
        hooks_valid = v.hooks_valid;
        modules_valid = list_modules-AreValid db v.modules_valid collate name now;
        bindings_valid = list_modules-bindings collate name now;
      })

  store_module-bindings :
      (name hash : String) (size : ℕ) (file_name : String) (now : ℕ)
      → BindingsAreValid (store_module name hash size file_name now db).1.modules db.bindings
  unfolding store_module
  store_module-bindings name hash size file_name now = ground (
    arith,
    v.bindings_valid,
    BindingsAreValid-append db.modules (new_module (length db.modules) name hash size file_name now)
        db.bindings v.bindings_valid,
  )

  upload_module-bindings :
      (digest : List ℕ → List ℕ) (name : String) (field : FormField) (now : ℕ)
      → BindingsAreValid (upload_module digest name field now db).1.modules db.bindings
  unfolding upload_module upload_file
  upload_module-bindings digest name absent now = ground (arith, v.bindings_valid)
  upload_module-bindings digest name (text s) now = ground (arith, v.bindings_valid)
  upload_module-bindings digest name (file f) now = ground (
    arith,
    v.bindings_valid,
    store_module-bindings name (content_hash_of digest f.bytes) (length f.bytes) f.file_name now,
  )

  pub upload_module-IsValid :
      (digest : List ℕ → List ℕ) (name : String) (field : FormField) (now : ℕ)
      → IsValid (upload_module digest name field now db).1
  upload_module-IsValid digest name field now =
      subst IsValid (sym (upload_module-frame db digest name field now).0) (record {
        tenants_valid = v.tenants_valid;
        keys_valid = v.keys_valid;
        hooks_valid = v.hooks_valid;
        modules_valid = upload_module-AreValid db v.modules_valid digest name field now;
        bindings_valid = upload_module-bindings digest name field now;
      })

  pub list_invocations-IsValid :
      (floats : Floats F) (parse_date : String → Option ℕ) (to_index : String → ℤ)
      (query : LogQuery) (now : ℕ)
      → IsValid (list_invocations floats parse_date to_index query now db).1
  list_invocations-IsValid floats parse_date to_index query now =
      subst IsValid (sym (list_invocations-frame db floats parse_date to_index query now)) (record {
        tenants_valid = v.tenants_valid;
        keys_valid = v.keys_valid;
        hooks_valid = v.hooks_valid;
        modules_valid = v.modules_valid;
        bindings_valid = v.bindings_valid;
      })

  pub put_binding-IsValid :
      (name : String) (body : BindingUpdate) (now : ℕ) → IsValid (put_binding name body now db).1
  put_binding-IsValid name body now =
      subst IsValid (sym (put_binding-frame db name body now).0) (record {
        tenants_valid = v.tenants_valid;
        keys_valid = v.keys_valid;
        hooks_valid = v.hooks_valid;
        modules_valid = v.modules_valid;
        bindings_valid = put_binding-AreValid db v.bindings_valid name now body;
      })
