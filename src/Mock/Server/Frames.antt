-- ===== src/Mock/Server/Frames.antt =====
-- What each handler writes: one part of the state, and nothing when it refuses.
use wasm_hooks.Common.{Option, ℕ, ◌≤◌, ◌≡◌, String, Bool, List, arith}
use wasm_hooks.Json.{Record}
use wasm_hooks.Mock.Db.{Db}
use wasm_hooks.Mock.Http.{Reply, status_of}
use wasm_hooks.Mock.Tenants.{create_tenant, patch_tenant, get_tenant}
use wasm_hooks.Mock.Hooks.{get_hook}
use wasm_hooks.Mock.ApiKeys.{Draws, create_api_key, revoke_api_key}
use wasm_hooks.Mock.Modules.{FormField, upload_module, list_modules}
use wasm_hooks.Common.Int.{ℤ}
use wasm_hooks.Mock.Log.{Floats, LogQuery, list_invocations}
use wasm_hooks.Mock.Log.Laws.{tick-frame}
use wasm_hooks.Mock.Sessions.{Encoder, create_console_session}
use wasm_hooks.Mock.Bindings.{BindingUpdate, put_binding, get_tenant_hook}

module _ {F : Type 0} (db : Db F) where
  -- The tenants alone, written only by a success.
  abbrev pub WritesTenants : {A : Type 0} → Reply A × Db F → Type 0
  WritesTenants (reply, db') =
      (db' ≡ record db { tenants = db'.tenants }) × (400 ≤ status_of reply → db' ≡ db)

  pub create_tenant-frame : (body : Record) (now : ℕ) → WritesTenants (create_tenant body now db)
  unfolding create_tenant
  create_tenant-frame body now = ground arith

  pub patch_tenant-frame :
      (id : String) (body : Record) (now : ℕ) → WritesTenants (patch_tenant id body now db)
  unfolding patch_tenant
  patch_tenant-frame id body now = ground arith

  abbrev pub WritesKeys : {A : Type 0} → Reply A × Db F → Type 0
  WritesKeys (reply, db') =
      (db' ≡ record db { api_keys = db'.api_keys }) × (400 ≤ status_of reply → db' ≡ db)

  pub create_api_key-frame :
      (body : Record) (draws : Draws) (now : ℕ) → WritesKeys (create_api_key body draws now db)
  unfolding create_api_key
  create_api_key-frame body draws now = ground arith

  pub revoke_api_key-frame : (id : String) (now : ℕ) → WritesKeys (revoke_api_key id now db)
  unfolding revoke_api_key
  revoke_api_key-frame id now = ground arith

  abbrev pub WritesModules : {A : Type 0} → Reply A × Db F → Type 0
  WritesModules (reply, db') =
      (db' ≡ record db { modules = db'.modules }) × (400 ≤ status_of reply → db' ≡ db)

  pub list_modules-frame :
      (collate : String → String → Bool) (name : String) (now : ℕ)
      → WritesModules (list_modules collate name now db)
  unfolding list_modules
  list_modules-frame collate name now = ground arith

  pub upload_module-frame :
      (digest : List ℕ → List ℕ) (name : String) (field : FormField) (now : ℕ)
      → WritesModules (upload_module digest name field now db)
  unfolding upload_module
  upload_module-frame digest name field now = ground arith

  abbrev pub WritesBindings : {A : Type 0} → Reply A × Db F → Type 0
  WritesBindings (reply, db') =
      (db' ≡ record db { bindings = db'.bindings }) × (400 ≤ status_of reply → db' ≡ db)

  pub put_binding-frame :
      (name : String) (body : BindingUpdate) (now : ℕ)
      → WritesBindings (put_binding name body now db)
  unfolding put_binding
  put_binding-frame name body now = ground arith

  -- The log and the state of the generator alone.
  pub list_invocations-frame :
      (floats : Floats F) (parse_date : String → Option ℕ) (to_index : String → ℤ)
      (query : LogQuery) (now : ℕ)
      → let db' = (list_invocations floats parse_date to_index query now db).1 in
        db' ≡ record db { invocations = db'.invocations; random = db'.random }
  unfolding list_invocations
  list_invocations-frame floats parse_date to_index query now = tick-frame floats parse_date now db

  -- The readers write nothing.
  pub create_console_session-db :
      (encoder : Encoder) (id : String) (now : ℕ)
      → (create_console_session encoder id now db).1 ≡ db
  unfolding create_console_session
  create_console_session-db encoder id now = ground arith

  pub get_hook-db : (name : String) → (get_hook name db).1 ≡ db
  unfolding get_hook
  get_hook-db name = ground arith

  pub get_tenant-db : (id : String) → (get_tenant id db).1 ≡ db
  unfolding get_tenant
  get_tenant-db id = ground arith

  pub get_tenant_hook-db : (name : String) → (get_tenant_hook name db).1 ≡ db
  unfolding get_tenant_hook
  get_tenant_hook-db name = ground arith
