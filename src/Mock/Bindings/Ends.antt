-- ===== src/Mock/Bindings/Ends.antt =====
-- How the replies of the handlers of bindings end.
use wasm_hooks.Common.{
  ℕ, refl, String, Option, none, some, arith, Bool-cases, inl, inr, find, not, ◌&&◌,
}
use wasm_hooks.Json.{lookup}
use wasm_hooks.Entity.Hook.{TenantHook, Binding}
use wasm_hooks.Mock.Db.{Db, PendingModule}
use wasm_hooks.Mock.Modules.{knows_hook}
use wasm_hooks.Entity.Module.{status_is, validated}
use wasm_hooks.Mock.Bindings.{
  BindingUpdate, Config, put_binding, update_binding, activate, store_binding, write_binding,
  get_tenant_hook, found_tenant_hook, is_version, config_changed, module_changed, tenant_hook,
}
use wasm_hooks.Mock.Http.Ends.{Ends}

module _ {F : Type 0} (db : Db F) where
  found_tenant_hook-Ends :
      (name : String) (o : Option TenantHook) → Ends 200 (found_tenant_hook name o db).0
  unfolding found_tenant_hook
  found_tenant_hook-Ends name none = omega arith
  found_tenant_hook-Ends name (some h) = refl

  pub get_tenant_hook-Ends : (name : String) → Ends 200 (get_tenant_hook name db).0
  unfolding get_tenant_hook
  get_tenant_hook-Ends name = found_tenant_hook-Ends name (tenant_hook name db)

  store_binding-Ends :
      (name : String) (m : Option PendingModule) (config : Option Config)
      (previous : Option Binding) (now : ℕ)
      → Ends 200 (store_binding name m config previous now db).0
  unfolding store_binding write_binding
  store_binding-Ends name m config none now = refl
  store_binding-Ends name m config (some p) now =
      elim (Bool-cases (not (config_changed config (some p)) && not (module_changed m (some p)))) [
        | inl same ↦ rw same refl
        | inr differs ↦ rw differs refl
      ]

  activate-Ends :
      (name id : String) (o : Option PendingModule) (config : Option Config) (now : ℕ)
      → Ends 200 (activate name id o config now db).0
  unfolding activate
  activate-Ends name id none config now = omega arith
  activate-Ends name id (some m) config now = elim (Bool-cases (status_is m.status validated)) [
    | inl ready ↦ rw ready (store_binding-Ends name (some m) config (lookup name db.bindings) now)
    | inr other ↦ rw other (omega arith)
  ]

  update_binding-Ends :
      (name : String) (id : Option String) (config : Option Config) (now : ℕ)
      → Ends 200 (update_binding name id config now db).0
  unfolding update_binding
  update_binding-Ends name none none now = omega arith
  update_binding-Ends name none (some c) now =
      store_binding-Ends name none (some c) (lookup name db.bindings) now
  update_binding-Ends name (some id) config now =
      activate-Ends name id (find (is_version id name) db.modules) config now

  pub put_binding-Ends :
      (name : String) (body : BindingUpdate) (now : ℕ) → Ends 200 (put_binding name body now db).0
  unfolding put_binding
  put_binding-Ends name body now = elim (Bool-cases (knows_hook name db)) [
    | inl known ↦ rw known (update_binding-Ends name body.active_module_id body.config now)
    | inr unknown ↦ rw unknown (omega arith)
  ]
