-- ===== src/Mock/Bindings.antt =====
-- web/src/mocks/handlers.ts: what a tenant reads of the hooks, and the binding of a hook to one
-- of its modules with a configuration.
pub mod Ends
pub mod Active
pub mod Preserve
pub mod Version
pub mod Laws
use wasm_hooks.Common.{
  ℕ, ◌+◌, if◌then◌else◌, ◌==◌, String, Bool, true, false, not, ◌&&◌, ◌||◌, List, [], ◌∷◌, map,
  Option, none, some, find, any, is_some, or_else, get_or_else,
}
use wasm_hooks.Text.{concat}
use wasm_hooks.Json.{Record, lookup, str, of_props, obj}
use wasm_hooks.Json.Stringify.{stringify}
use wasm_hooks.Clock.{to_iso_string}
use wasm_hooks.Entity.Hook.{Binding, OperatorHook, TenantHook}
use wasm_hooks.Entity.Module.{ModuleStatus, validated, status_is, status_text}
use wasm_hooks.Mock.Db.{Db, PendingModule}
use wasm_hooks.Mock.Http.{Reply, json, fail}
use wasm_hooks.Mock.Hooks.{has_name, hook_not_found}
use wasm_hooks.Mock.Modules.{knows_hook}

-- The body of `PUT …/binding`, of the type to which the source casts it; a field that is missing or null is `none`. The
-- source does not check the cast: a body of another type is outside of the model.
pub record BindingUpdate : Type 0 where
  pub active_module_id : Option String
  pub config : Option (List (String × String))

abbrev pub Config : Type 0
Config = List (String × String)

-- `Map.set`: a key keeps its place, a new one goes to the end.
unfoldable pub set_binding : String → Binding → List (String × Binding) → List (String × Binding)
set_binding key b [] = (key, b) ∷ []
set_binding key b ((k, c) ∷ bs) =
    let rest = (k, c) ∷ set_binding key b bs in if k == key then (k, b) ∷ bs else rest

-- `JSON.stringify(config)`
unfoldable pub config_text : Config → String
config_text c = stringify (obj (of_props (map (λ e. (e.0, str e.1)) c)))

pub config_differs : Option Config → Binding → Bool
unfolding config_text
config_differs none previous = false
config_differs (some c) previous = not (config_text c == config_text previous.config)

-- `configChanged`
unfoldable pub config_changed : Option Config → Option Binding → Bool
unfolding config_differs
config_changed config none = false
config_changed config (some previous) = config_differs config previous

abbrev pub active_id : Option Binding → Option String
active_id none = none
active_id (some b) = b.active_module_id

abbrev pub active_hash : Option Binding → Option String
active_hash none = none
active_hash (some b) = b.active_module_hash

abbrev pub same_text : Option String → String → Bool
same_text none s = false
same_text (some t) s = t == s

-- `moduleChanged`
unfoldable pub module_changed : Option PendingModule → Option Binding → Bool
module_changed none previous = false
module_changed (some m) previous = not (same_text (active_id previous) m.id)

abbrev pub module_id : Option PendingModule → Option String
module_id none = none
module_id (some m) = some m.id

abbrev pub module_hash : Option PendingModule → Option String
module_hash none = none
module_hash (some m) = some m.content_hash

-- `body.config ?? previous?.config ?? {}`
pub next_config : Option Config → Option Binding → Config
next_config (some c) previous = c
next_config none none = []
next_config none (some b) = b.config

unfoldable pub next_version : Option Binding → Bool → ℕ
next_version none changed = 1
next_version (some b) changed = b.config_version + (if changed then 1 else 0)

unfoldable pub next_binding : Option PendingModule → Option Config → Option Binding → ℕ → Binding
unfolding next_config next_version config_changed
next_binding m config previous now = record {
  active_module_id = or_else (module_id m) (active_id previous);
  active_module_hash = or_else (module_hash m) (active_hash previous);
  config = next_config config previous;
  config_version = next_version previous (config_changed config previous);
  updated_at = to_iso_string now;
}

abbrev pub is_version : String → String → PendingModule → Bool
is_version id hook m = m.id == id && m.hook == hook

module _ {F : Type 0} where
  -- `tenantHook(name)`
  unfoldable pub tenant_hook : String → Db F → Option TenantHook
  unfolding lookup
  tenant_hook name db = with_binding (find (has_name name) db.hooks)
    where
      with_binding : Option OperatorHook → Option TenantHook
      with_binding none = none
      with_binding (some h) = some (record { hook = h; binding = lookup name db.bindings })

  -- `GET /tenant/hooks`
  unfoldable pub list_tenant_hooks : Db F → Reply (List (Option TenantHook)) × Db F
  unfolding tenant_hook
  list_tenant_hooks db = (json 200 (map (λ h. tenant_hook h.name db) db.hooks), db)

  unfoldable pub found_tenant_hook : String → Option TenantHook → Db F → Reply TenantHook × Db F
  found_tenant_hook name none db = (fail 404 hook_not_found (some name), db)
  found_tenant_hook name (some h) db = (json 200 h, db)

  -- `GET /tenant/hooks/:hook`
  unfoldable pub get_tenant_hook : String → Db F → Reply TenantHook × Db F
  unfolding found_tenant_hook tenant_hook
  get_tenant_hook name db = found_tenant_hook name (tenant_hook name db) db

  pub write_binding :
      String
      → Option PendingModule
      → Option Config
      → Option Binding
      → ℕ
      → Db F
      → Reply Binding × Db F
  unfolding next_binding
  write_binding name m config previous now db =
      let b = next_binding m config previous now in
      (json 200 b, record db { bindings = set_binding name b db.bindings })

  -- The module, if one is asked for, may be activated: nothing to do, or a new binding.
  pub store_binding :
      String
      → Option PendingModule
      → Option Config
      → Option Binding
      → ℕ
      → Db F
      → Reply Binding × Db F
  unfolding write_binding config_changed module_changed
  store_binding name m config none now db = write_binding name m config none now db
  store_binding name m config (some previous) now db =
      let written = write_binding name m config (some previous) now db in
      if not (config_changed config (some previous)) && not (module_changed m (some previous))
      then (json 200 previous, db)
      else written

  pub activate :
      String → String → Option PendingModule → Option Config → ℕ → Db F → Reply Binding × Db F
  unfolding store_binding lookup
  activate name id none config now db = (fail 404 "Версия не найдена" (some id), db)
  activate name id (some m) config now db =
      if status_is m.status validated
      then store_binding name (some m) config (lookup name db.bindings) now db
      else (
        fail 409 "Активировать можно только проверенную версию"
            (some (concat ("Статус: " ∷ status_text m.status ∷ []))),
        db,
      )

  pub update_binding : String → Option String → Option Config → ℕ → Db F → Reply Binding × Db F
  unfolding activate store_binding lookup
  update_binding name none none now db = (fail 400 "Нечего менять" none, db)
  update_binding name none (some c) now db =
      store_binding name none (some c) (lookup name db.bindings) now db
  update_binding name (some id) config now db =
      activate name id (find (is_version id name) db.modules) config now db

  -- `PUT /tenant/hooks/:hook/binding`
  unfoldable pub put_binding : String → BindingUpdate → ℕ → Db F → Reply Binding × Db F
  unfolding update_binding
  put_binding name body now db =
      if knows_hook name db
      then update_binding name body.active_module_id body.config now db
      else (fail 404 hook_not_found (some name), db)
