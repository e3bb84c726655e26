-- ===== src/Mock/Bindings/Version.antt =====
-- The reply to `PUT …/binding`: its status on every branch, and the version of the configuration.
use wasm_hooks.Common.{
  ℕ, ◌+◌, ◌==◌, ◌∙◌, ◌≡◌, refl, ap, sym, String, Option, none, some, arith, Bool-cases, inl, inr,
  find, if◌then◌else◌,
}
use wasm_hooks.Json.{lookup}
use wasm_hooks.Entity.Hook.{Binding}
use wasm_hooks.Entity.Module.{validated, status_is}
use wasm_hooks.Mock.Db.{Db, PendingModule}
use wasm_hooks.Mock.Http.{Reply, json, status_of}
use wasm_hooks.Mock.Modules.{knows_hook}
use wasm_hooks.Mock.Bindings.{
  BindingUpdate, Config, is_version, next_binding, write_binding, store_binding, activate,
  update_binding, put_binding, config_changed, next_version, config_text, config_differs,
}

-- The status that an update of a known hook's binding deserves.
abbrev pub module_status : Option PendingModule → ℕ
module_status none = 404
module_status (some m) = if status_is m.status validated then 200 else 409

-- The version that an update brings a binding to.
abbrev pub due_version : Option Config → Option Binding → ℕ
due_version config none = 1
due_version none (some previous) = previous.config_version
due_version (some c) (some previous) =
    if config_text c == config_text previous.config
    then previous.config_version
    else previous.config_version + 1

next_version-due :
    (config : Option Config) (previous : Option Binding)
    → next_version previous (config_changed config previous) ≡ due_version config previous
unfolding next_version config_changed config_differs
next_version-due config none = ground arith
next_version-due none (some p) = ground arith
next_version-due (some c) (some p) = ground arith

module _ {F : Type 0} (name : String) (now : ℕ) (db : Db F) where
  abbrev update_status : Option String → Option Config → ℕ
  update_status none none = 400
  update_status none (some c) = 200
  update_status (some id) config = module_status (find (is_version id name) db.modules)

  store_binding-status :
      (m : Option PendingModule) (config : Option Config) (previous : Option Binding)
      → status_of (store_binding name m config previous now db).0 ≡ 200
  unfolding store_binding write_binding
  store_binding-status m config none = refl
  store_binding-status m config (some p) = ground arith

  activate-status :
      (id : String) (o : Option PendingModule) (config : Option Config)
      → status_of (activate name id o config now db).0 ≡ module_status o
  unfolding activate
  activate-status id none config = refl
  activate-status id (some m) config = elim (Bool-cases (status_is m.status validated)) [
    | inl ready ↦ rw ready (store_binding-status (some m) config (lookup name db.bindings))
    | inr other ↦ rw other refl
  ]

  update_binding-status :
      (id : Option String) (config : Option Config)
      → status_of (update_binding name id config now db).0 ≡ update_status id config
  unfolding update_binding
  update_binding-status none none = refl
  update_binding-status none (some c) = store_binding-status none (some c) (lookup name db.bindings)
  update_binding-status (some id) config =
      activate-status id (find (is_version id name) db.modules) config

  -- An unknown hook is answered 404, an empty update 400, a module that is not there 404 and one that is not
  -- validated 409; every other update is answered 200.
  pub put_binding-status :
      (body : BindingUpdate)
      → status_of (put_binding name body now db).0
        ≡ (if knows_hook name db then update_status body.active_module_id body.config else 404)
  unfolding put_binding
  put_binding-status body = elim (Bool-cases (knows_hook name db)) [
    | inl known ↦ rw known (update_binding-status body.active_module_id body.config)
    | inr unknown ↦ rw unknown refl
  ]

  -- What a reply says of the version, for the binding that there was.
  abbrev Counts : Option Config → Option Binding → Reply Binding → Type 0
  Counts config previous reply =
      (b : Binding)
      → reply ≡ json 200 b
      → b.config_version ≡ next_version previous (config_changed config previous)

  json-inj : {s t : ℕ} {b c : Binding} → json s b ≡ json t c → b ≡ c
  json-inj e = cc

  write_binding-Counts :
      (m : Option PendingModule) (config : Option Config) (previous : Option Binding)
      → Counts config previous (write_binding name m config previous now db).0
  unfolding write_binding next_binding
  write_binding-Counts m config previous b e = ap (λ x. x.config_version) (sym (json-inj e))

  store_binding-Counts :
      (m : Option PendingModule) (config : Option Config) (previous : Option Binding)
      → Counts config previous (store_binding name m config previous now db).0
  unfolding store_binding next_version
  store_binding-Counts m config none b e = write_binding-Counts m config none b e
  store_binding-Counts m config (some p) b e =
      ground (arith, write_binding-Counts m config (some p) b)

  activate-Counts :
      (id : String) (o : Option PendingModule) (config : Option Config)
      → Counts config (lookup name db.bindings) (activate name id o config now db).0
  unfolding activate
  activate-Counts id none config b e = cc
  activate-Counts id (some m) config b e =
      ground (arith, store_binding-Counts (some m) config (lookup name db.bindings) b)

  update_binding-Counts :
      (id : Option String) (config : Option Config)
      → Counts config (lookup name db.bindings) (update_binding name id config now db).0
  unfolding update_binding
  update_binding-Counts none none b e = cc
  update_binding-Counts none (some c) b e =
      store_binding-Counts none (some c) (lookup name db.bindings) b e
  update_binding-Counts (some id) config b e =
      activate-Counts id (find (is_version id name) db.modules) config b e

  pub put_binding-next_version :
      (body : BindingUpdate) (b : Binding)
      → (put_binding name body now db).0 ≡ json 200 b
      → b.config_version
        ≡ next_version
            (lookup name db.bindings)
            (config_changed body.config (lookup name db.bindings))
  unfolding put_binding
  put_binding-next_version body b e =
      ground (arith, update_binding-Counts body.active_module_id body.config b)

  -- A binding that an update answers has version 1 if there was none; else the version before, plus one exactly
  -- when the update brings a configuration whose JSON text is another one than that of the configuration before.
  pub put_binding-version :
      (body : BindingUpdate) (b : Binding)
      → (put_binding name body now db).0 ≡ json 200 b
      → b.config_version ≡ due_version body.config (lookup name db.bindings)
  put_binding-version body b e =
      put_binding-next_version body b e ∙ next_version-due body.config (lookup name db.bindings)
