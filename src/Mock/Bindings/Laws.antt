-- ===== src/Mock/Bindings/Laws.antt =====
-- `PUT …/binding` as an update: what it answers, what it writes, and that it is idempotent.
use wasm_hooks.Common.{
  ℕ, ◌≡◌, ◌≢◌, refl, sym, ◌∙◌, String, false, not, ◌&&◌, List, [], ◌∷◌, Option, none, some, arith,
  Bool-cases, inl, inr, find, eq_iff, eq_refl, ◌==◌,
}
use wasm_hooks.Json.{lookup}
use wasm_hooks.Entity.Hook.{Binding}
use wasm_hooks.Entity.Module.{validated, status_is}
use wasm_hooks.Mock.Db.{Db, PendingModule}
use wasm_hooks.Mock.Http.{Reply, json}
use wasm_hooks.Mock.Modules.{knows_hook}
use wasm_hooks.Mock.Bindings.{
  BindingUpdate, Config, is_version, next_binding, write_binding, store_binding, activate,
  set_binding, update_binding, put_binding, config_changed, module_changed, config_differs,
  next_config, config_text,
}

pub lookup-set_binding :
    (name : String) (b : Binding) (bs : List (String × Binding))
    → lookup name (set_binding name b bs) ≡ some b
unfolding lookup set_binding
lookup-set_binding name b [] = rw (eq_refl name) refl
lookup-set_binding name b ((k, c) ∷ bs) = elim (Bool-cases (k == name)) [
  | inl hit ↦ rw hit (rw hit refl)
  | inr miss ↦ rw miss (rw miss (lookup-set_binding name b bs))
]

pub lookup-set_binding_other :
    (name other : String) (b : Binding) (bs : List (String × Binding))
    → name ≢ other
    → lookup other (set_binding name b bs) ≡ lookup other bs
unfolding lookup set_binding
lookup-set_binding_other name other b [] ne = ground (arith, eq_iff name other)
lookup-set_binding_other name other b ((k, c) ∷ bs) ne = ground (
  arith,
  eq_iff name other,
  eq_iff k name,
  eq_iff k other,
  lookup-set_binding_other name other b bs ne,
)

-- A binding that was just written, or found unchanged, is not changed by the same update.
config-settled :
    (m : Option PendingModule) (config : Option Config) (previous : Option Binding) (now : ℕ)
    → config_changed config (some (next_binding m config previous now)) ≡ false
unfolding config_changed config_differs next_binding next_config
config-settled m none previous now = refl
config-settled m (some c) previous now = rw (eq_refl (config_text c)) refl

module-settled :
    (m : Option PendingModule) (config : Option Config) (previous : Option Binding) (now : ℕ)
    → module_changed m (some (next_binding m config previous now)) ≡ false
unfolding module_changed next_binding
module-settled none config previous now = refl
module-settled (some m) config previous now = rw (eq_refl m.id) refl

-- An update that would change nothing in the binding.
abbrev IsSettled : Option PendingModule → Option Config → Binding → Type 0
IsSettled m config b =
    (config_changed config (some b) ≡ false) × (module_changed m (some b) ≡ false)

module _ {F : Type 0} (name : String) (m : Option PendingModule) (config : Option Config) where
  -- The reply's binding is stored, and the same update would leave it.
  abbrev Stored : (Reply Binding × Db F) → Type 0
  Stored (reply, db') =
      (b : Binding) × (reply ≡ json 200 b)
      × (lookup name db'.bindings ≡ some b)
      × IsSettled m config b

  write_binding-Stored :
      (previous : Option Binding) (now : ℕ) (db : Db F)
      → Stored (write_binding name m config previous now db)
  unfolding write_binding
  write_binding-Stored previous now db = (
    next_binding m config previous now,
    refl,
    lookup-set_binding name (next_binding m config previous now) db.bindings,
    (config-settled m config previous now, module-settled m config previous now),
  )

  store_binding-Stored :
      (previous : Option Binding) (now : ℕ) (db : Db F)
      → lookup name db.bindings ≡ previous
      → Stored (store_binding name m config previous now db)
  unfolding store_binding
  store_binding-Stored none now db e = write_binding-Stored none now db
  store_binding-Stored (some p) now db e =
      elim (Bool-cases (not (config_changed config (some p)) && not (module_changed m (some p)))) [
        | inl same ↦ rw same (p, refl, e, (ground arith, ground arith))
        | inr differs ↦ rw differs (write_binding-Stored (some p) now db)
      ]

  store_binding_again :
      (b : Binding) (later : ℕ) (db' : Db F)
      → IsSettled m config b
      → store_binding name m config (some b) later db' ≡ (json 200 b, db')
  unfolding store_binding
  store_binding_again b later db' (same_config, same_module) = rw (same_config, same_module) refl

  -- A store followed by the same store.
  store_binding_twice :
      (now later : ℕ) (db : Db F)
      → let r = store_binding name m config (lookup name db.bindings) now db in
        store_binding name m config (lookup name r.1.bindings) later r.1 ≡ r
  store_binding_twice now later db =
      let (b, reply, read, settled) = store_binding-Stored (lookup name db.bindings) now db refl in
      rw read (
        store_binding_again b later _ settled
        ∙ (λ i. (sym reply i, (store_binding name m config (lookup name db.bindings) now db).1)))

  store_binding-modules :
      (previous : Option Binding) (now : ℕ) (db : Db F)
      → ((store_binding name m config previous now db).1.modules ≡ db.modules)
        × ((store_binding name m config previous now db).1.hooks ≡ db.hooks)
  unfolding store_binding write_binding
  store_binding-modules none now db = (refl, refl)
  store_binding-modules (some p) now db =
      elim (Bool-cases (not (config_changed config (some p)) && not (module_changed m (some p)))) [
        | inl same ↦ rw same (refl, refl)
        | inr differs ↦ rw differs (refl, refl)
      ]

module _ {F : Type 0} (name : String) where
  -- What an update reads besides the bindings stays.
  abbrev Keeps : Db F → Db F → Type 0
  Keeps db db' = (db'.modules ≡ db.modules) × (db'.hooks ≡ db.hooks)

  activate-twice :
      (id : String) (o : Option PendingModule) (config : Option Config) (now later : ℕ) (db : Db F)
      → let r = activate name id o config now db in
        (activate name id o config later r.1 ≡ r) × Keeps db r.1
  unfolding activate
  activate-twice id none config now later db = (refl, (refl, refl))
  activate-twice id (some m) config now later db =
      elim (Bool-cases (status_is m.status validated)) [
        | inl ready ↦ rw ready (
          store_binding_twice name (some m) config now later db,
          store_binding-modules name (some m) config (lookup name db.bindings) now db,
        )
        | inr other ↦ rw other (refl, (refl, refl))
      ]

  update_binding-twice :
      (id : Option String) (config : Option Config) (now later : ℕ) (db : Db F)
      → let r = update_binding name id config now db in
        (update_binding name id config later r.1 ≡ r) × Keeps db r.1
  unfolding update_binding
  update_binding-twice none none now later db = (refl, (refl, refl))
  update_binding-twice none (some c) now later db = (
    store_binding_twice name none (some c) now later db,
    store_binding-modules name none (some c) (lookup name db.bindings) now db,
  )
  update_binding-twice (some id) config now later db =
      let (again, keeps) =
        activate-twice id (find (is_version id name) db.modules) config now later db in
      (rw keeps.0 again, keeps)

  -- Sending the same update of a binding again gives the same reply and writes nothing, whatever the first reply was.
  pub put_binding_twice :
      (body : BindingUpdate) (now later : ℕ) (db : Db F)
      → let r = put_binding name body now db in put_binding name body later r.1 ≡ r
  unfolding put_binding
  put_binding_twice body now later db = elim (Bool-cases (knows_hook name db)) [
    | inl known ↦
        let (again, keeps) = update_binding-twice body.active_module_id body.config now later db in
        rw known (rw keeps.1 (rw known again))
    | inr unknown ↦ rw unknown (rw unknown refl)
  ]
