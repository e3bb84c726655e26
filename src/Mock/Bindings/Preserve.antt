-- ===== src/Mock/Bindings/Preserve.antt =====
-- `PUT …/binding` activates validated modules only.
use wasm_hooks.Common.{
  ℕ, ◌≡◌, refl, subst, sym, ◌∙◌, String, true, not, ◌&&◌, Option, none, some, arith, Bool-cases,
  inl, inr, find, find-eq-some, eq_iff, some-inj,
}
use wasm_hooks.Json.{lookup}
use wasm_hooks.Entity.Hook.{Binding}
use wasm_hooks.Entity.Module.{
  ModuleStatus, uploaded, validating, validated, rejected, archived, status_is,
}
use wasm_hooks.Mock.Db.{Db, PendingModule}
use wasm_hooks.Mock.Modules.{knows_hook}
use wasm_hooks.Mock.Bindings.{
  BindingUpdate, Config, is_version, next_binding, write_binding, store_binding, activate,
  update_binding, put_binding, config_changed, module_changed,
}
use wasm_hooks.Mock.Bindings.Active.{
  Points, BindingsAreValid, lookup-Points, set_binding-Points, set_binding-Distinct,
}

pub status_is-validated : (s : ModuleStatus) → status_is s validated ≡ true → s ≡ validated
status_is-validated validated h = refl
status_is-validated uploaded h = cc
status_is-validated validating h = cc
status_is-validated rejected h = cc
status_is-validated archived h = cc

is_version-id : (id hook : String) (m : PendingModule) → is_version id hook m ≡ true → m.id ≡ id
is_version-id id hook m h = ground (arith, eq_iff m.id id)

module _ {F : Type 0} (db : Db F) (v : BindingsAreValid db.modules db.bindings) (name : String)
    (now : ℕ) where
  next_binding-Points :
      (m : Option PendingModule) (config : Option Config) (previous : Option Binding)
      → ((n : PendingModule)
          → m ≡ some n
          → (find (is_version n.id name) db.modules ≡ some n) × (n.status ≡ validated))
      → ((b : Binding) → previous ≡ some b → Points db.modules (name, b))
      → Points db.modules (name, next_binding m config previous now)
  unfolding next_binding
  next_binding-Points (some n) config previous h k = (n, (h n refl).0, (h n refl).1, refl)
  next_binding-Points none config none h k = refl
  next_binding-Points none config (some b) h k = k b refl

  write_binding-AreValid :
      (m : Option PendingModule) (config : Option Config) (previous : Option Binding)
      → ((n : PendingModule)
          → m ≡ some n
          → (find (is_version n.id name) db.modules ≡ some n) × (n.status ≡ validated))
      → lookup name db.bindings ≡ previous
      → BindingsAreValid db.modules (write_binding name m config previous now db).1.bindings
  unfolding write_binding
  write_binding-AreValid m config previous h e = (
    set_binding-Points db.modules name (next_binding m config previous now) db.bindings v.0 (
        next_binding-Points m config previous h
          (λ b eq. lookup-Points db.modules name db.bindings b v.0 (e ∙ eq))),
    set_binding-Distinct name (next_binding m config previous now) db.bindings v.1,
  )

  store_binding-AreValid :
      (m : Option PendingModule) (config : Option Config) (previous : Option Binding)
      → ((n : PendingModule)
          → m ≡ some n
          → (find (is_version n.id name) db.modules ≡ some n) × (n.status ≡ validated))
      → lookup name db.bindings ≡ previous
      → BindingsAreValid db.modules (store_binding name m config previous now db).1.bindings
  unfolding store_binding
  store_binding-AreValid m config none h e = write_binding-AreValid m config none h e
  store_binding-AreValid m config (some b) h e =
      elim (Bool-cases (not (config_changed config (some b)) && not (module_changed m (some b)))) [
        | inl same ↦ rw same v
        | inr differs ↦ rw differs (write_binding-AreValid m config (some b) h e)
      ]

  activate-AreValid :
      (id : String) (o : Option PendingModule) (config : Option Config)
      → find (is_version id name) db.modules ≡ o
      → BindingsAreValid db.modules (activate name id o config now db).1.bindings
  unfolding activate
  activate-AreValid id none config found = v
  activate-AreValid id (some m) config found = elim (Bool-cases (status_is m.status validated)) [
    | inr other ↦ rw other v
    | inl ready ↦
        let e : m.id ≡ id =
          is_version-id id name m (find-eq-some (is_version id name) db.modules m found) in
        let found' : find (is_version m.id name) db.modules ≡ some m =
          subst (λ i. find (is_version i name) db.modules ≡ some m) (sym e) found in
        rw ready (
          store_binding-AreValid (some m) config (lookup name db.bindings)
            (λ n same.
              subst
                (λ k. (find (is_version k.id name) db.modules ≡ some k) × (k.status ≡ validated))
                (some-inj same) (found', status_is-validated m.status ready))
            refl)
  ]

  update_binding-AreValid :
      (id : Option String) (config : Option Config)
      → BindingsAreValid db.modules (update_binding name id config now db).1.bindings
  unfolding update_binding
  update_binding-AreValid none none = v
  update_binding-AreValid none (some c) =
      store_binding-AreValid none (some c) (lookup name db.bindings) (λ n same. absurd (cc)) refl
  update_binding-AreValid (some id) config =
      activate-AreValid id (find (is_version id name) db.modules) config refl

  -- An update of a binding keeps the bindings valid.
  pub put_binding-AreValid :
      (body : BindingUpdate) → BindingsAreValid db.modules (put_binding name body now db).1.bindings
  unfolding put_binding
  put_binding-AreValid body = elim (Bool-cases (knows_hook name db)) [
    | inl known ↦ rw known (update_binding-AreValid body.active_module_id body.config)
    | inr unknown ↦ rw unknown v
  ]
