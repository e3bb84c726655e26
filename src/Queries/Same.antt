-- ===== src/Queries/Same.antt =====
-- What each query reads of the state of the mock API.
use wasm_hooks.Common.{
  ℕ, ◌≡◌, refl, ap, ◌∙◌, String, Bool, false, List, [], ◌∷◌, Option, none, some, find, keep, ◌==◌,
  Bool-cases, inl, inr,
}
use wasm_hooks.Entity.Hook.{OperatorHook, TenantHook}
use wasm_hooks.Mock.Db.{Db, PendingModule}
use wasm_hooks.Mock.Tenants.{list_tenants}
use wasm_hooks.Mock.ApiKeys.{list_api_keys}
use wasm_hooks.Mock.Hooks.{list_hooks, get_hook, found_hook, has_name}
use wasm_hooks.Mock.Modules.{list_modules, knows_hook, settle, settle_modules}
use wasm_hooks.Mock.Modules.Settle.{settle-IsSettled}
use wasm_hooks.Mock.Bindings.{list_tenant_hooks, get_tenant_hook, found_tenant_hook, tenant_hook}
use wasm_hooks.Mock.Server.{Platform}
use wasm_hooks.Contract.Encode.{content_of, hook_json, tenant_hook_json}
use wasm_hooks.Queries.{
  Query, api_key_list, operator_hook_list, tenant_hook_list, tenant_list, operator_hook_detail,
  tenant_hook_detail, module_list, invocation_list, is_polled, read,
}

abbrev pub of_hook : String → PendingModule → Bool
of_hook hook m = m.hook == hook

-- Two states that are the same to a query.
abbrev pub LooksSame : {F : Type 0} → Db F → Db F → Query → Type 0
LooksSame db db' api_key_list = db'.api_keys ≡ db.api_keys
LooksSame db db' operator_hook_list = db'.hooks ≡ db.hooks
LooksSame db db' (operator_hook_detail name) =
    find (has_name name) db'.hooks ≡ find (has_name name) db.hooks
LooksSame db db' tenant_list = db'.tenants ≡ db.tenants
LooksSame db db' tenant_hook_list = (db'.hooks ≡ db.hooks) × (db'.bindings ≡ db.bindings)
LooksSame db db' (tenant_hook_detail name) = (db'.hooks ≡ db.hooks) × (db'.bindings ≡ db.bindings)
LooksSame db db' (module_list hook) =
    (db'.hooks ≡ db.hooks) × (keep (of_hook hook) db'.modules ≡ keep (of_hook hook) db.modules)
LooksSame db db' (invocation_list f) = db' ≡ db

keep-settle :
    (hook : String) (now : ℕ) (ms : List PendingModule)
    → keep (of_hook hook) (settle_modules now ms) ≡ settle_modules now (keep (of_hook hook) ms)
unfolding settle
keep-settle hook now [] = refl
keep-settle hook now (m ∷ ms) =
    rw ((settle-IsSettled now m).same_hook) (elim (Bool-cases (of_hook hook m)) [
      | inl here ↦ rw here (ap (λ ns. settle now m ∷ ns) (keep-settle hook now ms))
      | inr there ↦ rw there (keep-settle hook now ms)
    ])

module _ {F : Type 0} (p : Platform F) (now : ℕ) (db db' : Db F) where
  found_hook-same :
      (name : String) (o : Option OperatorHook)
      → (found_hook name o db').0 ≡ (found_hook name o db).0
  unfolding found_hook
  found_hook-same name none = refl
  found_hook-same name (some h) = refl

  found_tenant_hook-same :
      (name : String) (o : Option TenantHook)
      → (found_tenant_hook name o db').0 ≡ (found_tenant_hook name o db).0
  unfolding found_tenant_hook
  found_tenant_hook-same name none = refl
  found_tenant_hook-same name (some h) = refl

  tenant_hook-same :
      (name : String)
      → db'.hooks ≡ db.hooks
      → db'.bindings ≡ db.bindings
      → tenant_hook name db' ≡ tenant_hook name db
  unfolding tenant_hook
  tenant_hook-same name e f = rw (e, f) refl

  -- A query that is not polled is answered the same in states that are the same to it.
  pub read-LooksSame :
      (q : Query) → is_polled q ≡ false → LooksSame db db' q → read p q now db' ≡ read p q now db
  unfolding read list_api_keys list_hooks list_tenants get_hook list_tenant_hooks get_tenant_hook
      tenant_hook list_modules
  read-LooksSame api_key_list u e = rw e refl
  read-LooksSame operator_hook_list u e = rw e refl
  read-LooksSame (operator_hook_detail name) u e =
      rw e (ap (λ r. content_of hook_json r) (found_hook-same name (find (has_name name) db.hooks)))
  read-LooksSame tenant_list u e = rw e refl
  read-LooksSame tenant_hook_list u (e, f) = rw (e, f) refl
  read-LooksSame (tenant_hook_detail name) u (e, f) =
      ap (λ r. content_of tenant_hook_json r) (found_tenant_hook-same name (tenant_hook name db'))
      ∙ ap (λ o. content_of tenant_hook_json (found_tenant_hook name o db).0)
          (tenant_hook-same name e f)
  read-LooksSame (module_list hook) u (e, f) =
      rw (keep-settle hook now db'.modules, e, f)
        (rw (keep-settle hook now db.modules) (elim (Bool-cases (knows_hook hook db)) [
          | inl known ↦ rw known refl
          | inr unknown ↦ rw unknown refl
        ]))
  read-LooksSame (invocation_list f) u e = absurd (cc)
