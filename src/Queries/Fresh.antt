-- ===== src/Queries/Fresh.antt =====
-- The cache of the console stays true: what a mutation changes is fetched again or put in place.
use wasm_hooks.Common.{
  ℕ, ltb, ◌≡◌, refl, ap, ◌∙◌, sym, String, true, false, none, some, find, keep, ◌==◌, arith,
  Bool-cases, inl, inr, ◌⊎◌, eq_iff,
}
use wasm_hooks.Json.{Json}
use wasm_hooks.Entity.Hook.{OperatorHook}
use wasm_hooks.Mock.Db.{Db}
use wasm_hooks.Mock.Http.{Reply, json, problem, no_content, status_of}
use wasm_hooks.Mock.Http.Ends.{Ends}
use wasm_hooks.Mock.ApiKeys.{Draws}
use wasm_hooks.Mock.Hooks.{has_name, get_hook, found_hook}
use wasm_hooks.Mock.Hooks.Ends.{create_hook-Ends, put_hook-Ends}
use wasm_hooks.Mock.Hooks.Frame.{create_hook-frame, put_hook-frame}
use wasm_hooks.Mock.Hooks.Keeps.{Keeps, create_hook-Keeps, put_hook-Keeps}
use wasm_hooks.Mock.Modules.{FormField}
use wasm_hooks.Mock.Server.{Platform}
use wasm_hooks.Mock.Server.Frames.{
  create_tenant-frame, patch_tenant-frame, create_api_key-frame, revoke_api_key-frame,
  upload_module-frame, put_binding-frame,
}
use wasm_hooks.Queries.{
  Query, api_key_list, operator_hook_list, tenant_hook_list, tenant_list, operator_hook_detail,
  tenant_hook_detail, module_list, invocation_list, Mutation, tenant_creation, hook_creation,
  tenant_change, hook_replacement, key_issue, key_revocation, upload, activation, config_saving,
  console_of, mutation_console, is_polled, is_invalidated, perform, set_data, read, entry_of,
}
use wasm_hooks.Contract.Encode.{hook_json}
use wasm_hooks.Queries.Same.{LooksSame, of_hook, read-LooksSame}
use wasm_hooks.Queries.Effects.{upload_module-keep}

module _ {F : Type 0} (p : Platform F) (draws : Draws) (at now : ℕ) (db : Db F) where
  -- What becomes of the entry of a query by a success of a mutation.
  Fate : Mutation → Query → Type 0
  Fate m q =
      (is_invalidated m q ≡ true)
      ⊎ (((v : Json) × (set_data p m at db ≡ some (q, v))
            × (read p q now (perform p m draws at db).1 ≡ (200, some v)))
          ⊎ LooksSame db (perform p m draws at db).1 q)

  -- The entry of one hook, after a mutation of hooks.
  detail-Fate :
      (n : String) (good : ℕ) (r : Reply OperatorHook) (db' : Db F)
      → Keeps db (r, db')
      → Ends good r
      → ltb (status_of r) 400 ≡ true
      → ((v : Json) × (entry_of r ≡ some (operator_hook_detail n, v))
          × (read p (operator_hook_detail n) now db' ≡ (200, some v)))
        ⊎ LooksSame db db' (operator_hook_detail n)
  unfolding entry_of read get_hook found_hook
  detail-Fate n good (json status h) db' keeps ends ok =
      let (found, others) = keeps h status refl in
      elim (Bool-cases (h.name == n)) [
        | inl here ↦
            let e : h.name ≡ n = (eq_iff h.name n).0 here in
            inl (
              hook_json h,
              ap (λ name. some (operator_hook_detail name, hook_json h)) e,
              ap (λ name. read p (operator_hook_detail name) now db') (sym e) ∙ rw found refl,
            )
        | inr there ↦ inr (others n (λ e. elsewhere e there))
      ]
    where
      elsewhere : h.name ≡ n → (h.name == n) ≡ false → ⊥
      elsewhere e there = ground (arith, eq_iff h.name n)
  detail-Fate n good (problem status title detail headers) db' keeps ends ok = absurd (ground arith)
  detail-Fate n good no_content db' keeps ends ok = elim ends [ ]

  uploaded-Fate :
      (hook other : String) (field : FormField) → Fate (upload hook field) (module_list other)
  unfolding is_invalidated perform Fate
  uploaded-Fate hook other field = elim (Bool-cases (hook == other)) [
    | inl here ↦ inl (rw here refl)
    | inr there ↦ inr (
        inr (
          ap (λ d. d.hooks) (upload_module-frame db p.digest hook field at).0,
          upload_module-keep db hook other there p.digest field at,
        ))
  ]

  fate :
      (m : Mutation) (q : Query)
      → console_of q ≡ mutation_console m
      → is_polled q ≡ false
      → ltb (perform p m draws at db).0 400 ≡ true
      → Fate m q
  unfolding is_invalidated perform Fate set_data
  fate (tenant_creation body) api_key_list same polled good =
      inr (inr (ap (λ d. d.api_keys) (create_tenant-frame db body at).0))
  fate (tenant_creation body) operator_hook_list same polled good =
      inr (inr (ap (λ d. d.hooks) (create_tenant-frame db body at).0))
  fate (tenant_creation body) (operator_hook_detail n) same polled good =
      inr (inr (ap (λ d. find (has_name n) d.hooks) (create_tenant-frame db body at).0))
  fate (tenant_creation body) tenant_list same polled good = inl refl
  fate (tenant_creation body) tenant_hook_list same polled good = absurd (cc)
  fate (tenant_creation body) (tenant_hook_detail n) same polled good = absurd (cc)
  fate (tenant_creation body) (module_list h) same polled good = absurd (cc)
  fate (tenant_creation body) (invocation_list f) same polled good = absurd (cc)
  fate (tenant_change id body) api_key_list same polled good =
      inr (inr (ap (λ d. d.api_keys) (patch_tenant-frame db id body at).0))
  fate (tenant_change id body) operator_hook_list same polled good =
      inr (inr (ap (λ d. d.hooks) (patch_tenant-frame db id body at).0))
  fate (tenant_change id body) (operator_hook_detail n) same polled good =
      inr (inr (ap (λ d. find (has_name n) d.hooks) (patch_tenant-frame db id body at).0))
  fate (tenant_change id body) tenant_list same polled good = inl refl
  fate (tenant_change id body) tenant_hook_list same polled good = absurd (cc)
  fate (tenant_change id body) (tenant_hook_detail n) same polled good = absurd (cc)
  fate (tenant_change id body) (module_list h) same polled good = absurd (cc)
  fate (tenant_change id body) (invocation_list f) same polled good = absurd (cc)
  fate (hook_creation body) api_key_list same polled good =
      inr (inr (ap (λ d. d.api_keys) (create_hook-frame db body at).0))
  fate (hook_creation body) operator_hook_list same polled good = inl refl
  fate (hook_creation body) (operator_hook_detail n) same polled good =
      inr (detail-Fate n 201 _ _ (create_hook-Keeps db body at) (create_hook-Ends db body at) good)
  fate (hook_creation body) tenant_list same polled good =
      inr (inr (ap (λ d. d.tenants) (create_hook-frame db body at).0))
  fate (hook_creation body) tenant_hook_list same polled good = absurd (cc)
  fate (hook_creation body) (tenant_hook_detail n) same polled good = absurd (cc)
  fate (hook_creation body) (module_list h) same polled good = absurd (cc)
  fate (hook_creation body) (invocation_list f) same polled good = absurd (cc)
  fate (hook_replacement name body) api_key_list same polled good =
      inr (inr (ap (λ d. d.api_keys) (put_hook-frame db name body at).0))
  fate (hook_replacement name body) operator_hook_list same polled good = inl refl
  fate (hook_replacement name body) (operator_hook_detail n) same polled good =
      inr (
        detail-Fate n 200 _ _ (put_hook-Keeps db name body at) (put_hook-Ends db name body at) good)
  fate (hook_replacement name body) tenant_list same polled good =
      inr (inr (ap (λ d. d.tenants) (put_hook-frame db name body at).0))
  fate (hook_replacement name body) tenant_hook_list same polled good = absurd (cc)
  fate (hook_replacement name body) (tenant_hook_detail n) same polled good = absurd (cc)
  fate (hook_replacement name body) (module_list h) same polled good = absurd (cc)
  fate (hook_replacement name body) (invocation_list f) same polled good = absurd (cc)
  fate (key_issue body) api_key_list same polled good = inl refl
  fate (key_issue body) operator_hook_list same polled good =
      inr (inr (ap (λ d. d.hooks) (create_api_key-frame db body draws at).0))
  fate (key_issue body) (operator_hook_detail n) same polled good =
      inr (inr (ap (λ d. find (has_name n) d.hooks) (create_api_key-frame db body draws at).0))
  fate (key_issue body) tenant_list same polled good =
      inr (inr (ap (λ d. d.tenants) (create_api_key-frame db body draws at).0))
  fate (key_issue body) tenant_hook_list same polled good = absurd (cc)
  fate (key_issue body) (tenant_hook_detail n) same polled good = absurd (cc)
  fate (key_issue body) (module_list h) same polled good = absurd (cc)
  fate (key_issue body) (invocation_list f) same polled good = absurd (cc)
  fate (key_revocation id) api_key_list same polled good = inl refl
  fate (key_revocation id) operator_hook_list same polled good =
      inr (inr (ap (λ d. d.hooks) (revoke_api_key-frame db id at).0))
  fate (key_revocation id) (operator_hook_detail n) same polled good =
      inr (inr (ap (λ d. find (has_name n) d.hooks) (revoke_api_key-frame db id at).0))
  fate (key_revocation id) tenant_list same polled good =
      inr (inr (ap (λ d. d.tenants) (revoke_api_key-frame db id at).0))
  fate (key_revocation id) tenant_hook_list same polled good = absurd (cc)
  fate (key_revocation id) (tenant_hook_detail n) same polled good = absurd (cc)
  fate (key_revocation id) (module_list h) same polled good = absurd (cc)
  fate (key_revocation id) (invocation_list f) same polled good = absurd (cc)
  fate (upload hook field) api_key_list same polled good = absurd (cc)
  fate (upload hook field) operator_hook_list same polled good = absurd (cc)
  fate (upload hook field) (operator_hook_detail n) same polled good = absurd (cc)
  fate (upload hook field) tenant_list same polled good = absurd (cc)
  fate (upload hook field) tenant_hook_list same polled good = inr (
      inr (
        ap (λ d. d.hooks) (upload_module-frame db p.digest hook field at).0,
        ap (λ d. d.bindings) (upload_module-frame db p.digest hook field at).0,
      ))
  fate (upload hook field) (tenant_hook_detail n) same polled good = inr (
      inr (
        ap (λ d. d.hooks) (upload_module-frame db p.digest hook field at).0,
        ap (λ d. d.bindings) (upload_module-frame db p.digest hook field at).0,
      ))
  fate (upload hook field) (module_list h) same polled good = uploaded-Fate hook h field
  fate (upload hook field) (invocation_list f) same polled good = absurd (cc)
  fate (activation hook id) api_key_list same polled good = absurd (cc)
  fate (activation hook id) operator_hook_list same polled good = absurd (cc)
  fate (activation hook id) (operator_hook_detail n) same polled good = absurd (cc)
  fate (activation hook id) tenant_list same polled good = absurd (cc)
  fate (activation hook id) tenant_hook_list same polled good = inl refl
  fate (activation hook id) (tenant_hook_detail n) same polled good = inl refl
  fate (activation hook id) (module_list h) same polled good = inr (
      inr (
        ap (λ d. d.hooks)
            (put_binding-frame db hook (record { active_module_id = some id; config = none }) at).0,
        ap (λ d. keep (of_hook h) d.modules)
            (put_binding-frame db hook (record { active_module_id = some id; config = none }) at).0,
      ))
  fate (activation hook id) (invocation_list f) same polled good = absurd (cc)
  fate (config_saving hook config) api_key_list same polled good = absurd (cc)
  fate (config_saving hook config) operator_hook_list same polled good = absurd (cc)
  fate (config_saving hook config) (operator_hook_detail n) same polled good = absurd (cc)
  fate (config_saving hook config) tenant_list same polled good = absurd (cc)
  fate (config_saving hook config) tenant_hook_list same polled good = inl refl
  fate (config_saving hook config) (tenant_hook_detail n) same polled good = inl refl
  fate (config_saving hook config) (module_list h) same polled good = inr (
      inr (
        ap (λ d. d.hooks)
            (put_binding-frame db hook (record { active_module_id = none; config = some config })
              at).0,
        ap (λ d. keep (of_hook h) d.modules)
            (put_binding-frame db hook (record { active_module_id = none; config = some config })
              at).0,
      ))
  fate (config_saving hook config) (invocation_list f) same polled good = absurd (cc)

  -- After a mutation that the API granted, every query of the same console that is not polled has its entry fetched again, or
  -- put in place as the API now answers it, or is answered as before.
  pub cache-coherent :
      (m : Mutation) (q : Query)
      → console_of q ≡ mutation_console m
      → is_polled q ≡ false
      → ltb (perform p m draws at db).0 400 ≡ true
      → let after = (perform p m draws at db).1 in
        (is_invalidated m q ≡ true)
        ⊎ (((v : Json) × (set_data p m at db ≡ some (q, v)) × (read p q now after ≡ (200, some v)))
            ⊎ (read p q now after ≡ read p q now db))
  unfolding Fate
  cache-coherent m q same polled good = elim (fate m q same polled good) [
    | inl again ↦ inl again
    | inr (inl put) ↦ inr (inl put)
    | inr (inr looks) ↦
        inr (inr (read-LooksSame p now db (perform p m draws at db).1 q polled looks))
  ]
