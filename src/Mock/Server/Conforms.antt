-- ===== src/Mock/Server/Conforms.antt =====
-- The answers of the mock API are those that the contract declares.
use wasm_hooks.Common.{
  ℕ, ltb, nat_eq, ◌≤◌, ◌≡◌, refl, sym, subst, String, Bool, true, false, List, [], ◌∷◌, ◌++◌, map,
  Option, none, some, find, any, arith, Bool-cases, inl, inr, eq_refl, All,
}
use wasm_hooks.Json.{Json, null, arr, of_elems, lookup}
use wasm_hooks.Entity.Hook.{OperatorHook}
use wasm_hooks.Mock.Db.{Db}
use wasm_hooks.Mock.Http.{Reply, json, problem, no_content, authed, has_bearer}
use wasm_hooks.Mock.Http.Ends.{Ends, authed-Ends}
use wasm_hooks.Mock.Hooks.Ends.{get_hook-Ends, create_hook-Ends, put_hook-Ends}
use wasm_hooks.Mock.Tenants.Ends.{get_tenant-Ends, create_tenant-Ends, patch_tenant-Ends}
use wasm_hooks.Mock.ApiKeys.Ends.{create_api_key-Ends}
use wasm_hooks.Mock.Modules.Ends.{list_modules-Ends, upload_module-Ends}
use wasm_hooks.Mock.Bindings.Ends.{get_tenant_hook-Ends, put_binding-Ends}
use wasm_hooks.Mock.Tenants.{list_tenants, get_tenant, create_tenant, patch_tenant}
use wasm_hooks.Mock.ApiKeys.{list_api_keys, create_api_key, revoke_api_key, has_id}
use wasm_hooks.Mock.Hooks.{list_hooks, get_hook, create_hook, put_hook, has_name}
use wasm_hooks.Mock.Modules.{list_modules, upload_module}
use wasm_hooks.Mock.Bindings.{list_tenant_hooks, get_tenant_hook, put_binding, tenant_hook}
use wasm_hooks.Mock.Log.{list_invocations}
use wasm_hooks.Mock.Sessions.{create_console_session}
use wasm_hooks.Mock.Server.{
  Platform, Call, hooks_list, tenants_list, keys_list, tenant_hooks_list, hook_get, tenant_get,
  tenant_hook_get, hook_create, hook_put, tenant_create, tenant_patch, key_create, key_revoke,
  modules_list, module_upload, binding_put, session_create, invocations_list,
}
use wasm_hooks.Contract.Codecs
use wasm_hooks.Contract.Zod.{input_of}
use wasm_hooks.Mock.Sessions.Laws.{create_console_session-Ends}
use wasm_hooks.Mock.Server.Answers.{allows, answer, operation_of, invocations_operation, is_problem}
use mathlib.Core.List.{append_assoc}
use wasm_hooks.Contract.Shape.{Shape, conforms, list, object_of, need}
use wasm_hooks.Contract.Shape.Bools.{and-intro, or_right}
use wasm_hooks.Contract.Schemas
use wasm_hooks.Contract.Operations
use wasm_hooks.Contract.Encode.{
  content_of, items_json, null_or, tenant_json, api_key_json, api_key_created_json, hook_json,
  console_session_json, invocation_json, binding_json, tenant_hook_json, module_json, problem_json,
}
use wasm_hooks.Contract.Encode.Conforms.{
  tenant_json-conforms, api_key_json-conforms, api_key_created_json-conforms, hook_json-conforms,
  invocation_json-conforms, binding_json-conforms, tenant_hook_json-conforms, module_json-conforms,
  items-conforms,
}

problem-allows :
    (op : Operations.Operation) (status : ℕ) (title : String) (detail : Option String)
    → 400 ≤ status
    → allows op (status, some (problem_json status title detail)) ≡ true
unfolding allows
problem-allows op status title detail h = rw (late status h) (go detail)
  where
    late : (n : ℕ) → 400 ≤ n → ltb n 400 ≡ false
    late n k = ground arith

    go : (d : Option String) → is_problem (some (problem_json status title d)) ≡ true
    go none = refl
    go (some s) = refl

module _ {A : Type 0} (f : A → Json) (type : Shape)
    (fine : (a : A) → conforms false type (f a) ≡ true) where
  -- A reply that ends as declared is allowed.
  Ends-allows :
      (op : Operations.Operation) (good : ℕ) (r : Reply A)
      → Ends good r
      → ltb good 400 ≡ true
      → find (λ a. nat_eq a.status good) op.responses
        ≡ some (Operations.answer good (some (Operations.body "application/json" type)))
      → allows op (content_of f r) ≡ true
  unfolding allows
  Ends-allows op good (json status a) e early declared =
      subst (λ n. allows op (n, some (f a)) ≡ true) (sym e) (rw early (rw declared (fine a)))
  Ends-allows op good (problem status title detail headers) e early declared =
      problem-allows op status title detail e
  Ends-allows op good no_content e early declared = elim e [ ]

-- A hook of the list is found in it.
hooks-found :
    (front back : List OperatorHook) → All (λ h. any (has_name h.name) (front ++ back) ≡ true) back
hooks-found front [] = tt
hooks-found front (h ∷ back) = (
  any_here front,
  subst (λ hs. All (λ k. any (has_name k.name) hs ≡ true) back) (append_assoc front (h ∷ []) back)
      (hooks-found (front ++ h ∷ []) back),
)
  where
    any_here : (hs : List OperatorHook) → any (has_name h.name) (hs ++ h ∷ back) ≡ true
    any_here [] = rw (eq_refl h.name) refl
    any_here (k ∷ hs) = or_right _ _ (any_here hs)

abbrev invocation_shape : Shape
unfolding input_of
invocation_shape = input_of Codecs.invocation_schema

abbrev items_of : Shape → Shape
items_of type = object_of (need "items" (list type) ∷ [])

items_json-conforms :
    {A : Type 0} (f : A → Json) (type : Shape)
    → ((a : A) → conforms false type (f a) ≡ true)
    → (xs : List A) → conforms false (items_of type) (items_json f xs) ≡ true
unfolding conforms
items_json-conforms f type fine xs = and-intro _ _ (items-conforms f type xs fine) refl

find-some_of_any :
    {A : Type 0} (p : A → Bool) (xs : List A) → any p xs ≡ true → (x : A) × (find p xs ≡ some x)
find-some_of_any p [] h = absurd (cc)
find-some_of_any p (x ∷ xs) h = elim (Bool-cases (p x)) [
  | inl hit ↦ (x, rw hit refl)
  | inr miss ↦ let r = find-some_of_any p xs (ground arith) in (r.0, rw miss (r.1))
]

module _ {F : Type 0} (db : Db F) where
  tenant_hook-conforms :
      (name : String)
      → any (has_name name) db.hooks ≡ true
      → conforms false Schemas.tenant_hook_shape (null_or tenant_hook_json (tenant_hook name db))
        ≡ true
  unfolding tenant_hook
  tenant_hook-conforms name h =
      let r = find-some_of_any (has_name name) db.hooks h in
      rw (r.1)
        (tenant_hook_json-conforms (record { hook = r.0; binding = lookup name db.bindings }))

  list_tenant_hooks-fine :
      (hs : List OperatorHook)
      → All (λ h. any (has_name h.name) db.hooks ≡ true) hs
      → conforms false
          (list Schemas.tenant_hook_shape)
          (arr (of_elems (map (null_or tenant_hook_json) (map (λ h. tenant_hook h.name db) hs))))
        ≡ true
  unfolding conforms
  list_tenant_hooks-fine [] h = refl
  list_tenant_hooks-fine (k ∷ hs) (here, rest) =
      and-intro _ _ (tenant_hook-conforms k.name here) (list_tenant_hooks-fine hs rest)

  list_tenant_hooks-allows :
      (auth : Option String)
      → allows Operations.list_tenant_hooks_operation
          (content_of (items_json (null_or tenant_hook_json)) (authed auth list_tenant_hooks db).0)
        ≡ true
  unfolding allows authed list_tenant_hooks
  list_tenant_hooks-allows auth = elim (Bool-cases (has_bearer db.api_keys auth)) [
    | inl known ↦
        rw known (and-intro _ _ (list_tenant_hooks-fine db.hooks (hooks-found [] db.hooks)) refl)
    | inr unknown ↦ rw unknown refl
  ]

  revoke_api_key-allows :
      (auth : Option String) (id : String) (now : ℕ)
      → allows Operations.revoke_api_key_operation
          (content_of (λ u. null) (authed auth (revoke_api_key id now) db).0)
        ≡ true
  unfolding allows authed revoke_api_key
  revoke_api_key-allows auth id now = elim (Bool-cases (has_bearer db.api_keys auth)) [
    | inl known ↦ rw known (elim (Bool-cases (any (has_id id) db.api_keys)) [
      | inl found ↦ rw found refl
      | inr missing ↦ rw missing refl
    ])
    | inr unknown ↦ rw unknown refl
  ]

  -- A handler behind `authed` whose replies end as declared.
  authed-allows :
      {A : Type 0} (f : A → Json) (type : Shape)
      → ((a : A) → conforms false type (f a) ≡ true)
      → (op : Operations.Operation) (good : ℕ) (auth : Option String)
        (handler : Db F → Reply A × Db F)
      → Ends good (handler db).0
      → ltb good 400 ≡ true
      → find (λ a. nat_eq a.status good) op.responses
        ≡ some (Operations.answer good (some (Operations.body "application/json" type)))
      → allows op (content_of f (authed auth handler db).0) ≡ true
  authed-allows f type fine op good auth handler ends =
      Ends-allows f type fine op good (authed auth handler db).0
        (authed-Ends db good auth handler ends)

  -- Every answer of the mock API, to whatever request in whatever state, but with a body of the contract's type where a
  -- binding is updated, which the handler casts and does not check, is allowed by the contract: a success is one that the
  -- operation declares, with a body of the declared type; every other answer is a problem document as the console
  -- reads it. The log of invocations, which the contract does not have, is of the type that the console's schema takes.
  pub answer-allows :
      (p : Platform F) (c : Call) (auth : Option String) (now : ℕ)
      → allows (operation_of c) (answer p c auth now db).0 ≡ true
  unfolding answer input_of list_invocations list_hooks list_tenants list_api_keys conforms
  answer-allows p hooks_list auth now =
      authed-allows (items_json hook_json) Schemas.hook_list_shape
        (items_json-conforms hook_json Schemas.hook_shape hook_json-conforms)
        Operations.list_hooks_operation 200 auth (list_hooks p.collate) refl refl refl
  answer-allows p tenants_list auth now =
      authed-allows (items_json tenant_json) Schemas.tenant_list_shape
        (items_json-conforms tenant_json Schemas.tenant_shape tenant_json-conforms)
        Operations.list_tenants_operation 200 auth (list_tenants p.collate) refl refl refl
  answer-allows p keys_list auth now =
      authed-allows (items_json api_key_json) Schemas.api_key_list_shape
        (items_json-conforms api_key_json Schemas.api_key_shape api_key_json-conforms)
        Operations.list_api_keys_operation 200 auth (list_api_keys p.collate) refl refl refl
  answer-allows p (hook_get name) auth now =
      authed-allows hook_json Schemas.hook_shape hook_json-conforms Operations.get_hook_operation
        200 auth (get_hook name) (get_hook-Ends db name) refl refl
  answer-allows p (tenant_get id) auth now =
      authed-allows tenant_json Schemas.tenant_shape tenant_json-conforms
        Operations.get_tenant_operation 200 auth (get_tenant id) (get_tenant-Ends db id) refl refl
  answer-allows p (tenant_hook_get name) auth now =
      authed-allows tenant_hook_json Schemas.tenant_hook_shape tenant_hook_json-conforms
        Operations.get_tenant_hook_operation 200 auth (get_tenant_hook name)
        (get_tenant_hook-Ends db name) refl refl
  answer-allows p (hook_create body) auth now =
      authed-allows hook_json Schemas.hook_shape hook_json-conforms Operations.create_hook_operation
        201 auth (create_hook body now) (create_hook-Ends db body now) refl refl
  answer-allows p (hook_put name body) auth now =
      authed-allows hook_json Schemas.hook_shape hook_json-conforms
        Operations.replace_hook_operation 200 auth (put_hook name body now)
        (put_hook-Ends db name body now) refl refl
  answer-allows p (tenant_create body) auth now =
      authed-allows tenant_json Schemas.tenant_shape tenant_json-conforms
        Operations.create_tenant_operation 201 auth (create_tenant body now)
        (create_tenant-Ends db body now) refl refl
  answer-allows p (tenant_patch id body) auth now =
      authed-allows tenant_json Schemas.tenant_shape tenant_json-conforms
        Operations.patch_tenant_operation 200 auth (patch_tenant id body now)
        (patch_tenant-Ends db id body now) refl refl
  answer-allows p (session_create id) auth now =
      authed-allows console_session_json Schemas.console_session_shape (λ s. refl)
        Operations.create_console_session_operation 201 auth
        (create_console_session p.encoder id now) (create_console_session-Ends db p.encoder id now)
        refl refl
  answer-allows p (invocations_list query) auth now =
      authed-allows (items_json (invocation_json p.floats)) (items_of invocation_shape)
        (items_json-conforms (invocation_json p.floats) invocation_shape
          (invocation_json-conforms p.floats))
        invocations_operation 200 auth (list_invocations p.floats p.parse_date p.to_index query now)
        refl refl refl
  answer-allows p (key_create body draws) auth now =
      authed-allows api_key_created_json Schemas.api_key_created_shape api_key_created_json-conforms
        Operations.create_api_key_operation 201 auth (create_api_key body draws now)
        (create_api_key-Ends db body draws now) refl refl
  answer-allows p (modules_list hook) auth now =
      authed-allows (items_json module_json) Schemas.module_list_shape
        (items_json-conforms module_json Schemas.module_shape module_json-conforms)
        Operations.list_modules_operation 200 auth (list_modules p.collate hook now)
        (list_modules-Ends db p.collate hook now) refl refl
  answer-allows p (module_upload hook field) auth now =
      authed-allows module_json Schemas.module_shape module_json-conforms
        Operations.upload_module_operation 201 auth (upload_module p.digest hook field now)
        (upload_module-Ends db p.digest hook field now) refl refl
  answer-allows p (binding_put hook body) auth now =
      authed-allows binding_json Schemas.tenant_binding_shape binding_json-conforms
        Operations.update_binding_operation 200 auth (put_binding hook body now)
        (put_binding-Ends db hook body now) refl refl
  answer-allows p tenant_hooks_list auth now = list_tenant_hooks-allows auth
  answer-allows p (key_revoke id) auth now = revoke_api_key-allows auth id now
