-- ===== src/Mock/Hooks/Frame.antt =====
-- The handlers of /hooks write the hooks alone, and nothing when they refuse.
use wasm_hooks.Common.{ℕ, ◌≤◌, ◌≡◌, refl, String, List, [], ◌∷◌, Option, none, some, arith, find}
use wasm_hooks.Json.{Record}
use wasm_hooks.Entity.Hook.{HookSpec, OperatorHook}
use wasm_hooks.Mock.Db.{Db}
use wasm_hooks.Mock.Http.{Reply, status_of}
use wasm_hooks.Mock.Hooks.Check.{
  body_error, hook_error, spec_of, name_of, spec_fields, required_fields,
}
use wasm_hooks.Mock.Hooks.{
  has_name, narrowed, new_hook, insert_hook, create_defined, create_checked, create_hook,
  store_hook, widen_hook, replace_found, replace_defined, replace_checked, put_hook,
}

module _ {F : Type 0} (db : Db F) where
  abbrev pub WritesHooks : {A : Type 0} → Reply A × Db F → Type 0
  WritesHooks (reply, db') =
      (db' ≡ record db { hooks = db'.hooks }) × (400 ≤ status_of reply → db' ≡ db)

  insert_hook-frame : (h : OperatorHook) → WritesHooks (insert_hook h db)
  unfolding insert_hook
  insert_hook-frame h = ground arith

  create_defined-frame :
      (o : Option String) (name : String) (spec : HookSpec) (now : ℕ)
      → WritesHooks (create_defined o name spec now db)
  unfolding create_defined
  create_defined-frame none name spec now = insert_hook-frame (new_hook name spec now)
  create_defined-frame (some d) name spec now = (refl, λ h. refl)

  create_checked-frame :
      (o : Option String) (body : Record) (now : ℕ) → WritesHooks (create_checked o body now db)
  unfolding create_checked
  create_checked-frame none body now =
      create_defined-frame (hook_error (spec_of body)) (name_of body) (spec_of body) now
  create_checked-frame (some d) body now = (refl, λ h. refl)

  pub create_hook-frame : (body : Record) (now : ℕ) → WritesHooks (create_hook body now db)
  unfolding create_hook
  create_hook-frame body now =
      create_checked-frame (body_error body ("name" ∷ spec_fields) ("name" ∷ required_fields)) body
        now

  store_hook-frame :
      (current : OperatorHook) (name : String) (spec : HookSpec) (now : ℕ)
      → WritesHooks (store_hook current name spec now db)
  unfolding store_hook
  store_hook-frame current name spec now = ground arith

  widen_hook-frame :
      (xs : List String) (current : OperatorHook) (name : String) (spec : HookSpec) (now : ℕ)
      → WritesHooks (widen_hook xs current name spec now db)
  unfolding widen_hook
  widen_hook-frame [] current name spec now = store_hook-frame current name spec now
  widen_hook-frame (x ∷ xs) current name spec now = (refl, λ h. refl)

  replace_found-frame :
      (o : Option OperatorHook) (name : String) (spec : HookSpec) (now : ℕ)
      → WritesHooks (replace_found o name spec now db)
  unfolding replace_found
  replace_found-frame none name spec now = (refl, λ h. refl)
  replace_found-frame (some current) name spec now =
      widen_hook-frame (narrowed current.spec spec) current name spec now

  replace_defined-frame :
      (o : Option String) (name : String) (spec : HookSpec) (now : ℕ)
      → WritesHooks (replace_defined o name spec now db)
  unfolding replace_defined
  replace_defined-frame none name spec now =
      replace_found-frame (find (has_name name) db.hooks) name spec now
  replace_defined-frame (some d) name spec now = (refl, λ h. refl)

  replace_checked-frame :
      (o : Option String) (name : String) (body : Record) (now : ℕ)
      → WritesHooks (replace_checked o name body now db)
  unfolding replace_checked
  replace_checked-frame none name body now =
      replace_defined-frame (hook_error (spec_of body)) name (spec_of body) now
  replace_checked-frame (some d) name body now = (refl, λ h. refl)

  pub put_hook-frame :
      (name : String) (body : Record) (now : ℕ) → WritesHooks (put_hook name body now db)
  unfolding put_hook
  put_hook-frame name body now =
      replace_checked-frame (body_error body spec_fields required_fields) name body now
