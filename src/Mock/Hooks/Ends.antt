-- ===== src/Mock/Hooks/Ends.antt =====
-- How the replies of the handlers of /hooks end.
use wasm_hooks.Common.{
  ℕ, refl, String, List, [], ◌∷◌, Option, none, some, arith, Bool-cases, inl, inr, find, any,
}
use wasm_hooks.Json.{Record}
use wasm_hooks.Entity.Hook.{HookSpec, OperatorHook}
use wasm_hooks.Mock.Db.{Db}
use wasm_hooks.Mock.Hooks.Check.{
  body_error, hook_error, spec_of, name_of, spec_fields, required_fields,
}
use wasm_hooks.Mock.Hooks.{
  has_name, narrowed, new_hook, same_spec, get_hook, found_hook, create_hook, create_defined,
  insert_hook, put_hook, replace_checked, replace_defined, replace_found, widen_hook, store_hook,
  create_checked,
}
use wasm_hooks.Mock.Http.Ends.{Ends}

module _ {F : Type 0} (db : Db F) where
  found_hook-Ends : (name : String) (o : Option OperatorHook) → Ends 200 (found_hook name o db).0
  unfolding found_hook
  found_hook-Ends name none = omega arith
  found_hook-Ends name (some h) = refl

  pub get_hook-Ends : (name : String) → Ends 200 (get_hook name db).0
  unfolding get_hook
  get_hook-Ends name = found_hook-Ends name (find (has_name name) db.hooks)

  insert_hook-Ends : (h : OperatorHook) → Ends 201 (insert_hook h db).0
  unfolding insert_hook
  insert_hook-Ends h = elim (Bool-cases (any (has_name h.name) db.hooks)) [
    | inl taken ↦ rw taken (omega arith)
    | inr free ↦ rw free refl
  ]

  create_defined-Ends :
      (o : Option String) (name : String) (spec : HookSpec) (now : ℕ)
      → Ends 201 (create_defined o name spec now db).0
  unfolding create_defined
  create_defined-Ends none name spec now = insert_hook-Ends (new_hook name spec now)
  create_defined-Ends (some d) name spec now = omega arith

  create_checked-Ends :
      (o : Option String) (body : Record) (now : ℕ) → Ends 201 (create_checked o body now db).0
  unfolding create_checked
  create_checked-Ends none body now =
      create_defined-Ends (hook_error (spec_of body)) (name_of body) (spec_of body) now
  create_checked-Ends (some d) body now = omega arith

  pub create_hook-Ends : (body : Record) (now : ℕ) → Ends 201 (create_hook body now db).0
  unfolding create_hook
  create_hook-Ends body now =
      create_checked-Ends (body_error body ("name" ∷ spec_fields) ("name" ∷ required_fields)) body
        now

  store_hook-Ends :
      (current : OperatorHook) (name : String) (spec : HookSpec) (now : ℕ)
      → Ends 200 (store_hook current name spec now db).0
  unfolding store_hook
  store_hook-Ends current name spec now = elim (Bool-cases (same_spec current.spec spec)) [
    | inl same ↦ rw same refl
    | inr other ↦ rw other refl
  ]

  widen_hook-Ends :
      (xs : List String) (current : OperatorHook) (name : String) (spec : HookSpec) (now : ℕ)
      → Ends 200 (widen_hook xs current name spec now db).0
  unfolding widen_hook
  widen_hook-Ends [] current name spec now = store_hook-Ends current name spec now
  widen_hook-Ends (x ∷ xs) current name spec now = omega arith

  replace_found-Ends :
      (o : Option OperatorHook) (name : String) (spec : HookSpec) (now : ℕ)
      → Ends 200 (replace_found o name spec now db).0
  unfolding replace_found
  replace_found-Ends none name spec now = omega arith
  replace_found-Ends (some current) name spec now =
      widen_hook-Ends (narrowed current.spec spec) current name spec now

  replace_defined-Ends :
      (o : Option String) (name : String) (spec : HookSpec) (now : ℕ)
      → Ends 200 (replace_defined o name spec now db).0
  unfolding replace_defined
  replace_defined-Ends none name spec now =
      replace_found-Ends (find (has_name name) db.hooks) name spec now
  replace_defined-Ends (some d) name spec now = omega arith

  replace_checked-Ends :
      (o : Option String) (name : String) (body : Record) (now : ℕ)
      → Ends 200 (replace_checked o name body now db).0
  unfolding replace_checked
  replace_checked-Ends none name body now =
      replace_defined-Ends (hook_error (spec_of body)) name (spec_of body) now
  replace_checked-Ends (some d) name body now = omega arith

  pub put_hook-Ends :
      (name : String) (body : Record) (now : ℕ) → Ends 200 (put_hook name body now db).0
  unfolding put_hook
  put_hook-Ends name body now =
      replace_checked-Ends (body_error body spec_fields required_fields) name body now
