-- ===== src/Mock/Hooks.antt =====
-- web/src/mocks/operator-hooks.ts: the handlers of /hooks.
pub mod Due
pub mod Ends
pub mod Check
pub mod Valid
pub mod Laws
pub mod Replace
pub mod Survive
pub mod Frame
pub mod Keeps
use wasm_hooks.Common.{
  ℕ, ◌+◌, if◌then◌else◌, ◌==◌, String, Bool, true, false, not, ◌&&◌, List, [], ◌∷◌, ◌++◌, map,
  Option, none, some, any, keep, find, replace_first, sort,
}
use wasm_hooks.Text.{text_le}
use wasm_hooks.Json.{Record, lookup, join, str, of_elems, of_props, arr, obj, whole}
use wasm_hooks.Json.Stringify.{stringify}
use wasm_hooks.Clock.{to_iso_string}
use wasm_hooks.Entity.Hook.{HookSpec, OperatorHook}
use wasm_hooks.Mock.Db.{Db}
use wasm_hooks.Mock.Http.{Reply, json, fail}
use Check.{body_error, hook_error, spec_of, name_of, spec_fields, required_fields}

abbrev pub hook_not_found : String
hook_not_found = "Хук не найден"

abbrev pub has_name : String → OperatorHook → Bool
has_name name h = h.name == name

abbrev pub contains : List String → String → Bool
contains xs x = any (λ y. y == x) xs

-- The texts of the lists of names.
abbrev pub names_text : List String → String
names_text xs = stringify (arr (of_elems (map str xs)))

-- `sameSpec`: the fields have the same JSON texts.
unfoldable pub same_spec : HookSpec → HookSpec → Bool
same_spec a b =
    stringify (obj (of_props a.input_schema)) == stringify (obj (of_props b.input_schema))
    && stringify (obj (of_props a.output_schema)) == stringify (obj (of_props b.output_schema))
    && stringify (whole a.timeout_ms) == stringify (whole b.timeout_ms)
    && stringify (whole a.memory_max_pages) == stringify (whole b.memory_max_pages)
    && names_text a.allowed_host_functions == names_text b.allowed_host_functions
    && names_text a.allowed_effect_types == names_text b.allowed_effect_types
    && stringify (obj (of_props a.sample_input)) == stringify (obj (of_props b.sample_input))

-- The capabilities that a new definition would take away.
pub missing_from : List String → List String → List String
missing_from new old = keep (λ x. not (contains new x)) old

unfoldable pub narrowed : HookSpec → HookSpec → List String
unfolding missing_from
narrowed current spec = sort text_le (
    missing_from spec.allowed_host_functions current.allowed_host_functions
    ++ missing_from spec.allowed_effect_types current.allowed_effect_types)

unfoldable pub new_hook : String → HookSpec → ℕ → OperatorHook
new_hook name spec now = record {
  name = name;
  def_version = 1;
  spec = spec;
  created_at = to_iso_string now;
  updated_at = to_iso_string now;
}

unfoldable pub replaced : OperatorHook → HookSpec → ℕ → OperatorHook
replaced current spec now = record current {
  spec = spec;
  def_version = current.def_version + 1;
  updated_at = to_iso_string now;
}

module _ {F : Type 0} where
  abbrev pub malformed : {A : Type 0} → String → Db F → Reply A × Db F
  malformed detail db = (fail 422 "Некорректный запрос" (some detail), db)

  abbrev pub ill_defined : {A : Type 0} → String → Db F → Reply A × Db F
  ill_defined detail db = (fail 422 "Невалидное определение хука" (some detail), db)

  -- `GET /hooks`; `collate` is `localeCompare` as a test.
  unfoldable pub list_hooks : (String → String → Bool) → Db F → Reply (List OperatorHook) × Db F
  list_hooks collate db = (json 200 (sort (λ a b. collate a.name b.name) db.hooks), db)

  unfoldable pub found_hook : String → Option OperatorHook → Db F → Reply OperatorHook × Db F
  found_hook name none db = (fail 404 hook_not_found (some name), db)
  found_hook name (some h) db = (json 200 h, db)

  -- `GET /hooks/:name`
  unfoldable pub get_hook : String → Db F → Reply OperatorHook × Db F
  unfolding found_hook
  get_hook name db = found_hook name (find (has_name name) db.hooks) db

  pub insert_hook : OperatorHook → Db F → Reply OperatorHook × Db F
  insert_hook h db =
      if any (has_name h.name) db.hooks
      then (fail 409 "Хук с таким именем уже есть" (some h.name), db)
      else (json 201 h, record db { hooks = db.hooks ++ h ∷ [] })

  pub create_defined : Option String → String → HookSpec → ℕ → Db F → Reply OperatorHook × Db F
  unfolding insert_hook new_hook
  create_defined (some detail) name spec now db = ill_defined detail db
  create_defined none name spec now db = insert_hook (new_hook name spec now) db

  pub create_checked : Option String → Record → ℕ → Db F → Reply OperatorHook × Db F
  unfolding create_defined hook_error spec_of name_of
  create_checked (some detail) body now db = malformed detail db
  create_checked none body now db =
      create_defined (hook_error (spec_of body)) (name_of body) (spec_of body) now db

  -- `POST /hooks`
  unfoldable pub create_hook : Record → ℕ → Db F → Reply OperatorHook × Db F
  unfolding create_checked create_defined insert_hook body_error
  create_hook body now db =
      create_checked (body_error body ("name" ∷ spec_fields) ("name" ∷ required_fields)) body now db

  -- The hook is there and no capability is missing: nothing to do, or a new version.
  pub store_hook : OperatorHook → String → HookSpec → ℕ → Db F → Reply OperatorHook × Db F
  unfolding same_spec replaced
  store_hook current name spec now db =
      if same_spec current.spec spec then (json 200 current, db) else (
        json 200 (replaced current spec now),
        record db { hooks = replace_first (has_name name) (replaced current spec now) db.hooks },
      )

  pub widen_hook :
      List String → OperatorHook → String → HookSpec → ℕ → Db F → Reply OperatorHook × Db F
  unfolding store_hook
  widen_hook [] current name spec now db = store_hook current name spec now db
  widen_hook (x ∷ xs) current name spec now db =
      (fail 409 "Нельзя сузить список разрешённых возможностей" (some (join ", " (x ∷ xs))), db)

  pub replace_found : Option OperatorHook → String → HookSpec → ℕ → Db F → Reply OperatorHook × Db F
  unfolding widen_hook narrowed
  replace_found none name spec now db = (fail 404 hook_not_found (some name), db)
  replace_found (some current) name spec now db =
      widen_hook (narrowed current.spec spec) current name spec now db

  pub replace_defined : Option String → String → HookSpec → ℕ → Db F → Reply OperatorHook × Db F
  unfolding replace_found
  replace_defined (some detail) name spec now db = ill_defined detail db
  replace_defined none name spec now db =
      replace_found (find (has_name name) db.hooks) name spec now db

  pub replace_checked : Option String → String → Record → ℕ → Db F → Reply OperatorHook × Db F
  unfolding replace_defined hook_error spec_of
  replace_checked (some detail) name body now db = malformed detail db
  replace_checked none name body now db =
      replace_defined (hook_error (spec_of body)) name (spec_of body) now db

  -- `PUT /hooks/:name`
  unfoldable pub put_hook : String → Record → ℕ → Db F → Reply OperatorHook × Db F
  unfolding replace_checked replace_defined replace_found widen_hook store_hook body_error
  put_hook name body now db =
      replace_checked (body_error body spec_fields required_fields) name body now db
