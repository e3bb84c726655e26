-- ===== src/Examples/Hooks.antt =====
-- The requests of /hooks.
use wasm_hooks.Common.{◌≡◌, refl, [], ◌∷◌, some, find, distinct, sort}
use wasm_hooks.Json.{Record, str}
use wasm_hooks.Entity.Hook.{OperatorHook}
use wasm_hooks.Mock.Http.{json}
use wasm_hooks.Mock.Hooks.Check.{body_error, hook_error, spec_of}
use wasm_hooks.Mock.Hooks.{has_name, narrowed, put_hook, get_hook}
use wasm_hooks.Mock.Hooks.Due.{due_hook, spec_texts}
use wasm_hooks.Mock.Hooks.Replace.{put_hook-get_hook, Evolves}
use wasm_hooks.Mock.Hooks.Survive.{put_hook-Evolves}
use wasm_hooks.Mock.Seed.{validate_spec}
use wasm_hooks.Text.{text_le}
use wasm_hooks.Examples.Data.{start, noon, definition}

abbrev refund : Record
refund = ("name", str "order.refund") ∷ definition []

-- A wider definition of `order.validate`.
abbrev wider : Record
wider = definition ("order.flag" ∷ "order.hold" ∷ [])

abbrev order_validate : OperatorHook
order_validate = record {
  name = "order.validate";
  def_version = 1;
  spec = validate_spec;
  created_at = "2026-09-20T09:30:00Z";
  updated_at = "2026-09-20T09:30:00Z";
}

put_hook-get_hook_example :
    let after = (put_hook "order.validate" wider noon start).1 in
    let h = due_hook order_validate (spec_of wider) noon in
    ((put_hook "order.validate" wider noon start).0 ≡ json 200 h)
    × (spec_texts h.spec ≡ spec_texts (spec_of wider))
    × (get_hook "order.validate" after ≡ (json 200 h, after))
    × ((get_hook "checkout.discount" after).0 ≡ (get_hook "checkout.discount" start).0)
unfolding body_error hook_error spec_of narrowed text_le sort
put_hook-get_hook_example =
    put_hook-get_hook "order.validate" wider refl refl start order_validate noon refl refl
      "checkout.discount" (distinct _ _ refl)

put_hook-Evolves_example :
    (h : OperatorHook) × (find
        (has_name "order.validate")
        (put_hook "order.validate" wider noon start).1.hooks
      ≡ some h)
    × Evolves order_validate h
put_hook-Evolves_example =
    put_hook-Evolves start "order.validate" "order.validate" wider noon order_validate refl
