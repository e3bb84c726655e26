-- ===== src/Mock/Hooks/Due.antt =====
-- The hook that a replacement should leave, by the JSON texts of its definition.
use wasm_hooks.Common.{
  ℕ, ◌≡◌, refl, ◌+◌, map, String, Bool, true, false, ◌==◌, ◌&&◌, List, [], ◌∷◌, arith, eq_iff,
  if◌then◌else◌,
}
use wasm_hooks.Json.{str, whole, arr, obj, of_elems, of_props}
use wasm_hooks.Json.Stringify.{stringify}
use wasm_hooks.Clock.{to_iso_string}
use wasm_hooks.Entity.Hook.{HookSpec, OperatorHook}
use wasm_hooks.Mock.Hooks.{same_spec}

-- The JSON texts of a definition's fields.
abbrev pub spec_texts : HookSpec → List String
spec_texts s =
    stringify (obj (of_props s.input_schema))
    ∷ stringify (obj (of_props s.output_schema))
    ∷ stringify (whole s.timeout_ms)
    ∷ stringify (whole s.memory_max_pages)
    ∷ stringify (arr (of_elems (map str s.allowed_host_functions)))
    ∷ stringify (arr (of_elems (map str s.allowed_effect_types)))
    ∷ stringify (obj (of_props s.sample_input))
    ∷ []

pub same_spec-texts : (a b : HookSpec) → same_spec a b ≡ true → spec_texts a ≡ spec_texts b
unfolding same_spec
same_spec-texts a b h = grind (arith, eq_iff)

-- Two lists of texts are the same.
abbrev pub same_texts : List String → List String → Bool
same_texts [] [] = true
same_texts (x ∷ xs) (y ∷ ys) = x == y && same_texts xs ys
same_texts _ _ = false

-- The tests one after the other, from the left and from the right.
seven :
    (a b c d e f g : Bool)
    → (a && b && c && d && e && f && g) ≡ (a && (b && (c && (d && (e && (f && (g && true)))))))
seven false b c d e f g = refl
seven true false c d e f g = refl
seven true true false d e f g = refl
seven true true true false e f g = refl
seven true true true true false f g = refl
seven true true true true true false g = refl
seven true true true true true true false = refl
seven true true true true true true true = refl

pub same_spec-same_texts :
    (a b : HookSpec) → same_spec a b ≡ same_texts (spec_texts a) (spec_texts b)
unfolding same_spec
same_spec-same_texts a b =
    seven (stringify (obj (of_props a.input_schema)) == stringify (obj (of_props b.input_schema)))
      (stringify (obj (of_props a.output_schema)) == stringify (obj (of_props b.output_schema)))
      (stringify (whole a.timeout_ms) == stringify (whole b.timeout_ms))
      (stringify (whole a.memory_max_pages) == stringify (whole b.memory_max_pages))
      (stringify (arr (of_elems (map str a.allowed_host_functions)))
        == stringify (arr (of_elems (map str b.allowed_host_functions))))
      (stringify (arr (of_elems (map str a.allowed_effect_types)))
        == stringify (arr (of_elems (map str b.allowed_effect_types))))
      (stringify (obj (of_props a.sample_input)) == stringify (obj (of_props b.sample_input)))

-- The hook that a replacement should leave.
abbrev pub due_hook : OperatorHook → HookSpec → ℕ → OperatorHook
due_hook current spec now =
    if same_texts (spec_texts current.spec) (spec_texts spec) then current else record {
      name = current.name;
      def_version = current.def_version + 1;
      spec = spec;
      created_at = current.created_at;
      updated_at = to_iso_string now;
    }
