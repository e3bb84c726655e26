-- ===== src/Form/Hook/Laws.antt =====
-- The form of a hook and the hook.
use wasm_hooks.Common.{◌≡◌, refl, ap, List, [], ◌∷◌, some, get_or_else}
use wasm_hooks.Json.{obj, Record, props, of_props}
use wasm_hooks.Entity.Hook.{OperatorHook}
use wasm_hooks.Mock.Hooks.{narrowed}
use wasm_hooks.Mock.Hooks.Laws.{narrowed_of_Covers}
use wasm_hooks.Form.StringList.{ListEvent, list_run}
use wasm_hooks.Form.StringList.Laws.{list_run-Covers}
use wasm_hooks.Form.Hook.{
  JsonText, HookFormValues, form_from_hook, spec_from_form, parse_object, object_of_json,
}

props-of_props : (r : Record) → props (of_props r) ≡ r
props-of_props [] = refl
props-of_props ((k, v) ∷ r) = ap (λ s. (k, v) ∷ s) (props-of_props r)

-- `JSON.parse` reads the text of an object back.
abbrev pub ReadsBack : JsonText → Record → Type 0
ReadsBack json r = json.parse (json.pretty (obj (of_props r))) ≡ some (obj (of_props r))

parse_object-pretty :
    (json : JsonText) (r : Record)
    → ReadsBack json r
    → get_or_else (parse_object json (json.pretty (obj (of_props r)))) [] ≡ r
unfolding parse_object object_of_json
parse_object-pretty json r h = rw h (props-of_props r)

-- The form that is opened on a hook, sent as it stands, asks for the definition that the hook has, where `JSON.parse` reads back
-- the texts of the hook's three objects.
pub spec_from_form-form_from_hook :
    (json : JsonText) (h : OperatorHook)
    → ReadsBack json h.input_schema
    → ReadsBack json h.output_schema
    → ReadsBack json h.sample_input
    → spec_from_form json (form_from_hook json h) ≡ h.spec
unfolding spec_from_form form_from_hook
spec_from_form-form_from_hook json h i o s = rw (parse_object-pretty json h.input_schema i) (
    rw (parse_object-pretty json h.output_schema o)
      (rw (parse_object-pretty json h.sample_input s) refl))

abbrev pub edited : OperatorHook → List ListEvent → List ListEvent → JsonText → HookFormValues
edited h hosts effects json = record (form_from_hook json h) {
  allowed_host_functions =
      (list_run h.allowed_host_functions hosts
        (record { draft = ""; value = h.allowed_host_functions })).value;
  allowed_effect_types =
      (list_run h.allowed_effect_types effects
        (record { draft = ""; value = h.allowed_effect_types })).value;
}

-- Whatever is done to the two lists of a form that is opened on a hook, what is sent takes nothing away that the hook allows:
-- the list for which the API would refuse the replacement is empty.
pub edited-narrowed :
    (h : OperatorHook) (hosts effects : List ListEvent) (json : JsonText)
    → narrowed h.spec (spec_from_form json (edited h hosts effects json)) ≡ []
unfolding spec_from_form form_from_hook
edited-narrowed h hosts effects json =
    narrowed_of_Covers h.spec (spec_from_form json (edited h hosts effects json))
      (list_run-Covers h.allowed_host_functions hosts _ (λ x e. e))
      (list_run-Covers h.allowed_effect_types effects _ (λ x e. e))
