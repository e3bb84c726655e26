-- ===== src/Form/Hook.antt =====
-- web/src/features/hook-editor: model/form.ts, the values of the form, their checks and the definition that they make;
-- and of ui/hook-form.tsx the end of a submit. A number field whose text is no integer is `none` for its check.
pub mod Laws
use wasm_hooks.Common.{
  ℕ, ltb, nat_eq, ◌==◌, String, Bool, true, false, not, List, [], ◌∷◌, Option, none, some,
  get_or_else, if◌then◌else◌,
}
use wasm_hooks.Common.Int.{ℤ, pos, below, above}
use wasm_hooks.Text.{concat, decimal, is_empty, utf16_length}
use wasm_hooks.Json.{Json, str, obj, Record, props, of_props}
use wasm_hooks.Api.Client.{Thrown, api_error, other_error}
use wasm_hooks.Entity.Hook.{
  HookSpec, OperatorHook, Range, hook_name_max, hook_name_matches, timeout_ms_range,
  memory_pages_range,
}
use wasm_hooks.Gate.Errors.{is_status}

abbrev pub draft_2020_12 : String
draft_2020_12 = "https://json-schema.org/draft/2020-12/schema"

-- `JSON.parse`, which may throw, and `pretty`, which is `JSON.stringify` with an indentation of 2.
pub record JsonText : Type 0 where
  pub parse : String → Option Json
  pub pretty : Json → String

pub object_of_json : Option Json → Option Record
object_of_json (some (obj fs)) = some (props fs)
object_of_json _ = none

pub record HookFormValues : Type 0 where
  pub name : String
  pub timeout_ms : ℤ
  pub memory_max_pages : ℤ
  pub input_schema : String
  pub output_schema : String
  pub sample_input : String
  pub allowed_host_functions : List String
  pub allowed_effect_types : List String

object_issue : Option Json → Option String
object_issue none = some "Некорректный JSON"
object_issue (some (obj fs)) = none
object_issue (some v) = some "Нужен JSON-объект: { … }"

-- `integerIn`: the first complaint.
unfoldable pub integer_issue : Range → Option ℤ → Option String
unfolding decimal
integer_issue range none = some "Укажите целое число"
integer_issue range (some z) =
    if below z range.low
    then some (concat ("Не меньше " ∷ decimal range.low ∷ []))
    else if above z range.high
    then some (concat ("Не больше " ∷ decimal range.high ∷ []))
    else none

-- The first complaint about a name.
unfoldable pub name_issue : String → Option String
unfolding utf16_length decimal hook_name_matches
name_issue name =
    if is_empty name
    then some "Укажите имя хука"
    else if ltb hook_name_max (utf16_length name)
    then some (concat ("Не длиннее " ∷ decimal hook_name_max ∷ " символов" ∷ []))
    else if hook_name_matches name
    then none
    else some "Строчные латинские буквы, цифры и _, части через точку, например checkout.discount"

module _ (json : JsonText) where
  -- `parseObject`
  unfoldable pub parse_object : String → Option Record
  unfolding object_of_json
  parse_object text = object_of_json (json.parse text)

  -- `jsonObjectText`
  unfoldable pub json_object_issue : String → Option String
  unfolding object_issue
  json_object_issue text = object_issue (json.parse text)

  -- `hookFormSchema`: the first complaint of each field, in the order of the fields.
  unfoldable pub hook_form_issues : HookFormValues → List (String × Option String)
  unfolding name_issue integer_issue json_object_issue
  hook_form_issues v =
      ("name", name_issue v.name)
      ∷ ("timeout_ms", integer_issue timeout_ms_range (some v.timeout_ms))
      ∷ ("memory_max_pages", integer_issue memory_pages_range (some v.memory_max_pages))
      ∷ ("input_schema", json_object_issue v.input_schema)
      ∷ ("output_schema", json_object_issue v.output_schema)
      ∷ ("sample_input", json_object_issue v.sample_input)
      ∷ []

  abbrev blank_schema : Record
  blank_schema =
      ("$schema", str draft_2020_12)
      ∷ ("type", str "object")
      ∷ ("properties", obj (of_props []))
      ∷ []

  -- `emptyHookForm`
  abbrev pub empty_hook_form : HookFormValues
  empty_hook_form = record {
    name = "";
    timeout_ms = pos 50;
    memory_max_pages = pos 64;
    input_schema = json.pretty (obj (of_props blank_schema));
    output_schema = json.pretty (obj (of_props blank_schema));
    sample_input = json.pretty (obj (of_props []));
    allowed_host_functions = [];
    allowed_effect_types = [];
  }

  -- `formFromHook`
  unfoldable pub form_from_hook : OperatorHook → HookFormValues
  form_from_hook hook = record {
    name = hook.name;
    timeout_ms = hook.timeout_ms;
    memory_max_pages = hook.memory_max_pages;
    input_schema = json.pretty (obj (of_props hook.input_schema));
    output_schema = json.pretty (obj (of_props hook.output_schema));
    sample_input = json.pretty (obj (of_props hook.sample_input));
    allowed_host_functions = hook.allowed_host_functions;
    allowed_effect_types = hook.allowed_effect_types;
  }

  -- `specFromForm`
  unfoldable pub spec_from_form : HookFormValues → HookSpec
  unfolding parse_object
  spec_from_form values = record {
    timeout_ms = values.timeout_ms;
    memory_max_pages = values.memory_max_pages;
    input_schema = get_or_else (parse_object values.input_schema) [];
    output_schema = get_or_else (parse_object values.output_schema) [];
    sample_input = get_or_else (parse_object values.sample_input) [];
    allowed_host_functions = values.allowed_host_functions;
    allowed_effect_types = values.allowed_effect_types;
  }

  formatted : String → Option Json → String
  formatted text none = text
  formatted text (some v) = json.pretty v

  -- `formatJson`
  unfoldable pub format_json : String → String
  unfolding formatted
  format_json text = formatted text (json.parse text)

-- What the form says after a submit.
pub data Tone : Type 0 where
  success info : Tone

pub record Notice : Type 0 where
  pub tone : Tone
  pub text : String

-- The notice of a saved hook, by the hook that was edited.
unfoldable pub saved_notice : OperatorHook → OperatorHook → Notice
unfolding decimal
saved_notice hook saved =
    if nat_eq saved.def_version hook.def_version
    then record { tone = info; text = "Изменений нет" }
    else record {
      tone = success;
      text = concat ("Сохранено. Версия определения: " ∷ decimal saved.def_version ∷ []);
    }

-- Where a submit's error goes: to the field of the name, for a name that is taken, or over the form.
pub data Complaint : Type 0 where
  at_name : String → Complaint
  over_form : Thrown → Complaint

thrown_message : Thrown → String
thrown_message (api_error status message detail) = message
thrown_message (other_error message) = message

unfoldable pub complaint_of : Option OperatorHook → Thrown → Complaint
unfolding thrown_message
complaint_of none e = if is_status 409 e then at_name (thrown_message e) else over_form e
complaint_of (some hook) e = over_form e

error_lines : Bool → Option String → List String
error_lines narrowed none = []
error_lines narrowed (some d) =
    let line = if narrowed then concat ("Убраны: " ∷ d ∷ []) else d in
    if is_empty d then [] else line ∷ []

thrown_detail : Thrown → Option String
thrown_detail (api_error status message detail) = detail
thrown_detail (other_error message) = none

-- `ServerError`: its lines.
unfoldable pub server_error : Thrown → List String
unfolding error_lines thrown_detail thrown_message
server_error e = thrown_message e ∷ error_lines (is_status 409 e) (thrown_detail e)
