-- ===== src/Mock/Hooks/Check.antt =====
-- web/src/mocks/operator-hooks.ts: the checks of a request body and of a definition.
use wasm_hooks.Common.{
  ltb, if◌then◌else◌, ◌==◌, String, Bool, true, false, not, List, [], ◌∷◌, map, Option, none, some,
  any, keep, or_else, sort,
}
use wasm_hooks.Common.Int.{ℤ, pos, below, above}
use wasm_hooks.Text.{concat, decimal, utf16_length, is_empty, text_le}
use wasm_hooks.Json.{
  Json, whole, str, arr, obj, Record, props, elems, lookup, has_property, to_text,
}
use wasm_hooks.Entity.Hook.{
  HookSpec, Range, timeout_ms_range, memory_pages_range, hook_name_max, hook_name_matches,
}

abbrev pub spec_fields : List String
spec_fields =
    "input_schema" ∷ "output_schema" ∷ "timeout_ms" ∷ "memory_max_pages" ∷ "allowed_host_functions"
    ∷ "allowed_effect_types" ∷ "sample_input" ∷ []

abbrev pub required_fields : List String
required_fields =
    "input_schema" ∷ "output_schema" ∷ "timeout_ms" ∷ "memory_max_pages" ∷ "sample_input" ∷ []

abbrev pub draft_2020_12 : String
draft_2020_12 = "https://json-schema.org/draft/2020-12/schema"

abbrev pub about : String → String → Option String
about field what = some (concat ("body." ∷ field ∷ ": " ∷ what ∷ []))

-- The first key that is not allowed.
unfoldable pub extra_error : Record → List String → Option String
extra_error [] allowed = none
extra_error ((key, v) ∷ body) allowed =
    let later = extra_error body allowed in
    if any (λ a. a == key) allowed then later else about key "Extra inputs are not permitted"

-- The first required key that is missing.
unfoldable pub missing_error : Record → List String → Option String
unfolding has_property
missing_error body [] = none
missing_error body (key ∷ keys) =
    let later = missing_error body keys in
    if has_property key body then later else about key "Field required"

unfoldable pub hook_name_error : String → Option String
unfolding utf16_length hook_name_matches
hook_name_error name =
    if ltb hook_name_max (utf16_length name)
    then about "name"
        (concat ("String should have at most " ∷ decimal hook_name_max ∷ " characters" ∷ []))
    else if hook_name_matches name
    then none
    else about "name" "String should match pattern '^[a-z][a-z0-9_]*(\\.[a-z][a-z0-9_]*)*$'"

-- `String(body[field])`
unfoldable pub field_text : Option Json → String
field_text none = "undefined"
field_text (some v) = to_text v

unfoldable pub name_of : Record → String
unfolding field_text lookup to_text
name_of body = field_text (lookup "name" body)

unfoldable pub named_error : Record → Option String
unfolding has_property hook_name_error name_of
named_error body = if has_property "name" body then hook_name_error (name_of body) else none

unfoldable pub range_error : String → Range → Option Json → Option String
range_error field range (some (whole z)) =
    if below z range.low
    then about field (concat ("Input should be greater than or equal to " ∷ decimal range.low ∷ []))
    else if above z range.high
    then about field (concat ("Input should be less than or equal to " ∷ decimal range.high ∷ []))
    else none
range_error field range v = about field "Input should be a valid integer"

unfoldable pub object_error : String → Option Json → Option String
object_error field (some (obj fs)) = none
object_error field v = about field "Input should be a valid dictionary"

-- `bodyError`: the first complaint.
unfoldable pub body_error : Record → List String → List String → Option String
unfolding extra_error missing_error named_error range_error object_error lookup
body_error body allowed required = or_else (extra_error body allowed) (
    or_else (missing_error body required) (
      or_else (named_error body) (
        or_else (range_error "timeout_ms" timeout_ms_range (lookup "timeout_ms" body)) (
          or_else
            (range_error "memory_max_pages" memory_pages_range (lookup "memory_max_pages" body))
            (or_else (object_error "input_schema" (lookup "input_schema" body)) (
              or_else (object_error "output_schema" (lookup "output_schema" body))
                (object_error "sample_input" (lookup "sample_input" body))))))))

-- `schema.$schema` is missing or the one dialect.
unfoldable pub dialect_ok : Option Json → Bool
dialect_ok none = true
dialect_ok (some (str s)) = s == draft_2020_12
dialect_ok (some v) = false

unfoldable pub dialect_error : String → Record → Option String
unfolding dialect_ok lookup
dialect_error field schema =
    if dialect_ok (lookup "$schema" schema)
    then none
    else some (
        concat (
          field ∷ ": only draft 2020-12 is supported, $schema must be '" ∷ draft_2020_12 ∷ "'"
          ∷ []))

-- `required.find((key) => typeof key === "string" && !(key in sample))`
unfoldable pub first_missing : Record → List Json → Option String
unfolding has_property
first_missing sample [] = none
first_missing sample (str key ∷ keys) =
    let later = first_missing sample keys in if has_property key sample then later else some key
first_missing sample (_ ∷ keys) = first_missing sample keys

-- `if (missing) …`: the empty text counts as nothing.
unfoldable pub missing_text : Option String → Option String
missing_text none = none
missing_text (some key) =
    if is_empty key
    then none
    else some (concat ("sample_input: /: '" ∷ key ∷ "' is a required property" ∷ []))

unfoldable pub required_error : Option Json → Record → Option String
unfolding first_missing missing_text
required_error (some (arr keys)) sample = missing_text (first_missing sample (elems keys))
required_error v sample = none

-- `hookError`
unfoldable pub hook_error : HookSpec → Option String
unfolding dialect_error required_error lookup
hook_error spec = or_else (dialect_error "input_schema" spec.input_schema) (
    or_else (dialect_error "output_schema" spec.output_schema)
      (required_error (lookup "required" spec.input_schema) spec.sample_input))

-- `[...new Set(xs)]`: the first of equal texts stays.
unfoldable pub unique : List String → List String
unique [] = []
unique (x ∷ xs) = x ∷ keep (λ y. not (y == x)) (unique xs)

-- `sorted(value)`
unfoldable pub sorted_names : Option Json → List String
unfolding unique to_text
sorted_names (some (arr vs)) = sort text_le (unique (map to_text (elems vs)))
sorted_names v = []

unfoldable pub record_of : Option Json → Record
record_of (some (obj fs)) = props fs
record_of v = []

unfoldable pub number_of : Option Json → ℤ
number_of (some (whole z)) = z
number_of v = pos 0

-- `specOf`, of a body that passed `bodyError`.
unfoldable pub spec_of : Record → HookSpec
unfolding sorted_names record_of number_of lookup
spec_of body = record {
  input_schema = record_of (lookup "input_schema" body);
  output_schema = record_of (lookup "output_schema" body);
  timeout_ms = number_of (lookup "timeout_ms" body);
  memory_max_pages = number_of (lookup "memory_max_pages" body);
  allowed_host_functions = sorted_names (lookup "allowed_host_functions" body);
  allowed_effect_types = sorted_names (lookup "allowed_effect_types" body);
  sample_input = record_of (lookup "sample_input" body);
}
