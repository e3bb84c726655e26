-- ===== src/Contract/Zod.antt =====
-- The zod schemas of the console as data, one constructor for each combinator that the source calls, and zod itself as
-- an interface: which inputs `safeParse` accepts, with the laws that zod documents. The input type of a schema is
-- `z.input`.
pub mod Laws
use text.Mathlib.Text.{starts_with}
use wasm_hooks.Common.{
  String, ltb, leb, Bool, true, false, not, ◌&&◌, ◌||◌, ◌≡◌, List, [], ◌∷◌, Option, none, some, all,
  any, ◌==◌,
}
use wasm_hooks.Common.Int.{ℤ, pos, negsuc, above, below}
use wasm_hooks.Json.{Json, null, bool, whole, fraction, str, arr, obj}
use wasm_hooks.Contract.Shape.{
  Shape, string, number, boolean, nothing, unknown, literal, table, list, either, object, Props,
  done, prop, is_text, is_number, is_boolean, is_null, is_word, is_object, all_elements, all_values,
  field_of, test_field,
}

-- `.int()`, `.positive()` and `.nonnegative()`.
pub data NumberCheck : Type 0 where
  int positive nonnegative : NumberCheck

mutual
  pub data Zod : Type 0 where
    z_string z_boolean z_unknown z_datetime : Zod
    z_number : List NumberCheck → Zod
    -- of a first value and others
    z_enum : String → List String → Zod
    z_array z_record z_nullish z_nullable z_optional : Zod → Zod
    -- `.transform((value) => value ?? fallback)`
    z_fallback : Zod → Json → Zod
    z_object : ZodFields → Zod

  pub data ZodFields : Type 0 where
    z_end : ZodFields
    z_field : String → Zod → ZodFields → ZodFields

-- `a.extend(b)`, with other names in `b`.
unfoldable pub z_extend : ZodFields → ZodFields → ZodFields
z_extend z_end fs = fs
z_extend (z_field name s es) fs = z_field name s (z_extend es fs)

abbrev pub union_of : String → List String → Shape
union_of w [] = literal w
union_of w (v ∷ ws) = either (literal w) (union_of v ws)

-- A property that may be left out.
abbrev pub may_be_absent : Zod → Bool
may_be_absent (z_nullish s) = true
may_be_absent (z_optional s) = true
may_be_absent (z_fallback s d) = may_be_absent s
may_be_absent _ = false

-- `z.input<typeof schema>`
unfoldable mutual
  pub input_of : Zod → Shape
  input_of z_string = string
  input_of z_boolean = boolean
  input_of z_unknown = unknown
  input_of z_datetime = string
  input_of (z_number checks) = number
  input_of (z_enum w ws) = union_of w ws
  input_of (z_array s) = list (input_of s)
  input_of (z_record s) = table (input_of s)
  input_of (z_nullish s) = either (input_of s) nothing
  input_of (z_nullable s) = either (input_of s) nothing
  input_of (z_optional s) = input_of s
  input_of (z_fallback s d) = input_of s
  input_of (z_object fs) = object (inputs_of fs)

  pub inputs_of : ZodFields → Props
  inputs_of z_end = done
  inputs_of (z_field name s fs) = prop name (may_be_absent s) (input_of s) (inputs_of fs)

-- `Number.isSafeInteger`
abbrev pub is_safe : ℤ → Bool
is_safe (pos n) = leb n 9007199254740991
is_safe (negsuc n) = ltb n 9007199254740991

-- What zod documents: `.int()` takes the safe integers alone.
abbrev pub meets : NumberCheck → Json → Bool
meets int (whole z) = is_safe z
meets positive (whole z) = above z 0
meets positive (fraction s) = not (starts_with "-" s)
meets nonnegative (whole z) = not (below z 0)
meets nonnegative (fraction s) = not (starts_with "-" s)
meets check v = false

abbrev pub is_absent : Option Json → Bool
is_absent none = true
is_absent (some v) = false

abbrev pub is_null_at : Option Json → Bool
is_null_at none = false
is_null_at (some v) = is_null v

abbrev pub date_at : (String → Bool) → Json → Bool
date_at is_datetime (str s) = is_datetime s
date_at is_datetime v = false

-- Each field passes the test of its schema.
abbrev pub test_fields : (Zod → Option Json → Bool) → ZodFields → Json → Bool
test_fields p z_end v = true
test_fields p (z_field name s fs) v = p s (field_of name v) && test_fields p fs v

-- What zod says of its combinators: `accepts s o` is whether `s.safeParse(o)` succeeds, `none` being `undefined`.
pub record ZodLaws (is_datetime : String → Bool) (accepts : Zod → Option Json → Bool) : Type 0 where
  pub on_string : (o : Option Json) → accepts z_string o ≡ test_field false (λ v. is_text v) o
  pub on_boolean : (o : Option Json) → accepts z_boolean o ≡ test_field false (λ v. is_boolean v) o
  pub on_unknown : (v : Json) → accepts z_unknown (some v) ≡ true
  pub on_datetime :
      (o : Option Json) → accepts z_datetime o ≡ test_field false (λ v. date_at is_datetime v) o
  pub on_number :
      (checks : List NumberCheck) (o : Option Json)
      → accepts (z_number checks) o
        ≡ test_field false (λ v. is_number v && all (λ c. meets c v) checks) o
  pub on_enum :
      (w : String) (ws : List String) (o : Option Json)
      → accepts (z_enum w ws) o ≡ test_field false (λ v. any (λ u. is_word u v) (w ∷ ws)) o
  pub on_array :
      (s : Zod) (o : Option Json)
      → accepts (z_array s) o ≡ test_field false (all_elements (λ w. accepts s (some w))) o
  pub on_record :
      (s : Zod) (o : Option Json)
      → accepts (z_record s) o ≡ test_field false (all_values (λ w. accepts s (some w))) o
  pub on_nullish :
      (s : Zod) (o : Option Json)
      → accepts (z_nullish s) o ≡ (is_absent o || is_null_at o || accepts s o)
  pub on_nullable :
      (s : Zod) (o : Option Json) → accepts (z_nullable s) o ≡ (is_null_at o || accepts s o)
  pub on_optional :
      (s : Zod) (o : Option Json) → accepts (z_optional s) o ≡ (is_absent o || accepts s o)
  pub on_fallback :
      (s : Zod) (d : Json) (o : Option Json) → accepts (z_fallback s d) o ≡ accepts s o
  pub on_object :
      (fs : ZodFields) (o : Option Json)
      → accepts (z_object fs) o ≡ test_field false (λ v. is_object v && test_fields accepts fs v) o

-- What a schema asks for beyond its input type: checks of numbers, and dates.
unfoldable mutual
  pub refined : (String → Bool) → Zod → Json → Bool
  refined d z_string v = true
  refined d z_boolean v = true
  refined d z_unknown v = true
  refined d z_datetime v = date_at d v
  refined d (z_number checks) v = all (λ c. meets c v) checks
  refined d (z_enum w ws) v = true
  refined d (z_array s) v = all_elements (λ w. refined d s w) v
  refined d (z_record s) v = all_values (λ w. refined d s w) v
  refined d (z_nullish s) v = is_null v || refined d s v
  refined d (z_nullable s) v = is_null v || refined d s v
  refined d (z_optional s) v = refined d s v
  refined d (z_fallback s f) v = refined d s v
  refined d (z_object fs) v = refined_fields d fs v

  pub refined_fields : (String → Bool) → ZodFields → Json → Bool
  refined_fields d z_end v = true
  refined_fields d (z_field name s fs) v =
      test_field true (λ w. refined d s w) (field_of name v) && refined_fields d fs v
