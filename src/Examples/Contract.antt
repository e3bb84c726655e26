-- ===== src/Examples/Contract.antt =====
-- The contract at concrete schemas and answers.
use wasm_hooks.Common.{
  String, Bool, true, false, not, ◌&&◌, ◌||◌, ◌≡◌, refl, [], ◌∷◌, Option, none, some, all, any, ap,
}
use mathlib.Core.List.{Memᴰ}
use wasm_hooks.Text.{is_empty}
use wasm_hooks.Json.{Json, str, obj, whole, of_props}
use wasm_hooks.Common.Int.{pos}
use wasm_hooks.Contract.Shape.{
  conforms, is_text, is_boolean, is_number, is_word, is_object, all_elements, all_values, field_of,
  test_field,
}
use wasm_hooks.Contract.Zod.{
  Zod, z_string, z_boolean, z_unknown, z_datetime, z_number, z_enum, z_array, z_record, z_nullish,
  z_nullable, z_optional, z_fallback, z_object, ZodFields, z_end, z_field, ZodLaws, refined,
  test_fields, date_at, meets, is_absent, is_null_at,
}
use wasm_hooks.Contract.Schemas
use wasm_hooks.Contract.Codecs
use wasm_hooks.Mock.Server.{tenant_create}
use wasm_hooks.Mock.Server.Answers.{allows, answer, operation_of}
use wasm_hooks.Mock.Server.Conforms.{answer-allows}
use wasm_hooks.Examples.Data.{start, browser, noon, new_shop}
use wasm_hooks.Contract.Checks.{accept, accept_checks-accepts}

-- A `safeParse` as zod documents it, for which every text that is not empty is a date.
abbrev is_date : String → Bool
is_date s = not (is_empty s)

mutual
  accepts : Zod → Option Json → Bool
  accepts z_string o = test_field false (λ v. is_text v) o
  accepts z_boolean o = test_field false (λ v. is_boolean v) o
  accepts z_unknown o = true
  accepts z_datetime o = test_field false (λ v. date_at is_date v) o
  accepts (z_number checks) o = test_field false (λ v. is_number v && all (λ c. meets c v) checks) o
  accepts (z_enum w ws) o = test_field false (λ v. any (λ u. is_word u v) (w ∷ ws)) o
  accepts (z_array s) o = test_field false (all_elements (λ w. accepts s (some w))) o
  accepts (z_record s) o = test_field false (all_values (λ w. accepts s (some w))) o
  accepts (z_nullish s) o = is_absent o || is_null_at o || accepts s o
  accepts (z_nullable s) o = is_null_at o || accepts s o
  accepts (z_optional s) o = is_absent o || accepts s o
  accepts (z_fallback s d) o = accepts s o
  accepts (z_object fs) o = test_field false (λ v. is_object v && accept_fields fs v) o

  accept_fields : ZodFields → Json → Bool
  accept_fields z_end v = true
  accept_fields (z_field name s fs) v = accepts s (field_of name v) && accept_fields fs v

accept_fields-test_fields :
    (fs : ZodFields) (v : Json) → accept_fields fs v ≡ test_fields accepts fs v
unfolding accepts
accept_fields-test_fields z_end v = refl
accept_fields-test_fields (z_field name s fs) v =
    ap (λ b. accepts s (field_of name v) && b) (accept_fields-test_fields fs v)

accepts-object :
    (fs : ZodFields) (o : Option Json)
    → accepts (z_object fs) o ≡ test_field false (λ v. is_object v && test_fields accepts fs v) o
unfolding accepts
accepts-object fs none = refl
accepts-object fs (some v) = ap (λ b. is_object v && b) (accept_fields-test_fields fs v)

zod : ZodLaws is_date accepts
unfolding accepts
zod = record {
  on_string = λ o. refl;
  on_boolean = λ o. refl;
  on_unknown = λ v. refl;
  on_datetime = λ o. refl;
  on_number = λ checks o. refl;
  on_enum = λ w ws o. refl;
  on_array = λ s o. refl;
  on_record = λ s o. refl;
  on_nullish = λ s o. refl;
  on_nullable = λ s o. refl;
  on_optional = λ s o. refl;
  on_fallback = λ s d o. refl;
  on_object = accepts-object;
}

abbrev tenant : Json
tenant = obj (
    of_props (
      ("external_id", str "merchant-a")
      ∷ ("name", str "Shop")
      ∷ ("rate_limit_rps", whole (pos 5))
      ∷ ("concurrency_limit", whole (pos 0))
      ∷ ("created_at", str "2026-09-05T08:55:00Z")
      ∷ ("updated_at", str "2026-09-05T08:55:00Z")
      ∷ []))

accept_checks-accepts_example : accepts Codecs.tenant_schema (some tenant) ≡ true
unfolding conforms refined
accept_checks-accepts_example =
    accept_checks-accepts is_date accepts zod (accept Codecs.tenant_schema Schemas.tenant_shape)
      tenant (Memᴰ.head refl) refl refl

answer-allows_example :
    allows
      (operation_of (tenant_create new_shop))
      (answer browser
        (tenant_create new_shop)
        (some "Bearer whk_mockBootstrapKey000000000000000")
        noon
        start).0
    ≡ true
answer-allows_example =
    answer-allows start browser (tenant_create new_shop)
      (some "Bearer whk_mockBootstrapKey000000000000000") noon
