-- ===== src/Contract/Checks.antt =====
-- web/src/shared/api/contract.ts and the files contract.check.ts: what the compiler checks of the console's schemas and
-- types against the contract, and what follows for the answers of the API.
use wasm_hooks.Common.{
  String, Bool, true, false, ◌≡◌, refl, sym, subst, List, [], ◌∷◌, ◌++◌, Option, some, all,
}
use mathlib.Core.List.{Memᴰ}
use wasm_hooks.Json.{Json}
use wasm_hooks.Contract.Shape.{Shape, object_of, need, string, table, fits, conforms}
use wasm_hooks.Contract.Shape.Bools.{and-true}
use wasm_hooks.Contract.Shape.Laws.{fits-conforms}
use wasm_hooks.Contract.Zod.{Zod, ZodLaws, input_of, refined}
use wasm_hooks.Contract.Zod.Laws.{input_of-accepts}
use wasm_hooks.Contract.Schemas
use wasm_hooks.Contract.Codecs

-- `AcceptsContract<Schema, Contract>`
unfoldable pub accepts_contract : Zod → Shape → Bool
unfolding fits input_of
accepts_contract schema contract = fits (input_of schema) contract

-- `FitsContract<Value, Contract>`
unfoldable pub fits_contract : Shape → Shape → Bool
unfolding fits
fits_contract value contract = fits contract value

pub record AcceptCheck : Type 0 where
  pub schema : Zod
  pub contract : Shape

pub record FitCheck : Type 0 where
  pub value : Shape
  pub contract : Shape

abbrev pub accept : Zod → Shape → AcceptCheck
accept s c = record { schema = s; contract = c }

abbrev pub fit : Shape → Shape → FitCheck
fit v c = record { value = v; contract = c }

-- The checks of schemas, from all the files.
abbrev pub tenant_checks : List AcceptCheck
tenant_checks =
    accept Codecs.tenant_schema Schemas.tenant_shape
    ∷ accept Codecs.tenant_list_schema Schemas.tenant_list_shape
    ∷ accept Codecs.console_session_schema Schemas.console_session_shape
    ∷ []

abbrev pub hook_checks : List AcceptCheck
hook_checks =
    accept Codecs.hook_schema Schemas.hook_view_shape
    ∷ accept Codecs.binding_schema Schemas.tenant_binding_shape
    ∷ accept Codecs.tenant_hook_schema Schemas.tenant_hook_shape
    ∷ accept Codecs.tenant_hook_list_schema Schemas.tenant_hook_list_shape
    ∷ accept Codecs.operator_hook_schema Schemas.hook_shape
    ∷ accept Codecs.operator_hook_list_schema Schemas.hook_list_shape
    ∷ []

abbrev pub module_checks : List AcceptCheck
module_checks =
    accept Codecs.validation_check_schema Schemas.validation_check_shape
    ∷ accept Codecs.validation_report_schema Schemas.validation_report_shape
    ∷ accept Codecs.module_schema Schemas.module_shape
    ∷ accept Codecs.module_list_schema Schemas.module_list_shape
    ∷ []

abbrev pub api_key_checks : List AcceptCheck
api_key_checks =
    accept Codecs.api_key_schema Schemas.api_key_shape
    ∷ accept Codecs.api_key_list_schema Schemas.api_key_list_shape
    ∷ accept Codecs.api_key_created_schema Schemas.api_key_created_shape
    ∷ []

abbrev pub problem_checks : List AcceptCheck
problem_checks = accept Codecs.problem_schema Schemas.problem_shape ∷ []

abbrev pub tenant_fits : List FitCheck
tenant_fits =
    fit Codecs.tenant_create_type Schemas.tenant_create_shape
    ∷ fit Codecs.tenant_patch_type Schemas.tenant_patch_shape
    ∷ []

abbrev pub hook_fits : List FitCheck
hook_fits =
    fit Codecs.hook_create_type Schemas.hook_create_shape
    ∷ fit Codecs.hook_spec_type Schemas.hook_spec_shape
    ∷ fit (object_of (need "active_module_id" string ∷ [])) Schemas.binding_update_shape
    ∷ fit (object_of (need "config" (table string) ∷ [])) Schemas.binding_update_shape
    ∷ []

abbrev pub api_key_fits : List FitCheck
api_key_fits = fit (object_of (need "name" string ∷ [])) Schemas.api_key_create_shape ∷ []

-- The checks of all the files.
abbrev pub accept_checks : List AcceptCheck
accept_checks = tenant_checks ++ hook_checks ++ module_checks ++ api_key_checks ++ problem_checks

abbrev pub fit_checks : List FitCheck
fit_checks = tenant_fits ++ hook_fits ++ api_key_fits

accept_checks-hold : all (λ c. accepts_contract c.schema c.contract) accept_checks ≡ true
unfolding accepts_contract Codecs.api_key_created_schema
accept_checks-hold = refl

fit_checks-hold : all (λ c. fits_contract c.value c.contract) fit_checks ≡ true
unfolding fits_contract
fit_checks-hold = refl

all-Mem :
    {A : Type 0} (p : A → Bool) (xs : List A) (x : A) → all p xs ≡ true → Memᴰ x xs → p x ≡ true
all-Mem p [] x h m = elim m [ ]
all-Mem p (y ∷ xs) x h (Memᴰ.head e) =
    subst (λ z. p z ≡ true) (sym e) (and-true (p y) (all p xs) h).0
all-Mem p (y ∷ xs) x h (Memᴰ.tail m) = all-Mem p xs x (and-true (p y) (all p xs) h).1 m

-- If a schema passes its check, it accepts each answer of the contract's type, one without undeclared
-- properties, that meets the schema's refinements.
accepts_contract-accepts :
    (is_datetime : String → Bool) (accepts : Zod → Option Json → Bool)
    (zod : ZodLaws is_datetime accepts) (schema : Zod) (contract : Shape) (answer : Json)
    → accepts_contract schema contract ≡ true
    → conforms true contract answer ≡ true
    → refined is_datetime schema answer ≡ true
    → accepts schema (some answer) ≡ true
unfolding accepts_contract
accepts_contract-accepts is_datetime accepts zod schema contract answer checked typed fine =
    input_of-accepts is_datetime accepts zod schema answer
      (fits-conforms (input_of schema) contract answer checked typed) fine

-- Every schema that the console checks against the contract accepts each answer of the contract's type, one without
-- undeclared properties, that meets the schema's checks of numbers and dates.
pub accept_checks-accepts :
    (is_datetime : String → Bool) (accepts : Zod → Option Json → Bool)
    (zod : ZodLaws is_datetime accepts) (c : AcceptCheck) (answer : Json)
    → Memᴰ c accept_checks
    → conforms true c.contract answer ≡ true
    → refined is_datetime c.schema answer ≡ true
    → accepts c.schema (some answer) ≡ true
accept_checks-accepts is_datetime accepts zod c answer member =
    accepts_contract-accepts is_datetime accepts zod c.schema c.contract answer (
      all-Mem (λ c. accepts_contract c.schema c.contract) accept_checks c accept_checks-hold member)

-- Every value of a type that the console sends, one without undeclared properties, is of the type that the contract
-- asks for.
pub fit_checks-conforms :
    (c : FitCheck) (value : Json)
    → Memᴰ c fit_checks
    → conforms true c.value value ≡ true
    → conforms false c.contract value ≡ true
unfolding fits_contract
fit_checks-conforms c value member =
    fits-conforms c.contract c.value value
      (all-Mem (λ c. fits_contract c.value c.contract) fit_checks c fit_checks-hold member)
