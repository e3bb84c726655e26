-- ===== src/Form/Tenant/Schema.antt =====
-- web/src/features/tenant-editor/model/form.ts: `tenantFormSchema`, with the first complaint about each field, as the form
-- shows it.
pub mod Laws
use wasm_hooks.Common.{
  ℕ, ltb, nat_eq, String, Bool, true, false, not, List, [], ◌∷◌, Option, none, some, if◌then◌else◌,
  ◌==◌,
}
use wasm_hooks.Common.Int.{ℤ, pos, above, below}
use wasm_hooks.Text.{concat, decimal, is_empty, trim, utf16_length}
use wasm_hooks.Entity.Tenant.{external_id_max, quota_max}
use wasm_hooks.Form.Tenant.{TenantFormValues}

-- The number of a field, `valueAsNumber`: NaN, a number that is no safe integer, or a safe integer.
pub data Entered : Type 0 where
  not_a_number : Entered
  unsafe : String → Entered
  integer : ℤ → Entered

-- The values of the fields.
pub record TenantInputs : Type 0 where
  pub external_id : String
  pub name : String
  pub rate_limit_rps : Entered
  pub concurrency_limit : Entered

pub record TenantIssues : Type 0 where
  pub external_id : Option String
  pub name : Option String
  pub rate_limit_rps : Option String
  pub concurrency_limit : Option String

abbrev pub no_issues : TenantIssues
no_issues = record {
  external_id = none;
  name = none;
  rate_limit_rps = none;
  concurrency_limit = none;
}

-- `quota`
unfoldable pub quota_issue : Entered → Option String
unfolding decimal
quota_issue not_a_number = some "Укажите целое число"
quota_issue (unsafe s) = some "Укажите целое число"
quota_issue (integer z) =
    if below z 0
    then some "Не меньше 0"
    else if above z quota_max
    then some (concat ("Не больше " ∷ decimal quota_max ∷ []))
    else none

unfoldable pub external_id_issue : String → Option String
unfolding decimal utf16_length trim
external_id_issue id =
    if ltb (utf16_length id) 1
    then some "Укажите external_id"
    else if ltb external_id_max (utf16_length id)
    then some (concat ("Не длиннее " ∷ decimal external_id_max ∷ " символов" ∷ []))
    else if trim id == id
    then none
    else some "Без пробелов в начале и в конце"

unfoldable pub name_issue : String → Option String
unfolding trim
name_issue name = if is_empty (trim name) then some "Укажите название" else none

unfoldable pub issues_of : TenantInputs → TenantIssues
unfolding quota_issue external_id_issue name_issue
issues_of i = record {
  external_id = external_id_issue i.external_id;
  name = name_issue i.name;
  rate_limit_rps = quota_issue i.rate_limit_rps;
  concurrency_limit = quota_issue i.concurrency_limit;
}

-- What the schema makes of a name without complaints, and of numbers.
abbrev pub number_of : Entered → ℤ
number_of not_a_number = pos 0
number_of (unsafe s) = pos 0
number_of (integer z) = z

unfoldable pub output_of : TenantInputs → TenantFormValues
unfolding trim
output_of i = record {
  external_id = i.external_id;
  name = trim i.name;
  rate_limit_rps = number_of i.rate_limit_rps;
  concurrency_limit = number_of i.concurrency_limit;
}

-- A value where there are no complaints.
unfoldable pub unless_any : (a b c d : Option String) → TenantFormValues → Option TenantFormValues
unless_any none none none none v = some v
unless_any _ _ _ _ v = none

-- `tenantFormSchema.safeParse`: the values, if there is no complaint.
unfoldable pub parse_inputs : TenantInputs → Option TenantFormValues
unfolding output_of unless_any external_id_issue name_issue quota_issue
parse_inputs i =
    unless_any (external_id_issue i.external_id) (name_issue i.name) (quota_issue i.rate_limit_rps)
      (quota_issue i.concurrency_limit) (output_of i)

-- The fields of a form with these values.
abbrev pub inputs_of : TenantFormValues → TenantInputs
inputs_of v = record {
  external_id = v.external_id;
  name = v.name;
  rate_limit_rps = integer v.rate_limit_rps;
  concurrency_limit = integer v.concurrency_limit;
}
