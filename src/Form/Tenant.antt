-- ===== src/Form/Tenant.antt =====
-- web/src/features/tenant-editor/model/form.ts: the values of the form of a tenant, and the request bodies that they make.
-- The checks of the form's schema are in Form/Tenant/Schema.
pub mod Saves
pub mod Schema
use wasm_hooks.Common.{
  String, Bool, true, false, not, List, [], ◌∷◌, ◌++◌, Option, none, some, if◌then◌else◌, ◌==◌,
}
use wasm_hooks.Common.Int.{ℤ, pos, int_eq}
use wasm_hooks.Json.{Json, whole, str, Record}
use wasm_hooks.Entity.Tenant.{Tenant, TenantPatch}

pub record TenantFormValues : Type 0 where
  pub external_id : String
  pub name : String
  pub rate_limit_rps : ℤ
  pub concurrency_limit : ℤ

abbrev pub empty_tenant_form : TenantFormValues
empty_tenant_form = record {
  external_id = "";
  name = "";
  rate_limit_rps = pos 0;
  concurrency_limit = pos 0;
}

unfoldable pub form_from_tenant : Tenant → TenantFormValues
form_from_tenant t = record {
  external_id = t.external_id;
  name = t.name;
  rate_limit_rps = t.rate_limit_rps;
  concurrency_limit = t.concurrency_limit;
}

-- `tenantChanges`: a field of the patch is set if the form's value differs.
unfoldable pub tenant_changes : Tenant → TenantFormValues → TenantPatch
tenant_changes t v = record {
  name = if v.name == t.name then none else some v.name;
  rate_limit_rps = if int_eq v.rate_limit_rps t.rate_limit_rps then none else some v.rate_limit_rps;
  concurrency_limit =
      if int_eq v.concurrency_limit t.concurrency_limit then none else some v.concurrency_limit;
}

text_field : String → Option String → Record → Record
text_field key none rest = rest
text_field key (some s) rest = (key, str s) ∷ rest

number_field : String → Option ℤ → Record → Record
number_field key none rest = rest
number_field key (some z) rest = (key, whole z) ∷ rest

-- The JSON object of a patch: the fields that are set, in their order.
unfoldable pub patch_body : TenantPatch → Record
unfolding text_field number_field
patch_body p = text_field "name" p.name (
    number_field "rate_limit_rps" p.rate_limit_rps
      (number_field "concurrency_limit" p.concurrency_limit []))

-- The JSON object of a creation.
unfoldable pub create_body : TenantFormValues → Record
create_body v =
    ("external_id", str v.external_id)
    ∷ ("name", str v.name)
    ∷ ("rate_limit_rps", whole v.rate_limit_rps)
    ∷ ("concurrency_limit", whole v.concurrency_limit)
    ∷ []
