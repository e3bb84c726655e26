-- ===== src/Examples/Tenants.antt =====
-- The requests of /tenants.
use wasm_hooks.Common.{◌≡◌, ◌==◌, refl, none, some, distinct, arith, if◌then◌else◌}
use wasm_hooks.Common.Int.{pos, int_eq}
use wasm_hooks.Json.{str, whole, lookup}
use wasm_hooks.Entity.Tenant.{Tenant}
use wasm_hooks.Text.{utf16_length}
use wasm_hooks.Mock.Http.{json}
use wasm_hooks.Mock.Tenants.{patch_error, create_tenant, patch_tenant, get_tenant}
use wasm_hooks.Mock.Tenants.Laws.{patch_tenant-get_tenant, due_patch}
use wasm_hooks.Form.Tenant.{TenantFormValues, tenant_changes, patch_body, create_body}
use wasm_hooks.Form.Tenant.Saves.{saved, tenant_changes-patch_tenant, create_body-create_tenant}
use wasm_hooks.Examples.Data.{start, noon, faster}

abbrev merchant_b : Tenant
merchant_b = record {
  external_id = "merchant-b";
  name = "Магазин B";
  rate_limit_rps = pos 50;
  concurrency_limit = pos 4;
  created_at = "2026-09-12T12:30:00Z";
  updated_at = "2026-09-19T08:15:00Z";
}

abbrev values : TenantFormValues
values = record {
  external_id = "merchant-b";
  name = "Shop B";
  rate_limit_rps = pos 50;
  concurrency_limit = pos 8;
}

abbrev fresh_values : TenantFormValues
fresh_values = record values { external_id = "merchant-d" }

patch_tenant-get_tenant_example :
    let after = (patch_tenant "merchant-b" faster noon start).1 in
    let u = due_patch merchant_b faster noon in
    ((patch_tenant "merchant-b" faster noon start).0 ≡ json 200 u)
    × (get_tenant "merchant-b" after ≡ (json 200 u, after))
    × ((get_tenant "merchant-a" after).0 ≡ (get_tenant "merchant-a" start).0)
unfolding patch_error
patch_tenant-get_tenant_example =
    patch_tenant-get_tenant start "merchant-b" merchant_b refl faster noon refl "merchant-a"
      (distinct _ _ refl)

tenant_changes-patch_tenant_example :
    let sent = patch_body (tenant_changes merchant_b values) in
    let (reply, after) = patch_tenant "merchant-b" sent noon start in
    (lookup "name" sent ≡ (if "Shop B" == "Магазин B" then none else some (str "Shop B")))
    × (lookup "rate_limit_rps" sent
        ≡ (if int_eq (pos 50) (pos 50) then none else some (whole (pos 50))))
    × (lookup "concurrency_limit" sent
        ≡ (if int_eq (pos 8) (pos 4) then none else some (whole (pos 8))))
    × (lookup "external_id" sent ≡ none)
    × (saved reply ≡ some (200, values))
    × (saved (get_tenant "merchant-b" after).0 ≡ some (200, values))
tenant_changes-patch_tenant_example =
    tenant_changes-patch_tenant merchant_b values start refl noon refl tt tt

create_body-create_tenant_example :
    let (reply, after) = create_tenant (create_body fresh_values) noon start in
    (saved reply ≡ some (201, fresh_values))
    × (saved (get_tenant "merchant-d" after).0 ≡ some (200, fresh_values))
unfolding utf16_length
create_body-create_tenant_example =
    create_body-create_tenant fresh_values (omega arith) (omega arith) tt tt start noon refl
