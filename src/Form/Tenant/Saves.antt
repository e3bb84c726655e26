-- ===== src/Form/Tenant/Saves.antt =====
-- What the tenant form sends is what the API stores.
use wasm_hooks.Common.{
  ℕ, ◌≤◌, ◌≡◌, refl, String, Bool, true, false, Option, none, some, arith, if◌then◌else◌, ◌==◌,
  eq_iff, find, any,
}
use wasm_hooks.Common.Int.{ℤ, pos, negsuc, IsNonneg, int_eq, int_eq_iff}
use wasm_hooks.Text.{utf16_length}
use wasm_hooks.Json.{whole, str, Record, lookup}
use wasm_hooks.Entity.Tenant.{Tenant, external_id_max}
use wasm_hooks.Mock.Db.{Db}
use wasm_hooks.Mock.Http.{Reply, json, problem, no_content}
use wasm_hooks.Mock.Tenants.{
  has_external_id, patch_error, create_error, patch_tenant, create_tenant, get_tenant, new_tenant,
  quota_error, quota_error_of, patch_name_error, name_error, external_id_error,
}
use wasm_hooks.Mock.Tenants.Fields.{text_after, number_after}
use wasm_hooks.Mock.Tenants.Laws.{patch_tenant-Reads, create_tenant-Reads}
use wasm_hooks.Form.Tenant.{
  TenantFormValues, form_from_tenant, tenant_changes, patch_body, create_body,
}

-- The status of a reply and the values of the form that it shows.
pub saved : Reply Tenant → Option (ℕ × TenantFormValues)
unfolding form_from_tenant
saved (json status t) = some (status, form_from_tenant t)
saved (problem status title detail headers) = none
saved no_content = none

quota_ok :
    (field : String) (z : ℤ) (same : Bool)
    → IsNonneg z
    → quota_error_of field (if same then none else some (whole z)) ≡ none
unfolding quota_error_of
quota_ok field z true n = refl
quota_ok field (pos k) false n = ground arith
quota_ok field (negsuc k) false n = elim n [ ]

name_ok : (s : String) (same : Bool) → patch_name_error (if same then none else some (str s)) ≡ none
unfolding patch_name_error
name_ok s true = refl
name_ok s false = refl

module _ (t : Tenant) (v : TenantFormValues) where
  abbrev body : Record
  body = patch_body (tenant_changes t v)

  lookup-name :
      lookup "name" (patch_body (tenant_changes t v))
      ≡ (if v.name == t.name then none else some (str v.name))
  unfolding patch_body tenant_changes lookup
  lookup-name = ground arith

  lookup-rate :
      lookup "rate_limit_rps" (patch_body (tenant_changes t v))
      ≡ (if int_eq v.rate_limit_rps t.rate_limit_rps then none else some (whole v.rate_limit_rps))
  unfolding patch_body tenant_changes lookup
  lookup-rate = ground arith

  lookup-concurrency : lookup "concurrency_limit" (patch_body (tenant_changes t v)) ≡ (
      if int_eq v.concurrency_limit t.concurrency_limit
      then none
      else some (whole v.concurrency_limit))
  unfolding patch_body tenant_changes lookup
  lookup-concurrency = ground arith

  lookup-external_id : lookup "external_id" (patch_body (tenant_changes t v)) ≡ none
  unfolding patch_body tenant_changes lookup
  lookup-external_id = ground arith

  name-after : text_after (lookup "name" (patch_body (tenant_changes t v))) t.name ≡ v.name
  name-after = rw lookup-name (ground (arith, eq_iff v.name t.name))

  rate-after :
      number_after (lookup "rate_limit_rps" (patch_body (tenant_changes t v))) t.rate_limit_rps
      ≡ v.rate_limit_rps
  rate-after = rw lookup-rate (ground (arith, int_eq_iff v.rate_limit_rps t.rate_limit_rps))

  concurrency-after :
      number_after
        (lookup "concurrency_limit" (patch_body (tenant_changes t v)))
        t.concurrency_limit
      ≡ v.concurrency_limit
  concurrency-after =
      rw lookup-concurrency (ground (arith, int_eq_iff v.concurrency_limit t.concurrency_limit))

  module _ (nonneg_rate : IsNonneg v.rate_limit_rps)
      (nonneg_concurrency : IsNonneg v.concurrency_limit) where
    pub tenant_changes-patch_error : patch_error (patch_body (tenant_changes t v)) ≡ none
    unfolding patch_error quota_error
    tenant_changes-patch_error =
        rw (lookup-name, lookup-rate, lookup-concurrency)
          (rw
            (
              name_ok v.name (v.name == t.name),
              quota_ok "rate_limit_rps" v.rate_limit_rps (int_eq v.rate_limit_rps t.rate_limit_rps)
                  nonneg_rate,
              quota_ok "concurrency_limit" v.concurrency_limit
                  (int_eq v.concurrency_limit t.concurrency_limit) nonneg_concurrency,
            )
            refl)

  -- The saved values, read from a reply as the form reads a tenant.
  module _ {F : Type 0} (db : Db F)
      (found : find (has_external_id t.external_id) db.tenants ≡ some t) (now : ℕ)
      (same_id : v.external_id ≡ t.external_id) (nonneg_rate : IsNonneg v.rate_limit_rps)
      (nonneg_concurrency : IsNonneg v.concurrency_limit) where
    -- Saving the form of a tenant that is there, with quotas that are not negative: the body names each of its three fields,
    -- with the form's value, exactly if that value is another one than the tenant's, and no identifier; the API answers
    -- 200 with the values of the form, each one, and reads them back.
    pub tenant_changes-patch_tenant :
        let sent = patch_body (tenant_changes t v) in
        let (reply, after) = patch_tenant t.external_id sent now db in
        (lookup "name" sent ≡ (if v.name == t.name then none else some (str v.name)))
        × (lookup "rate_limit_rps" sent ≡ (
            if int_eq v.rate_limit_rps t.rate_limit_rps
            then none
            else some (whole v.rate_limit_rps)))
        × (lookup "concurrency_limit" sent ≡ (
            if int_eq v.concurrency_limit t.concurrency_limit
            then none
            else some (whole v.concurrency_limit)))
        × (lookup "external_id" sent ≡ none)
        × (saved reply ≡ some (200, v))
        × (saved (get_tenant t.external_id after).0 ≡ some (200, v))
    unfolding saved form_from_tenant
    tenant_changes-patch_tenant =
        let (answer, read, others) =
          patch_tenant-Reads db t.external_id t found (patch_body (tenant_changes t v)) now
            (tenant_changes-patch_error nonneg_rate nonneg_concurrency) in
        (
          lookup-name,
          lookup-rate,
          lookup-concurrency,
          lookup-external_id,
          rw answer (simp (name-after, rate-after, concurrency-after, ← same_id) refl),
          rw read (simp (name-after, rate-after, concurrency-after, ← same_id) refl),
        )

module _ (v : TenantFormValues) (small : utf16_length v.external_id ≤ external_id_max)
    (given : 1 ≤ utf16_length v.external_id) (nonneg_rate : IsNonneg v.rate_limit_rps)
    (nonneg_concurrency : IsNonneg v.concurrency_limit) where
  id_ok : external_id_error (some (str v.external_id)) ≡ none
  unfolding external_id_error
  id_ok = ground arith

  pub create_body-create_error : create_error (create_body v) ≡ none
  unfolding create_error quota_error create_body lookup name_error
  create_body-create_error =
      rw
        (
          id_ok,
          quota_ok "rate_limit_rps" v.rate_limit_rps false nonneg_rate,
          quota_ok "concurrency_limit" v.concurrency_limit false nonneg_concurrency,
        )
        refl

  -- The form of a new tenant, with an identifier of 1 to 128 UTF-16 units that no tenant has and quotas that are not negative,
  -- is created as it stands, and reads back the same.
  pub create_body-create_tenant :
      {F : Type 0} (db : Db F) (now : ℕ)
      → any (has_external_id v.external_id) db.tenants ≡ false
      → let (reply, after) = create_tenant (create_body v) now db in
        (saved reply ≡ some (201, v)) × (saved (get_tenant v.external_id after).0 ≡ some (200, v))
  unfolding saved form_from_tenant new_tenant create_body
  create_body-create_tenant db now free =
      let (answer, read, others) =
        create_tenant-Reads db (create_body v) now create_body-create_error free in
      (rw answer refl, rw read refl)
