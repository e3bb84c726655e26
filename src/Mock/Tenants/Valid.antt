-- ===== src/Mock/Tenants/Valid.antt =====
-- The tenants of the store: identifiers within their bounds and distinct, quotas not negative.
use wasm_hooks.Common.{
  ℕ, ◌≤◌, ◌≡◌, refl, ap, ◌∙◌, String, List, [], ◌∷◌, Option, none, some, Bool-cases, Option-cases,
  inl, inr, All, Distinct, All-append, Distinct-append, Absent-of_any, All-find, All-replace_first,
  Distinct-replace_first, find-eq-some, find, any, eq_iff,
}
use wasm_hooks.Common.Int.{IsNonneg}
use wasm_hooks.Text.{utf16_length}
use wasm_hooks.Json.{Record, lookup}
use wasm_hooks.Entity.Tenant.{Tenant, external_id_max}
use wasm_hooks.Mock.Db.{Db}
use wasm_hooks.Mock.Tenants.{
  has_external_id, create_error, patch_error, new_tenant, patched, create_tenant, create_checked,
  insert_tenant, patch_tenant, patch_checked, patch_found, store_patch, patch_changes, PatchField,
}
use wasm_hooks.Mock.Tenants.Fields.{
  create_error-none, patch_error-none, quota_of-IsNonneg, external_id_in_range, patched_lem,
  number_after-IsNonneg,
}

pub record TenantIsValid (t : Tenant) : Type 0 where
  pub id_low : 1 ≤ utf16_length t.external_id
  pub id_high : utf16_length t.external_id ≤ external_id_max
  pub rate : IsNonneg t.rate_limit_rps
  pub concurrency : IsNonneg t.concurrency_limit

abbrev pub TenantsAreValid : List Tenant → Type 0
TenantsAreValid ts = All TenantIsValid ts × Distinct (λ t. t.external_id) ts

-- What `createError` has checked when it finds nothing.
pub new_tenant-IsValid :
    (body : Record) (now : ℕ) → create_error body ≡ none → TenantIsValid (new_tenant body now)
unfolding new_tenant
new_tenant-IsValid body now h =
    let c = create_error-none body h in
    record {
      id_low = (external_id_in_range (lookup "external_id" body) c.external_id_ok).0;
      id_high = (external_id_in_range (lookup "external_id" body) c.external_id_ok).1;
      rate = quota_of-IsNonneg "rate_limit_rps" (lookup "rate_limit_rps" body) c.rate_ok;
      concurrency =
          quota_of-IsNonneg "concurrency_limit" (lookup "concurrency_limit" body) c.concurrency_ok;
    }

pub patched-IsValid :
    (t : Tenant) (body : Record) (now : ℕ)
    → patch_error body ≡ none
    → TenantIsValid t
    → TenantIsValid (patched t body now)
patched-IsValid t body now h v =
    let c = patch_error-none body h in
    rw (patched_lem t body now) (record {
      id_low = v.id_low;
      id_high = v.id_high;
      rate =
          number_after-IsNonneg "rate_limit_rps" (lookup "rate_limit_rps" body) _ c.rate_ok v.rate;
      concurrency =
          number_after-IsNonneg "concurrency_limit" (lookup "concurrency_limit" body) _
            c.concurrency_ok v.concurrency;
    })

module _ {F : Type 0} (db : Db F) (v : TenantsAreValid db.tenants) where
  insert_tenant-AreValid :
      (t : Tenant) → TenantIsValid t → TenantsAreValid (insert_tenant t db).1.tenants
  unfolding insert_tenant
  insert_tenant-AreValid t ok = elim (Bool-cases (any (has_external_id t.external_id) db.tenants)) [
    | inl taken ↦ rw taken v
    | inr free ↦ rw free (
      All-append TenantIsValid db.tenants (t ∷ []) v.0 (ok, tt),
      Distinct-append (λ x. x.external_id) db.tenants t v.1
          (Absent-of_any (λ x. x.external_id) t.external_id db.tenants free),
    )
  ]

  -- A creation keeps the tenants valid.
  pub create_tenant-AreValid :
      (body : Record) (now : ℕ) → TenantsAreValid (create_tenant body now db).1.tenants
  unfolding create_tenant create_checked
  create_tenant-AreValid body now = elim (Option-cases (create_error body)) [
    | inl none_ ↦ rw none_ (insert_tenant-AreValid _ (new_tenant-IsValid body now none_))
    | inr (d, some_) ↦ rw some_ v
  ]

  store_patch-AreValid :
      (external_id : String) (current : Tenant) (body : Record) (now : ℕ)
      → find (has_external_id external_id) db.tenants ≡ some current
      → patch_error body ≡ none
      → TenantsAreValid
          (store_patch external_id current (patch_changes current body) body now db).1.tenants
  unfolding store_patch
  store_patch-AreValid external_id current body now found ok = go (patch_changes current body)
    where
      go :
          (fs : List PatchField)
          → TenantsAreValid (store_patch external_id current fs body now db).1.tenants
      go [] = v
      go (f ∷ fs) = (
        All-replace_first TenantIsValid _ _ db.tenants v.0 (
            patched-IsValid current body now ok
              (All-find TenantIsValid _ db.tenants current v.0 found)),
        Distinct-replace_first (λ x. x.external_id) external_id _ db.tenants v.1
            (ap (λ x. x.external_id) (patched_lem current body now)
              ∙ (eq_iff _ _).0 (find-eq-some _ db.tenants current found)),
      )

  patch_found-AreValid :
      (o : Option Tenant) (external_id : String) (body : Record) (now : ℕ)
      → find (has_external_id external_id) db.tenants ≡ o
      → patch_error body ≡ none
      → TenantsAreValid (patch_found o external_id body now db).1.tenants
  unfolding patch_found
  patch_found-AreValid none external_id body now found ok = v
  patch_found-AreValid (some t) external_id body now found ok =
      store_patch-AreValid external_id t body now found ok

  -- So does a patch.
  pub patch_tenant-AreValid :
      (external_id : String) (body : Record) (now : ℕ)
      → TenantsAreValid (patch_tenant external_id body now db).1.tenants
  unfolding patch_tenant patch_checked
  patch_tenant-AreValid external_id body now = elim (Option-cases (patch_error body)) [
    | inl none_ ↦ rw none_ (patch_found-AreValid _ external_id body now refl none_)
    | inr (d, some_) ↦ rw some_ v
  ]
