-- ===== src/Mock/Tenants/Ends.antt =====
-- How the replies of the handlers of /tenants end.
use wasm_hooks.Common.{
  ℕ, refl, String, List, [], ◌∷◌, Option, none, some, arith, Bool-cases, inl, inr, find, any,
}
use wasm_hooks.Json.{Record}
use wasm_hooks.Entity.Tenant.{Tenant}
use wasm_hooks.Mock.Db.{Db}
use wasm_hooks.Mock.Tenants.{
  create_error, patch_error, new_tenant, create_tenant, insert_tenant, patch_tenant, patch_checked,
  patch_found, store_patch, patch_changes, create_checked, PatchField, get_tenant, found_tenant,
  has_external_id,
}
use wasm_hooks.Mock.Http.Ends.{Ends}

module _ {F : Type 0} (db : Db F) where
  found_tenant-Ends : (id : String) (o : Option Tenant) → Ends 200 (found_tenant id o db).0
  unfolding found_tenant
  found_tenant-Ends id none = omega arith
  found_tenant-Ends id (some t) = refl

  pub get_tenant-Ends : (id : String) → Ends 200 (get_tenant id db).0
  unfolding get_tenant
  get_tenant-Ends id = found_tenant-Ends id (find (has_external_id id) db.tenants)

  insert_tenant-Ends : (t : Tenant) → Ends 201 (insert_tenant t db).0
  unfolding insert_tenant
  insert_tenant-Ends t = elim (Bool-cases (any (has_external_id t.external_id) db.tenants)) [
    | inl taken ↦ rw taken (omega arith)
    | inr free ↦ rw free refl
  ]

  create_checked-Ends :
      (o : Option String) (body : Record) (now : ℕ) → Ends 201 (create_checked o body now db).0
  unfolding create_checked
  create_checked-Ends none body now = insert_tenant-Ends (new_tenant body now)
  create_checked-Ends (some d) body now = omega arith

  pub create_tenant-Ends : (body : Record) (now : ℕ) → Ends 201 (create_tenant body now db).0
  unfolding create_tenant
  create_tenant-Ends body now = create_checked-Ends (create_error body) body now

  store_patch-Ends :
      (id : String) (t : Tenant) (fs : List PatchField) (body : Record) (now : ℕ)
      → Ends 200 (store_patch id t fs body now db).0
  unfolding store_patch
  store_patch-Ends id t [] body now = refl
  store_patch-Ends id t (f ∷ fs) body now = refl

  patch_found-Ends :
      (o : Option Tenant) (id : String) (body : Record) (now : ℕ)
      → Ends 200 (patch_found o id body now db).0
  unfolding patch_found
  patch_found-Ends none id body now = omega arith
  patch_found-Ends (some t) id body now = store_patch-Ends id t (patch_changes t body) body now

  patch_checked-Ends :
      (o : Option String) (id : String) (body : Record) (now : ℕ)
      → Ends 200 (patch_checked o id body now db).0
  unfolding patch_checked
  patch_checked-Ends none id body now =
      patch_found-Ends (find (has_external_id id) db.tenants) id body now
  patch_checked-Ends (some d) id body now = omega arith

  pub patch_tenant-Ends :
      (id : String) (body : Record) (now : ℕ) → Ends 200 (patch_tenant id body now db).0
  unfolding patch_tenant
  patch_tenant-Ends id body now = patch_checked-Ends (patch_error body) id body now
