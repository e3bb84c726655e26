-- ===== src/Dialog/Tenant/Laws.antt =====
-- What the dialog of a tenant sends, and what the API answers.
use wasm_hooks.Common.{
  ℕ, ◌≤◌, ◌≡◌, refl, ◌==◌, Bool, true, false, List, [], ◌∷◌, Option, none, some, any, All,
  if◌then◌else◌, Bool-cases, inl, inr, arith, find,
}
use wasm_hooks.Common.Int.{IsNonneg}
use wasm_hooks.Text.{utf16_length, trim}
use wasm_hooks.Entity.Tenant.{Tenant, external_id_max}
use wasm_hooks.Form.Tenant.{
  TenantFormValues, create_body, patch_body, tenant_changes, form_from_tenant,
}
use wasm_hooks.Form.Tenant.Saves.{create_body-create_error, tenant_changes-patch_error}
use wasm_hooks.Form.Tenant.Schema.{parse_inputs}
use wasm_hooks.Form.Tenant.Schema.Laws.{parse_inputs-fit, parse_inputs-trimmed}
use wasm_hooks.Mock.Db.{Db}
use wasm_hooks.Mock.Http.{status_of}
use wasm_hooks.Mock.Tenants.{has_external_id, create_tenant, patch_tenant, new_tenant}
use wasm_hooks.Mock.Tenants.Laws.{create_tenant-status, patch_tenant-Reads}
use wasm_hooks.Dialog.Tenant.{
  TenantState, TenantEvent, opened, closed, submitted, saved, typed_external_id, typed_name,
  typed_rate_limit_rps, typed_concurrency_limit, refused, TenantRequest, creation, change,
  has_changes, on_submit, submit_parsed, can_save, tenant_step, tenant_run, first_state,
  change_open, on_refused, default_inputs,
}

-- The tenant of a dialog is the one that the API has under its identifier.
abbrev pub IsKnown : {F : Type 0} → Db F → Option Tenant → Type 0
IsKnown db none = Unit
IsKnown db (some t) = find (has_external_id t.external_id) db.tenants ≡ some t

-- What the API answers to a request, if the dialog sends one.
abbrev pub IsSaved : {F : Type 0} → Db F → ℕ → Option TenantRequest → Type 0
IsSaved db now none = Unit
IsSaved db now (some (creation v)) =
    status_of (create_tenant (create_body v) now db).0
    ≡ (if any (has_external_id v.external_id) db.tenants then 409 else 201)
IsSaved db now (some (change t p)) =
    status_of (patch_tenant t.external_id (patch_body p) now db).0 ≡ 200

module _ {F : Type 0} (db : Db F) (now : ℕ) where
  creation-IsSaved :
      (v : TenantFormValues)
      → ((1 ≤ utf16_length v.external_id) × (utf16_length v.external_id ≤ external_id_max))
        × IsNonneg v.rate_limit_rps
        × IsNonneg v.concurrency_limit
      → IsSaved db now (some (creation v))
  unfolding create_body new_tenant
  creation-IsSaved v ((given, small), rate, concurrency) =
      rw (create_tenant-status db (create_body v) now)
        (rw (create_body-create_error v small given rate concurrency) refl)

  change-IsSaved :
      (t : Tenant) (v : TenantFormValues)
      → find (has_external_id t.external_id) db.tenants ≡ some t
      → IsNonneg v.rate_limit_rps
      → IsNonneg v.concurrency_limit
      → IsSaved db now (some (change t (tenant_changes t v)))
  change-IsSaved t v found rate concurrency =
      rw
        ((patch_tenant-Reads db t.external_id t found (patch_body (tenant_changes t v)) now
          (tenant_changes-patch_error t v rate concurrency)).0)
        refl

  module _ (tenant : Option Tenant) (known : IsKnown db tenant) where
    submit_parsed-IsSaved :
        (o : Option TenantFormValues) (s : TenantState)
        → parse_inputs s.inputs ≡ o
        → IsSaved db now (submit_parsed tenant o s).1
    unfolding submit_parsed on_submit
    submit_parsed-IsSaved none s e = tt
    submit_parsed-IsSaved (some v) s e = sent tenant known (parse_inputs-fit s.inputs v e)
      where
        sent :
            (o : Option Tenant)
            → IsKnown db o
            → ((1 ≤ utf16_length v.external_id) × (utf16_length v.external_id ≤ external_id_max))
              × IsNonneg v.rate_limit_rps
              × IsNonneg v.concurrency_limit
            → IsSaved db now (on_submit o v s).1
        sent none k fit = creation-IsSaved v fit
        sent (some t) k (lengths, rate, concurrency) =
            elim (Bool-cases (has_changes (tenant_changes t v))) [
              | inl some_change ↦ rw some_change (change-IsSaved t v k rate concurrency)
              | inr no_change ↦ rw no_change tt
            ]

    tenant_step-IsSaved :
        (e : TenantEvent) (s : TenantState) → IsSaved db now (tenant_step tenant e s).1
    unfolding tenant_step
    tenant_step-IsSaved submitted s = elim (Bool-cases (can_save tenant s)) [
      | inl may ↦ rw may (submit_parsed-IsSaved (parse_inputs s.inputs) s refl)
      | inr cannot ↦ rw cannot tt
    ]
    tenant_step-IsSaved opened s = tt
    tenant_step-IsSaved closed s = tt
    tenant_step-IsSaved saved s = tt
    tenant_step-IsSaved (refused e) s = tt
    tenant_step-IsSaved (typed_external_id id) s = tt
    tenant_step-IsSaved (typed_name name) s = tt
    tenant_step-IsSaved (typed_rate_limit_rps n) s = tt
    tenant_step-IsSaved (typed_concurrency_limit n) s = tt

    -- Whatever happens to the dialog of a tenant, new or known to the API, the API grants every request that it sends: a new
    -- tenant is created, or answered 409 where its identifier is taken, and a change is answered 200.
    pub tenant_run-IsSaved :
        (es : List TenantEvent) (s : TenantState) → All (IsSaved db now) (tenant_run tenant es s)
    unfolding tenant_run
    tenant_run-IsSaved [] s = tt
    tenant_run-IsSaved (e ∷ es) s =
        (tenant_step-IsSaved e s, tenant_run-IsSaved es (tenant_step tenant e s).0)

-- No request.
abbrev pub IsUnsent : Option TenantRequest → Type 0
IsUnsent o = o ≡ none

-- The identifier in the form of a tenant that is there, which has no field, stays.
module _ (t : Tenant) (spaced : (trim t.external_id == t.external_id) ≡ false) where
  abbrev Holds : TenantState → Type 0
  Holds s = s.inputs.external_id ≡ t.external_id

  refused_parse :
      (o : Option TenantFormValues) (s : TenantState)
      → Holds s
      → parse_inputs s.inputs ≡ o
      → (Holds (submit_parsed (some t) o s).0) × IsUnsent (submit_parsed (some t) o s).1
  unfolding submit_parsed
  refused_parse none s h e = (h, refl)
  refused_parse (some v) s h e = absurd (parse_inputs-trimmed s.inputs v e (rw h spaced))

  default-Holds : (b : Bool) → Holds (record (first_state (some t)) { is_open = b })
  unfolding first_state default_inputs form_from_tenant
  default-Holds b = refl

  tenant_step-Holds :
      (e : TenantEvent) (s : TenantState)
      → Holds s
      → (Holds (tenant_step (some t) e s).0) × IsUnsent (tenant_step (some t) e s).1
  unfolding tenant_step change_open on_refused
  tenant_step-Holds submitted s h = elim (Bool-cases (can_save (some t) s)) [
    | inl may ↦ rw may (refused_parse (parse_inputs s.inputs) s h refl)
    | inr cannot ↦ rw cannot (h, refl)
  ]
  tenant_step-Holds opened s h = ground (arith, default-Holds true)
  tenant_step-Holds closed s h = ground arith
  tenant_step-Holds saved s h = ground arith
  tenant_step-Holds (refused e) s h = ground arith
  tenant_step-Holds (typed_external_id id) s h = ground arith
  tenant_step-Holds (typed_name name) s h = ground arith
  tenant_step-Holds (typed_rate_limit_rps n) s h = ground arith
  tenant_step-Holds (typed_concurrency_limit n) s h = ground arith

  -- The dialog of a tenant whose identifier begins or ends with white space never sends a change, whatever happens to it.
  pub tenant_run-IsUnsent :
      (es : List TenantEvent) (s : TenantState)
      → s.inputs.external_id ≡ t.external_id
      → All IsUnsent (tenant_run (some t) es s)
  unfolding tenant_run
  tenant_run-IsUnsent [] s h = tt
  tenant_run-IsUnsent (e ∷ es) s h =
      let (next, unsent) = tenant_step-Holds e s h in
      (unsent, tenant_run-IsUnsent es (tenant_step (some t) e s).0 next)
