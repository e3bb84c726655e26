-- ===== src/Mock/Tenants.antt =====
-- web/src/mocks/operator-tenants.ts: the handlers of /tenants. A body is the JSON object that the
-- request holds (`as Body`); `now` is the time of the call in milliseconds.
pub mod Changed
pub mod Ends
pub mod Fields
pub mod Valid
pub mod Laws
use wasm_hooks.Common.{
  ℕ, ltb, nat_eq, if◌then◌else◌, ◌==◌, String, Bool, true, false, not, ◌||◌, List, [], ◌∷◌, ◌++◌,
  Option, none, some, any, keep, find, replace_first, or_else, sort,
}
use wasm_hooks.Common.Int.{ℤ, pos, negsuc, int_eq, below}
use wasm_hooks.Text.{concat, decimal, utf16_length, is_empty, text_le}
use wasm_hooks.Json.{Json, null, bool, whole, fraction, str, arr, obj, Record, lookup, to_text}
use wasm_hooks.Clock.{to_iso_string}
use wasm_hooks.Entity.Tenant.{Tenant, external_id_max}
use wasm_hooks.Mock.Db.{Db}
use wasm_hooks.Mock.Http.{Reply, json, fail}

abbrev pub tenant_not_found : String
tenant_not_found = "Тенант не найден"

-- The detail of the problem 422 that `invalid` answers.
abbrev pub Detail : Type 0
Detail = Option String

abbrev pub invalid : String → Detail
invalid detail = some detail

pub in_body : String → String → Detail
in_body field what = invalid (concat ("body." ∷ field ∷ ": " ∷ what ∷ []))

unfoldable pub quota_error_of : String → Option Json → Detail
unfolding in_body
quota_error_of field none = none
quota_error_of field (some null) = none
quota_error_of field (some (whole z)) =
    if below z 0 then in_body field "Input should be greater than or equal to 0" else none
quota_error_of field (some v) = in_body field "Input should be a valid integer"

-- `quotaError`
unfoldable pub quota_error : Record → String → Detail
unfolding quota_error_of lookup
quota_error body field = quota_error_of field (lookup field body)

unfoldable pub external_id_error : Option Json → Detail
external_id_error none = invalid "body.external_id: Field required"
external_id_error (some (str s)) =
    if ltb (utf16_length s) 1
    then invalid "body.external_id: String should have at least 1 character"
    else if ltb external_id_max (utf16_length s)
    then invalid (
        concat (
          "body.external_id: String should have at most "
          ∷ decimal external_id_max
          ∷ " characters"
          ∷ []))
    else none
external_id_error (some v) = invalid "body.external_id: Input should be a valid string"

unfoldable pub name_error : Option Json → Detail
name_error none = invalid "body.name: Field required"
name_error (some (str s)) = none
name_error (some v) = invalid "body.name: Input should be a valid string"

-- `createError`: the first complaint.
unfoldable pub create_error : Record → Detail
unfolding external_id_error name_error quota_error lookup
create_error body = or_else (external_id_error (lookup "external_id" body)) (
    or_else (name_error (lookup "name" body))
      (or_else (quota_error body "rate_limit_rps") (quota_error body "concurrency_limit")))

unfoldable pub patch_name_error : Option Json → Detail
patch_name_error none = none
patch_name_error (some null) = none
patch_name_error (some (str s)) = none
patch_name_error (some v) = invalid "body.name: Input should be a valid string"

-- `patchError`
unfoldable pub patch_error : Record → Detail
unfolding patch_name_error quota_error lookup
patch_error body =
    or_else (patch_name_error (lookup "name" body))
      (or_else (quota_error body "rate_limit_rps") (quota_error body "concurrency_limit"))

-- `(body[field] as number | undefined) ?? 0`, behind `quotaError`.
pub quota_of : Option Json → ℤ
quota_of (some (whole z)) = z
quota_of _ = pos 0

-- `String(body[field])`
pub text_of : Option Json → String
text_of none = "undefined"
text_of (some v) = to_text v

abbrev pub has_external_id : String → Tenant → Bool
has_external_id k t = t.external_id == k

-- The tenant that `POST /tenants` adds.
unfoldable pub new_tenant : Record → ℕ → Tenant
unfolding text_of quota_of lookup to_text
new_tenant body now = record {
  external_id = text_of (lookup "external_id" body);
  name = text_of (lookup "name" body);
  rate_limit_rps = quota_of (lookup "rate_limit_rps" body);
  concurrency_limit = quota_of (lookup "concurrency_limit" body);
  created_at = to_iso_string now;
  updated_at = to_iso_string now;
}

-- The fields that a patch may name.
pub data PatchField : Type 0 where
  name rate_limit_rps concurrency_limit : PatchField

pub field_name : PatchField → String
field_name name = "name"
field_name rate_limit_rps = "rate_limit_rps"
field_name concurrency_limit = "concurrency_limit"

-- `body[field] !== current[field]` for a value that is neither null nor undefined.
pub differs : Tenant → PatchField → Json → Bool
differs t name (str s) = not (s == t.name)
differs t rate_limit_rps (whole z) = not (int_eq z t.rate_limit_rps)
differs t concurrency_limit (whole z) = not (int_eq z t.concurrency_limit)
differs t f v = true

pub changes_field : Tenant → PatchField → Option Json → Bool
changes_field t f none = false
changes_field t f (some null) = false
changes_field t f (some v) = differs t f v

-- `changes`: the fields whose values the body changes.
unfoldable pub patch_changes : Tenant → Record → List PatchField
unfolding changes_field differs field_name lookup
patch_changes current body =
    keep (λ f. changes_field current f (lookup (field_name f) body))
      (name ∷ rate_limit_rps ∷ concurrency_limit ∷ [])

-- `Object.assign(updated, { [field]: body[field] })`; `patchError` has let no other type through.
pub assign : PatchField → Option Json → Tenant → Tenant
assign name (some (str s)) t = record t { name = s }
assign rate_limit_rps (some (whole z)) t = record t { rate_limit_rps = z }
assign concurrency_limit (some (whole z)) t = record t { concurrency_limit = z }
assign f v t = t

pub assign_all : Record → List PatchField → Tenant → Tenant
unfolding assign field_name lookup
assign_all body [] t = t
assign_all body (f ∷ fs) t = assign_all body fs (assign f (lookup (field_name f) body) t)

unfoldable pub patched : Tenant → Record → ℕ → Tenant
unfolding assign_all patch_changes
patched current body now =
    assign_all body (patch_changes current body) (record current { updated_at = to_iso_string now })

module _ {F : Type 0} where
  abbrev pub rejected : {A : Type 0} → String → Db F → Reply A × Db F
  rejected detail db = (fail 422 "Некорректный запрос" (some detail), db)

  -- `GET /tenants`; `collate` is `localeCompare` as a test.
  unfoldable pub list_tenants : (String → String → Bool) → Db F → Reply (List Tenant) × Db F
  list_tenants collate db =
      (json 200 (sort (λ a b. collate a.external_id b.external_id) db.tenants), db)

  pub found_tenant : String → Option Tenant → Db F → Reply Tenant × Db F
  found_tenant external_id none db = (fail 404 tenant_not_found (some external_id), db)
  found_tenant external_id (some t) db = (json 200 t, db)

  -- `GET /tenants/:externalId`
  unfoldable pub get_tenant : String → Db F → Reply Tenant × Db F
  unfolding found_tenant
  get_tenant external_id db =
      found_tenant external_id (find (has_external_id external_id) db.tenants) db

  -- `POST /tenants`, once the body is well formed.
  pub insert_tenant : Tenant → Db F → Reply Tenant × Db F
  insert_tenant t db =
      if any (has_external_id t.external_id) db.tenants
      then (fail 409 "Тенант с таким external_id уже есть" (some t.external_id), db)
      else (json 201 t, record db { tenants = db.tenants ++ t ∷ [] })

  pub create_checked : Detail → Record → ℕ → Db F → Reply Tenant × Db F
  unfolding insert_tenant
  create_checked (some detail) body now db = rejected detail db
  create_checked none body now db = insert_tenant (new_tenant body now) db

  -- `POST /tenants`
  unfoldable pub create_tenant : Record → ℕ → Db F → Reply Tenant × Db F
  unfolding create_checked insert_tenant
  create_tenant body now db = create_checked (create_error body) body now db

  pub store_patch : String → Tenant → List PatchField → Record → ℕ → Db F → Reply Tenant × Db F
  store_patch external_id current [] body now db = (json 200 current, db)
  store_patch external_id current (f ∷ fs) body now db =
      let updated = patched current body now in
      (
        json 200 updated,
        record db { tenants = replace_first (has_external_id external_id) updated db.tenants },
      )

  pub patch_found : Option Tenant → String → Record → ℕ → Db F → Reply Tenant × Db F
  unfolding store_patch
  patch_found none external_id body now db = (fail 404 tenant_not_found (some external_id), db)
  patch_found (some current) external_id body now db =
      store_patch external_id current (patch_changes current body) body now db

  pub patch_checked : Detail → String → Record → ℕ → Db F → Reply Tenant × Db F
  unfolding patch_found
  patch_checked (some detail) external_id body now db = rejected detail db
  patch_checked none external_id body now db =
      patch_found (find (has_external_id external_id) db.tenants) external_id body now db

  -- `PATCH /tenants/:externalId`
  unfoldable pub patch_tenant : String → Record → ℕ → Db F → Reply Tenant × Db F
  unfolding patch_checked patch_found store_patch
  patch_tenant external_id body now db = patch_checked (patch_error body) external_id body now db
