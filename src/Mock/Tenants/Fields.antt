-- ===== src/Mock/Tenants/Fields.antt =====
-- What the checks of a body establish, and what a patch does to each field.
use wasm_hooks.Common.{
  ℕ, ◌≤◌, ◌≡◌, refl, String, Bool, true, false, List, [], ◌∷◌, Option, none, some, arith, eq_iff,
  if◌then◌else◌,
}
use wasm_hooks.Common.Int.{ℤ, pos, negsuc, IsNonneg, int_eq_iff}
use wasm_hooks.Text.{utf16_length}
use wasm_hooks.Json.{Json, null, bool, whole, fraction, str, arr, obj, Record, lookup, to_text}
use wasm_hooks.Clock.{to_iso_string}
use wasm_hooks.Entity.Tenant.{Tenant, external_id_max}
use wasm_hooks.Mock.Tenants.{
  quota_error_of, quota_error, external_id_error, name_error, create_error, patch_error,
  patch_name_error, quota_of, text_of, PatchField, name, rate_limit_rps, concurrency_limit,
  field_name, differs, changes_field, patch_changes, assign, assign_all, patched,
}

-- A body without complaint passed each check.
pub record CreateChecks (body : Record) : Type 0 where
  pub external_id_ok : external_id_error (lookup "external_id" body) ≡ none
  pub name_ok : name_error (lookup "name" body) ≡ none
  pub rate_ok : quota_error_of "rate_limit_rps" (lookup "rate_limit_rps" body) ≡ none
  pub concurrency_ok : quota_error_of "concurrency_limit" (lookup "concurrency_limit" body) ≡ none

pub create_error-none : (body : Record) → create_error body ≡ none → CreateChecks body
unfolding create_error quota_error
create_error-none body h = ground arith

pub record PatchChecks (body : Record) : Type 0 where
  pub name_ok : patch_name_error (lookup "name" body) ≡ none
  pub rate_ok : quota_error_of "rate_limit_rps" (lookup "rate_limit_rps" body) ≡ none
  pub concurrency_ok : quota_error_of "concurrency_limit" (lookup "concurrency_limit" body) ≡ none

pub patch_error-none : (body : Record) → patch_error body ≡ none → PatchChecks body
unfolding patch_error quota_error
patch_error-none body h = ground arith

pub quota_of-IsNonneg :
    (field : String) (v : Option Json) → quota_error_of field v ≡ none → IsNonneg (quota_of v)
unfolding quota_error_of quota_of
quota_of-IsNonneg field none h = tt
quota_of-IsNonneg field (some (whole (pos n))) h = tt
quota_of-IsNonneg field (some (whole (negsuc n))) h = cc
quota_of-IsNonneg field (some null) h = tt
quota_of-IsNonneg field (some (bool b)) h = tt
quota_of-IsNonneg field (some (fraction s)) h = tt
quota_of-IsNonneg field (some (str s)) h = tt
quota_of-IsNonneg field (some (arr vs)) h = tt
quota_of-IsNonneg field (some (obj fs)) h = tt

pub external_id_in_range :
    (v : Option Json)
    → external_id_error v ≡ none
    → (1 ≤ utf16_length (text_of v)) × (utf16_length (text_of v) ≤ external_id_max)
unfolding external_id_error text_of to_text
external_id_in_range none h = cc
external_id_in_range (some (str s)) h = ground arith
external_id_in_range (some null) h = cc
external_id_in_range (some (bool b)) h = cc
external_id_in_range (some (whole z)) h = cc
external_id_in_range (some (fraction s)) h = cc
external_id_in_range (some (arr vs)) h = cc
external_id_in_range (some (obj fs)) h = cc

-- The value that a field has after the patch.
abbrev pub text_after : Option Json → String → String
text_after (some (str s)) old = s
text_after _ old = old

abbrev pub number_after : Option Json → ℤ → ℤ
number_after (some (whole z)) old = z
number_after _ old = old

pub number_after-IsNonneg :
    (field : String) (v : Option Json) (old : ℤ)
    → quota_error_of field v ≡ none
    → IsNonneg old
    → IsNonneg (number_after v old)
unfolding quota_error_of
number_after-IsNonneg field none old h n = n
number_after-IsNonneg field (some (whole (pos k))) old h n = tt
number_after-IsNonneg field (some (whole (negsuc k))) old h n = cc
number_after-IsNonneg field (some null) old h n = n
number_after-IsNonneg field (some (bool b)) old h n = n
number_after-IsNonneg field (some (fraction s)) old h n = n
number_after-IsNonneg field (some (str s)) old h n = n
number_after-IsNonneg field (some (arr vs)) old h n = n
number_after-IsNonneg field (some (obj fs)) old h n = n

-- Each field on its own.
assign_name :
    (v : Option Json) (t : Tenant) → assign name v t ≡ record t { name = text_after v t.name }
unfolding assign
assign_name none t = refl
assign_name (some (str s)) t = refl
assign_name (some null) t = refl
assign_name (some (bool b)) t = refl
assign_name (some (whole z)) t = refl
assign_name (some (fraction s)) t = refl
assign_name (some (arr vs)) t = refl
assign_name (some (obj fs)) t = refl

assign_rate :
    (v : Option Json) (t : Tenant)
    → assign rate_limit_rps v t ≡ record t { rate_limit_rps = number_after v t.rate_limit_rps }
unfolding assign
assign_rate none t = refl
assign_rate (some (str s)) t = refl
assign_rate (some null) t = refl
assign_rate (some (bool b)) t = refl
assign_rate (some (whole z)) t = refl
assign_rate (some (fraction s)) t = refl
assign_rate (some (arr vs)) t = refl
assign_rate (some (obj fs)) t = refl

assign_concurrency :
    (v : Option Json) (t : Tenant)
    → assign concurrency_limit v t
      ≡ record t { concurrency_limit = number_after v t.concurrency_limit }
unfolding assign
assign_concurrency none t = refl
assign_concurrency (some (str s)) t = refl
assign_concurrency (some null) t = refl
assign_concurrency (some (bool b)) t = refl
assign_concurrency (some (whole z)) t = refl
assign_concurrency (some (fraction s)) t = refl
assign_concurrency (some (arr vs)) t = refl
assign_concurrency (some (obj fs)) t = refl

-- A field that the patch passes over has the value that it names.
name_kept :
    (t : Tenant) (v : Option Json) → changes_field t name v ≡ false → text_after v t.name ≡ t.name
unfolding changes_field differs
name_kept t none h = refl
name_kept t (some (str s)) h = ground (arith, eq_iff s t.name)
name_kept t (some null) h = refl
name_kept t (some (bool b)) h = refl
name_kept t (some (whole z)) h = refl
name_kept t (some (fraction s)) h = refl
name_kept t (some (arr vs)) h = refl
name_kept t (some (obj fs)) h = refl

rate_kept :
    (t : Tenant) (v : Option Json)
    → changes_field t rate_limit_rps v ≡ false
    → number_after v t.rate_limit_rps ≡ t.rate_limit_rps
unfolding changes_field differs
rate_kept t none h = refl
rate_kept t (some (whole z)) h = ground (arith, int_eq_iff z t.rate_limit_rps)
rate_kept t (some null) h = refl
rate_kept t (some (bool b)) h = refl
rate_kept t (some (str s)) h = refl
rate_kept t (some (fraction s)) h = refl
rate_kept t (some (arr vs)) h = refl
rate_kept t (some (obj fs)) h = refl

concurrency_kept :
    (t : Tenant) (v : Option Json)
    → changes_field t concurrency_limit v ≡ false
    → number_after v t.concurrency_limit ≡ t.concurrency_limit
unfolding changes_field differs
concurrency_kept t none h = refl
concurrency_kept t (some (whole z)) h = ground (arith, int_eq_iff z t.concurrency_limit)
concurrency_kept t (some null) h = refl
concurrency_kept t (some (bool b)) h = refl
concurrency_kept t (some (str s)) h = refl
concurrency_kept t (some (fraction s)) h = refl
concurrency_kept t (some (arr vs)) h = refl
concurrency_kept t (some (obj fs)) h = refl

-- The fields that a patch assigns, by the three tests.
unfoldable pub chosen : Bool → Bool → Bool → List PatchField
chosen a b c =
    let last = if c then concurrency_limit ∷ [] else [] in
    let more = if b then rate_limit_rps ∷ last else last in if a then name ∷ more else more

module _ (body : Record) (t x : Tenant) (same_name : x.name ≡ t.name)
    (same_rate : x.rate_limit_rps ≡ t.rate_limit_rps)
    (same_concurrency : x.concurrency_limit ≡ t.concurrency_limit) where
  abbrev outcome : Tenant
  outcome = record x {
    name = text_after (lookup "name" body) t.name;
    rate_limit_rps = number_after (lookup "rate_limit_rps" body) t.rate_limit_rps;
    concurrency_limit = number_after (lookup "concurrency_limit" body) t.concurrency_limit;
  }

  assign_all-chosen :
      (a b c : Bool)
      → (a ≡ false → text_after (lookup "name" body) t.name ≡ t.name)
      → (b ≡ false
          → number_after (lookup "rate_limit_rps" body) t.rate_limit_rps ≡ t.rate_limit_rps)
      → (c ≡ false
          → number_after (lookup "concurrency_limit" body) t.concurrency_limit
            ≡ t.concurrency_limit)
      → assign_all body (chosen a b c) x ≡ outcome
  unfolding assign_all chosen field_name
  assign_all-chosen true true true f g h =
      simp (assign_name, assign_rate, assign_concurrency) (ground arith)
  assign_all-chosen true true false f g h = simp (assign_name, assign_rate) (ground arith)
  assign_all-chosen true false true f g h = simp (assign_name, assign_concurrency) (ground arith)
  assign_all-chosen true false false f g h = simp assign_name (ground arith)
  assign_all-chosen false true true f g h = simp (assign_rate, assign_concurrency) (ground arith)
  assign_all-chosen false true false f g h = simp assign_rate (ground arith)
  assign_all-chosen false false true f g h = simp assign_concurrency (ground arith)
  assign_all-chosen false false false f g h = ground arith

pub patch_changes-chosen :
    (t : Tenant) (body : Record)
    → patch_changes t body
      ≡ chosen
          (changes_field t name (lookup "name" body))
          (changes_field t rate_limit_rps (lookup "rate_limit_rps" body))
          (changes_field t concurrency_limit (lookup "concurrency_limit" body))
unfolding patch_changes field_name chosen
patch_changes-chosen t body = refl

-- The patched tenant as one record.
pub patched_lem :
    (t : Tenant) (body : Record) (now : ℕ)
    → patched t body now ≡ record {
      external_id = t.external_id;
      name = text_after (lookup "name" body) t.name;
      rate_limit_rps = number_after (lookup "rate_limit_rps" body) t.rate_limit_rps;
      concurrency_limit = number_after (lookup "concurrency_limit" body) t.concurrency_limit;
      created_at = t.created_at;
      updated_at = to_iso_string now;
    }
unfolding patched patch_changes chosen field_name
patched_lem t body now =
    assign_all-chosen body t (record t { updated_at = to_iso_string now }) refl refl refl _ _ _
      (name_kept t (lookup "name" body)) (rate_kept t (lookup "rate_limit_rps" body))
      (concurrency_kept t (lookup "concurrency_limit" body))

-- A patch that passes over every field names the values that are there.
pub patch_changes-nil :
    (t : Tenant) (body : Record)
    → patch_changes t body ≡ []
    → (text_after (lookup "name" body) t.name ≡ t.name)
      × (number_after (lookup "rate_limit_rps" body) t.rate_limit_rps ≡ t.rate_limit_rps)
      × (number_after (lookup "concurrency_limit" body) t.concurrency_limit ≡ t.concurrency_limit)
unfolding patch_changes field_name
patch_changes-nil t body h = ground (
  arith,
  name_kept t (lookup "name" body),
  rate_kept t (lookup "rate_limit_rps" body),
  concurrency_kept t (lookup "concurrency_limit" body),
)
