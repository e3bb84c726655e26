-- ===== src/Mock/Tenants/Changed.antt =====
-- Which fields a patch changes, by the values that they have afterwards.
use wasm_hooks.Common.{◌≡◌, refl, not, ◌==◌, eq_refl, Option, none, some}
use wasm_hooks.Common.Int.{int_eq, int_eq_refl}
use wasm_hooks.Json.{Json, null, bool, whole, fraction, str, arr, obj}
use wasm_hooks.Entity.Tenant.{Tenant}
use wasm_hooks.Mock.Tenants.{
  quota_error_of, patch_name_error, name, rate_limit_rps, concurrency_limit, differs, changes_field,
}
use wasm_hooks.Mock.Tenants.Fields.{text_after, number_after}

-- A field that has passed its check is changed exactly if its value is another one afterwards.
pub name_changed :
    (t : Tenant) (v : Option Json)
    → patch_name_error v ≡ none
    → changes_field t name v ≡ not (text_after v t.name == t.name)
unfolding changes_field differs patch_name_error
name_changed t none h = rw (eq_refl t.name) refl
name_changed t (some null) h = rw (eq_refl t.name) refl
name_changed t (some (bool b)) h = cc
name_changed t (some (whole z)) h = cc
name_changed t (some (fraction s)) h = cc
name_changed t (some (str s)) h = refl
name_changed t (some (arr vs)) h = cc
name_changed t (some (obj fs)) h = cc

pub rate_changed :
    (t : Tenant) (v : Option Json)
    → quota_error_of "rate_limit_rps" v ≡ none
    → changes_field t rate_limit_rps v
      ≡ not (int_eq (number_after v t.rate_limit_rps) t.rate_limit_rps)
unfolding changes_field differs quota_error_of
rate_changed t none h = rw (int_eq_refl t.rate_limit_rps) refl
rate_changed t (some null) h = rw (int_eq_refl t.rate_limit_rps) refl
rate_changed t (some (bool b)) h = cc
rate_changed t (some (whole z)) h = refl
rate_changed t (some (fraction s)) h = cc
rate_changed t (some (str s)) h = cc
rate_changed t (some (arr vs)) h = cc
rate_changed t (some (obj fs)) h = cc

pub concurrency_changed :
    (t : Tenant) (v : Option Json)
    → quota_error_of "concurrency_limit" v ≡ none
    → changes_field t concurrency_limit v
      ≡ not (int_eq (number_after v t.concurrency_limit) t.concurrency_limit)
unfolding changes_field differs quota_error_of
concurrency_changed t none h = rw (int_eq_refl t.concurrency_limit) refl
concurrency_changed t (some null) h = rw (int_eq_refl t.concurrency_limit) refl
concurrency_changed t (some (bool b)) h = cc
concurrency_changed t (some (whole z)) h = refl
concurrency_changed t (some (fraction s)) h = cc
concurrency_changed t (some (str s)) h = cc
concurrency_changed t (some (arr vs)) h = cc
concurrency_changed t (some (obj fs)) h = cc
