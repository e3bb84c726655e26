-- ===== src/Form/Tenant/Schema/Laws.antt =====
-- What the schema of the form of a tenant lets through.
use wasm_hooks.Common.{◌≤◌, ◌≡◌, refl, String, false, Option, none, some, arith, ◌==◌}
use wasm_hooks.Common.Int.{pos, negsuc, IsNonneg}
use wasm_hooks.Text.{utf16_length, trim}
use wasm_hooks.Entity.Tenant.{external_id_max}
use wasm_hooks.Form.Tenant.{TenantFormValues}
use wasm_hooks.Form.Tenant.Schema.{
  Entered, not_a_number, unsafe, integer, TenantInputs, quota_issue, external_id_issue, output_of,
  unless_any, parse_inputs, number_of,
}

unless_any-some :
    (a b c d : Option String) (v w : TenantFormValues)
    → unless_any a b c d v ≡ some w
    → (a ≡ none) × (c ≡ none) × (d ≡ none) × (v ≡ w)
unfolding unless_any
unless_any-some none none none none v w e = (refl, refl, refl, cc)
unless_any-some (some a) b c d v w e = absurd (cc)
unless_any-some none (some b) c d v w e = absurd (cc)
unless_any-some none none (some c) d v w e = absurd (cc)
unless_any-some none none none (some d) v w e = absurd (cc)

quota_issue-IsNonneg : (n : Entered) → quota_issue n ≡ none → IsNonneg (number_of n)
unfolding quota_issue
quota_issue-IsNonneg not_a_number e = absurd (cc)
quota_issue-IsNonneg (unsafe s) e = absurd (cc)
quota_issue-IsNonneg (integer (pos n)) e = tt
quota_issue-IsNonneg (integer (negsuc n)) e = absurd (cc)

external_id_issue-length :
    (id : String)
    → external_id_issue id ≡ none
    → (1 ≤ utf16_length id) × (utf16_length id ≤ external_id_max)
unfolding external_id_issue
external_id_issue-length id e = (ground arith, ground arith)

external_id_issue-trim : (id : String) → (trim id == id) ≡ false → external_id_issue id ≡ none → ⊥
unfolding external_id_issue
external_id_issue-trim id e h = ground arith

module _ (i : TenantInputs) (v : TenantFormValues) (e : parse_inputs i ≡ some v) where
  -- The values that the schema lets through have an identifier of 1 to 128 units and quotas that are not negative.
  pub parse_inputs-fit :
      ((1 ≤ utf16_length v.external_id) × (utf16_length v.external_id ≤ external_id_max))
      × IsNonneg v.rate_limit_rps
      × IsNonneg v.concurrency_limit
  unfolding parse_inputs output_of
  parse_inputs-fit =
      let (no_id, no_rate, no_concurrency, same) = unless_any-some _ _ _ _ (output_of i) v e in
      rw (← same) (
        external_id_issue-length i.external_id no_id,
        quota_issue-IsNonneg i.rate_limit_rps no_rate,
        quota_issue-IsNonneg i.concurrency_limit no_concurrency,
      )

  pub parse_inputs-trimmed : (trim i.external_id == i.external_id) ≡ false → ⊥
  unfolding parse_inputs
  parse_inputs-trimmed spaced =
      external_id_issue-trim i.external_id spaced (unless_any-some _ _ _ _ (output_of i) v e).0
