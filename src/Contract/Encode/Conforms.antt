-- ===== src/Contract/Encode/Conforms.antt =====
-- The JSON values of the mock API's records are values of the contract's types.
use wasm_hooks.Common.{
  String, Bool, true, false, ◌||◌, ◌≡◌, refl, List, [], ◌∷◌, map, Option, none, some, all, ◌==◌,
}
use wasm_hooks.Json.{Json, str, Record, props, of_props, elems, of_elems}
use wasm_hooks.Entity.Hook.{OperatorHook, Binding, TenantHook}
use wasm_hooks.Entity.Module.{
  Module, ModuleStatus, status_text, uploaded, validating, validated, rejected, archived,
  ValidationReport, ValidationCheck, CheckName, fetch, compile, exports, imports, sample_call,
}
use wasm_hooks.Entity.Tenant.{Tenant}
use wasm_hooks.Entity.ApiKey.{ApiKey, ApiKeyCreated}
use wasm_hooks.Contract.Shape.{Shape, conforms, is_text, is_null, is_number}
use wasm_hooks.Contract.Shape.Bools.{and-intro, or_left, or_right}
use wasm_hooks.Contract.Schemas
use wasm_hooks.Entity.Invocation.{
  Outcome, ok, no_handler, timeout, handler_error, quota_exceeded, unavailable, outcome_text,
  Invocation,
}
use wasm_hooks.Common.Int.{ℤ}
use wasm_hooks.Mock.Log.{Floats}
use wasm_hooks.Contract.Codecs
use wasm_hooks.Contract.Zod.{input_of}
use wasm_hooks.Contract.Encode.{
  number_json, invocation_json, null_or, tenant_json, api_key_json, api_key_created_json, hook_json,
  binding_json, tenant_hook_json, check_json, report_json, module_json,
}

all_of_map :
    {A : Type 0} (f : A → Json) (p : Json → Bool) (xs : List A)
    → ((x : A) → p (f x) ≡ true)
    → all p (elems (of_elems (map f xs))) ≡ true
all_of_map f p [] h = refl
all_of_map f p (x ∷ xs) h = and-intro _ _ (h x) (all_of_map f p xs h)

all-props :
    {A : Type 0} (f : A → Json) (p : Json → Bool) (es : List (String × A))
    → ((x : A) → p (f x) ≡ true)
    → all (λ e. p e.1) (props (of_props (map (λ e. (e.0, f e.1)) es))) ≡ true
all-props f p [] h = refl
all-props f p ((k, x) ∷ es) h = and-intro _ _ (h x) (all-props f p es h)

all_unknown : (es : Record) → all (λ e. true) (props (of_props es)) ≡ true
all_unknown [] = refl
all_unknown ((k, v) ∷ es) = all_unknown es

strings-conforms :
    (ss : List String) → all (λ w. is_text w) (elems (of_elems (map (λ s. str s) ss))) ≡ true
strings-conforms ss = all_of_map (λ s. str s) (λ v. is_text v) ss (λ s. refl)

pub items-conforms :
    {A : Type 0} (f : A → Json) (s : Shape) (xs : List A)
    → ((x : A) → conforms false s (f x) ≡ true)
    → conforms false (Shape.list s) (Json.arr (of_elems (map f xs))) ≡ true
unfolding conforms
items-conforms f s xs h = all_of_map f (λ v. conforms false s v) xs h

null_or-text :
    (o : Option String)
    → (is_text (null_or (λ s. str s) o) || is_null (null_or (λ s. str s) o)) ≡ true
null_or-text none = refl
null_or-text (some s) = refl

null_or-conforms :
    {A : Type 0} (f : A → Json) (s : Shape) (o : Option A)
    → ((x : A) → conforms false s (f x) ≡ true)
    → (conforms false s (null_or f o) || is_null (null_or f o)) ≡ true
null_or-conforms f s none h = or_right _ _ refl
null_or-conforms f s (some x) h = or_left _ _ (h x)

pub tenant_json-conforms : (t : Tenant) → conforms false Schemas.tenant_shape (tenant_json t) ≡ true
unfolding conforms
tenant_json-conforms t = refl

pub api_key_json-conforms :
    (k : ApiKey) → conforms false Schemas.api_key_shape (api_key_json k) ≡ true
unfolding conforms
api_key_json-conforms k = and-intro _ _ (null_or-text k.revoked_at) refl

pub hook_json-conforms : (h : OperatorHook) → conforms false Schemas.hook_shape (hook_json h) ≡ true
unfolding conforms
hook_json-conforms h =
    rw
      (
        all_unknown h.input_schema,
        all_unknown h.output_schema,
        all_unknown h.sample_input,
        strings-conforms h.allowed_host_functions,
        strings-conforms h.allowed_effect_types,
      )
      refl

-- The hook as the tenant sees it: the mock API answers the operator's whole record.
hook_json-conforms_view :
    (h : OperatorHook) → conforms false Schemas.hook_view_shape (hook_json h) ≡ true
unfolding conforms
hook_json-conforms_view h =
    rw
      (
        all_unknown h.input_schema,
        all_unknown h.output_schema,
        strings-conforms h.allowed_host_functions,
        strings-conforms h.allowed_effect_types,
      )
      refl

pub binding_json-conforms :
    (b : Binding) → conforms false Schemas.tenant_binding_shape (binding_json b) ≡ true
unfolding conforms
binding_json-conforms b = and-intro _ _ (null_or-text b.active_module_id) (
    and-intro _ _ (null_or-text b.active_module_hash)
      (and-intro _ _ (all-props (λ s. str s) (λ v. is_text v) b.config (λ s. refl)) refl))

pub tenant_hook_json-conforms :
    (h : TenantHook) → conforms false Schemas.tenant_hook_shape (tenant_hook_json h) ≡ true
unfolding conforms
tenant_hook_json-conforms h = and-intro _ _ (hook_json-conforms_view h.hook) (
    and-intro _ _
      (null_or-conforms binding_json Schemas.tenant_binding_shape h.binding binding_json-conforms)
      refl)

check_json-conforms :
    (c : ValidationCheck) → conforms false Schemas.validation_check_shape (check_json c) ≡ true
unfolding conforms
check_json-conforms c = go c.name c.detail
  where
    go :
        (n : CheckName) (d : Option String)
        → conforms false Schemas.validation_check_shape
            (check_json (record c { name = n; detail = d }))
          ≡ true
    go fetch none = refl
    go fetch (some d) = refl
    go compile none = refl
    go compile (some d) = refl
    go exports none = refl
    go exports (some d) = refl
    go imports none = refl
    go imports (some d) = refl
    go sample_call none = refl
    go sample_call (some d) = refl

report_json-conforms :
    (r : ValidationReport) → conforms false Schemas.validation_report_shape (report_json r) ≡ true
unfolding conforms
report_json-conforms r =
    and-intro _ _
      (items-conforms check_json Schemas.validation_check_shape r.checks check_json-conforms) refl

status_text-conforms :
    (t : ModuleStatus)
    → (status_text t == "uploaded"
        || (status_text t == "validating"
            || (status_text t == "validated"
                || (status_text t == "rejected" || status_text t == "archived"))))
      ≡ true
unfolding status_text
status_text-conforms uploaded = refl
status_text-conforms validating = refl
status_text-conforms validated = refl
status_text-conforms rejected = refl
status_text-conforms archived = refl

pub module_json-conforms : (m : Module) → conforms false Schemas.module_shape (module_json m) ≡ true
unfolding conforms status_text
module_json-conforms m = and-intro _ _ (status_text-conforms m.status) (
    and-intro _ _
      (null_or-conforms report_json Schemas.validation_report_shape m.validation_report
        report_json-conforms)
      refl)

pub api_key_created_json-conforms :
    (k : ApiKeyCreated)
    → conforms false Schemas.api_key_created_shape (api_key_created_json k) ≡ true
unfolding conforms
api_key_created_json-conforms k = and-intro _ _ (null_or-text k.revoked_at) refl

outcome_text-conforms :
    (o : Outcome) → conforms false (input_of Codecs.outcome_schema) (str (outcome_text o)) ≡ true
unfolding conforms input_of outcome_text
outcome_text-conforms ok = refl
outcome_text-conforms no_handler = refl
outcome_text-conforms timeout = refl
outcome_text-conforms handler_error = refl
outcome_text-conforms quota_exceeded = refl
outcome_text-conforms unavailable = refl

number_json-number : (o : Option ℤ) (s : String) → is_number (number_json o s) ≡ true
number_json-number none s = refl
number_json-number (some z) s = refl

pub invocation_json-conforms :
    {F : Type 0} (floats : Floats F) (i : Invocation F)
    → conforms false (input_of Codecs.invocation_schema) (invocation_json floats i) ≡ true
unfolding conforms input_of invocation_json
invocation_json-conforms floats i = and-intro _ _ (null_or-text i.module_hash) (
    and-intro _ _ (outcome_text-conforms i.outcome) (
      and-intro _ _ (null_or-text i.reason) (
        and-intro _ _ (null_or-text i.error) (
          and-intro _ _ (number_json-number _ _) (
            and-intro _ _ (null_or-text i.idempotency_key)
              (and-intro _ _ (strings-conforms i.logs) refl))))))
