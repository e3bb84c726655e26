-- ===== src/Dialog/Tenant.antt =====
-- web/src/features/tenant-editor/ui/tenant-dialog.tsx: the dialog of a new tenant and of one that is there. What
-- react-hook-form documents is written out: a submit checks all fields and sends only values without a complaint; a
-- complaint is taken away, and after a first submit the field is checked again, when its value changes.
pub mod Laws
use wasm_hooks.Common.{
  ℕ, String, Bool, true, false, not, ◌&&◌, ◌||◌, List, [], ◌∷◌, ◌++◌, Option, none, some, is_some,
  if◌then◌else◌, ◌==◌,
}
use wasm_hooks.Common.Int.{ℤ, int_eq}
use wasm_hooks.Text.{concat}
use wasm_hooks.Api.Client.{Thrown, api_error, other_error}
use wasm_hooks.Entity.Tenant.{Tenant, TenantPatch}
use wasm_hooks.Form.Tenant.{TenantFormValues, empty_tenant_form, form_from_tenant, tenant_changes}
use wasm_hooks.Form.Tenant.Schema.{
  Entered, not_a_number, unsafe, integer, TenantInputs, TenantIssues, no_issues, quota_issue,
  external_id_issue, name_issue, issues_of, parse_inputs, inputs_of,
}
use wasm_hooks.Gate.Errors.{describe_error, is_status}
use wasm_hooks.Dialog.Shown.{DialogView, button}

-- The state; `defaults` are the values of the last `reset`.
pub record TenantState : Type 0 where
  pub is_open : Bool
  pub defaults : TenantInputs
  pub inputs : TenantInputs
  pub issues : TenantIssues
  pub was_submitted : Bool
  pub is_submitting : Bool
  pub server_error : Option Thrown

pub data TenantEvent : Type 0 where
  opened closed submitted saved : TenantEvent
  typed_external_id typed_name : String → TenantEvent
  typed_rate_limit_rps typed_concurrency_limit : Entered → TenantEvent
  refused : Thrown → TenantEvent

-- What `create.mutateAsync` and `patch.mutateAsync` are given.
pub data TenantRequest : Type 0 where
  creation : TenantFormValues → TenantRequest
  change : Tenant → TenantPatch → TenantRequest

-- `tenant ? formFromTenant(tenant) : emptyTenantForm`
unfoldable pub default_inputs : Option Tenant → TenantInputs
unfolding form_from_tenant
default_inputs none = inputs_of empty_tenant_form
default_inputs (some t) = inputs_of (form_from_tenant t)

abbrev pub first_state : Option Tenant → TenantState
unfolding default_inputs
first_state tenant = record {
  is_open = false;
  defaults = default_inputs tenant;
  inputs = default_inputs tenant;
  issues = no_issues;
  was_submitted = false;
  is_submitting = false;
  server_error = none;
}

-- `changeOpen`
unfoldable pub change_open : Option Tenant → Bool → TenantState → TenantState
change_open tenant next s =
    if s.is_submitting
    then s
    else if next
    then record (first_state tenant) { is_open = true }
    else record s { is_open = false }

-- `Object.keys(changes).length > 0`
abbrev pub has_changes : TenantPatch → Bool
has_changes p = is_some p.name || (is_some p.rate_limit_rps || is_some p.concurrency_limit)

abbrev sending : TenantState → TenantState
sending s = record s {
  issues = no_issues;
  was_submitted = true;
  is_submitting = true;
  server_error = none;
}

-- `onSubmit`, up to an answer: the state, and the request that is sent.
unfoldable pub on_submit :
    Option Tenant → TenantFormValues → TenantState → TenantState × Option TenantRequest
unfolding tenant_changes
on_submit none v s = (sending s, some (creation v))
on_submit (some t) v s =
    let changes = tenant_changes t v in
    if has_changes changes
    then (sending s, some (change t changes))
    else (record (sending s) { is_submitting = false; is_open = false }, none)

-- `handleSubmit(onSubmit)`
unfoldable pub submit_parsed :
    Option Tenant → Option TenantFormValues → TenantState → TenantState × Option TenantRequest
unfolding on_submit issues_of
submit_parsed tenant none s = (record s { issues = issues_of s.inputs; was_submitted = true }, none)
submit_parsed tenant (some v) s = on_submit tenant v s

taken_issue : Thrown → TenantIssues → TenantIssues
taken_issue (api_error status message detail) issues = record issues { external_id = some message }
taken_issue (other_error message) issues = issues

-- The `catch` of `onSubmit`.
unfoldable pub on_refused : Option Tenant → Thrown → TenantState → TenantState
unfolding taken_issue
on_refused none e s =
    if is_status 409 e
    then record s { issues = taken_issue e s.issues; is_submitting = false }
    else record s { server_error = some e; is_submitting = false }
on_refused (some t) e s = record s { server_error = some e; is_submitting = false }

-- The complaint about a field whose value changes.
abbrev rechecked : Bool → Option String → Option String
rechecked was_submitted issue = if was_submitted then issue else none

abbrev entered_eq : Entered → Entered → Bool
entered_eq not_a_number not_a_number = true
entered_eq (unsafe s) (unsafe t) = s == t
entered_eq (integer a) (integer b) = int_eq a b
entered_eq _ _ = false

-- `formState.isDirty`
unfoldable pub is_dirty : TenantState → Bool
is_dirty s = not (
    (s.inputs.external_id == s.defaults.external_id && s.inputs.name == s.defaults.name)
    && (entered_eq s.inputs.rate_limit_rps s.defaults.rate_limit_rps
        && entered_eq s.inputs.concurrency_limit s.defaults.concurrency_limit))

-- Whether the button that saves is there and enabled.
unfoldable pub can_save : Option Tenant → TenantState → Bool
unfolding is_dirty
can_save tenant s = s.is_open && not (s.is_submitting || (is_some tenant && not (is_dirty s)))

type_external_id : String → TenantState → TenantState
unfolding external_id_issue
type_external_id id s = record s {
  inputs = record s.inputs { external_id = id };
  issues = record s.issues { external_id = rechecked s.was_submitted (external_id_issue id) };
}

type_name : String → TenantState → TenantState
unfolding name_issue
type_name name s = record s {
  inputs = record s.inputs { name = name };
  issues = record s.issues { name = rechecked s.was_submitted (name_issue name) };
}

type_rate : Entered → TenantState → TenantState
unfolding quota_issue
type_rate n s = record s {
  inputs = record s.inputs { rate_limit_rps = n };
  issues = record s.issues { rate_limit_rps = rechecked s.was_submitted (quota_issue n) };
}

type_concurrency : Entered → TenantState → TenantState
unfolding quota_issue
type_concurrency n s = record s {
  inputs = record s.inputs { concurrency_limit = n };
  issues = record s.issues { concurrency_limit = rechecked s.was_submitted (quota_issue n) };
}

-- One event, and the request that it sends. The field of the identifier is there only for a new tenant.
unfoldable pub tenant_step :
    Option Tenant → TenantEvent → TenantState → TenantState × Option TenantRequest
unfolding change_open submit_parsed parse_inputs on_refused can_save type_external_id type_name
    type_rate type_concurrency
tenant_step tenant opened s = (change_open tenant true s, none)
tenant_step tenant closed s = (change_open tenant false s, none)
tenant_step tenant submitted s =
    let next = submit_parsed tenant (parse_inputs s.inputs) s in
    if can_save tenant s then next else (s, none)
tenant_step tenant saved s =
    (if s.is_submitting then record s { is_submitting = false; is_open = false } else s, none)
tenant_step tenant (refused e) s =
    let next = on_refused tenant e s in (if s.is_submitting then next else s, none)
tenant_step tenant (typed_external_id id) s =
    let next = type_external_id id s in
    (if s.is_open && not (is_some tenant) then next else s, none)
tenant_step tenant (typed_name name) s =
    let next = type_name name s in (if s.is_open then next else s, none)
tenant_step tenant (typed_rate_limit_rps n) s =
    let next = type_rate n s in (if s.is_open then next else s, none)
tenant_step tenant (typed_concurrency_limit n) s =
    let next = type_concurrency n s in (if s.is_open then next else s, none)

-- The requests that a history sends.
unfoldable pub tenant_run :
    Option Tenant → List TenantEvent → TenantState → List (Option TenantRequest)
unfolding tenant_step
tenant_run tenant [] s = []
tenant_run tenant (e ∷ es) s =
    let (next, sent) = tenant_step tenant e s in sent ∷ tenant_run tenant es next

-- A field: its label, and the complaint or else the hint under it.
abbrev field : String → Option String → Option String → List String
field label hint none = label ∷ shown hint
  where
    shown : Option String → List String
    shown none = []
    shown (some s) = s ∷ []
field label hint (some issue) = label ∷ issue ∷ []

id_field : Option Tenant → TenantIssues → List String
id_field none issues =
    field "external_id" (some "Идентификатор тенанта в вашем продукте, например merchant-a.")
      issues.external_id
id_field (some t) issues = []

abbrev quota_hint : String
quota_hint = "0 — значение по умолчанию data plane"

title_of : Option Tenant → String
title_of none = "Новый тенант"
title_of (some t) = concat ("Тенант " ∷ t.external_id ∷ [])

description_of : Option Tenant → String
description_of none = "Тенант появится в снимке конфигурации data plane сразу после создания."
description_of (some t) =
    "external_id изменить нельзя: по нему data plane узнаёт тенанта в вызовах."

error_text : Option Thrown → Option String
unfolding describe_error
error_text none = none
error_text (some e) = some (describe_error e)

save_text : Option Tenant → Bool → String
save_text tenant true = "Сохранение…"
save_text none false = "Создать"
save_text (some t) false = "Сохранить"

form_view : Option Tenant → TenantState → DialogView TenantEvent
unfolding id_field title_of description_of error_text save_text is_dirty
form_view tenant s = record {
  title = title_of tenant;
  paragraphs =
      description_of tenant ∷ id_field tenant s.issues
      ++ field "Название" none s.issues.name
      ++ field "Лимит запросов в секунду" (some quota_hint) s.issues.rate_limit_rps
      ++ field "Параллельных вызовов" (some quota_hint) s.issues.concurrency_limit
      ++ "Квоты попадут в снимок, применять их data plane начнёт в MVP." ∷ [];
  alert = error_text s.server_error;
  buttons =
      button "Отмена" s.is_submitting closed
      ∷ button (save_text tenant s.is_submitting)
          (s.is_submitting || (is_some tenant && not (is_dirty s))) submitted
      ∷ [];
}

-- What is shown beside the trigger: nothing while the dialog is closed.
unfoldable pub tenant_view : Option Tenant → TenantState → Option (DialogView TenantEvent)
unfolding form_view
tenant_view tenant s = let shown = form_view tenant s in if s.is_open then some shown else none
