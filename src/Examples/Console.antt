-- ===== src/Examples/Console.antt =====
-- The console's gates, dialogs and forms at concrete events.
use wasm_hooks.Common.{
  ◌⊎◌, ℕ, ◌+◌, ◌<◌, ◌≤◌, ◌^◌, ◌≡◌, refl, true, false, String, List, [], ◌∷◌, ◌++◌, none, some, All,
  if◌then◌else◌, arith,
}
use wasm_hooks.Common.Int.{pos}
use wasm_hooks.Json.Stringify.{stringify}
use wasm_hooks.Text.{is_space}
use wasm_hooks.Entity.Module.{Module, validated}
use wasm_hooks.Entity.Hook.{OperatorHook}
use wasm_hooks.Api.Client.{other_error}
use wasm_hooks.Mock.Db.{PendingModule}
use wasm_hooks.Mock.Http.{status_of}
use wasm_hooks.Mock.Hooks.{narrowed}
use wasm_hooks.Mock.Modules.{File}
use wasm_hooks.Mock.Bindings.{put_binding}
use wasm_hooks.Mock.Seed.{seed_hash, passed_report, validate_spec}
use wasm_hooks.Gate.Jwt.{reached}
use wasm_hooks.Gate.Expiry.{left, check, clearance}
use wasm_hooks.Gate.Expiry.Laws.{total, clearance-reached, check-bounds}
use wasm_hooks.Gate.Sign.{
  GateState, GateEvent, typed, submitted, verified, adopted, operator_gate, gate_step, gate_run,
}
use wasm_hooks.Gate.Sign.Laws.{gate_run-accepted}
use wasm_hooks.Dialog.Upload.{
  UploadState, UploadEvent, opened, closed, chosen, unconfirmed, closed_dialog, upload_run,
}
use wasm_hooks.Dialog.Upload
use wasm_hooks.Dialog.IssueKey
use wasm_hooks.Dialog.IssueKey.Laws.{IsGranted, issue_run-IsGranted}
use wasm_hooks.Mock.ApiKeys.{Draws}
use wasm_hooks.Dialog.Upload.Laws.{Passes, upload_run-Passes, upload_run-unconfirmed}
use wasm_hooks.Form.StringList.{ListEvent, removed, added}
use wasm_hooks.Form.StringList
use wasm_hooks.Form.Hook.{JsonText, spec_from_form}
use wasm_hooks.Form.Hook.Laws.{edited, edited-narrowed}
use wasm_hooks.Versions.{action, panel_state}
use wasm_hooks.Versions.Laws.{
  IsTrue, is_activation, activation_of, panel_state-IsTrue, action-put_binding,
}
use wasm_hooks.Examples.Data.{start, noon}

-- A session of 50 days, with timers that are late by 3 and by 5 milliseconds.
clearance-reached_example :
    (t : ℕ) × (clearance (pos 4320000000) (3 ∷ 5 ∷ 0 ∷ []) 0 ≡ some t)
    × (reached (pos 4320000000) t ≡ true)
    × (t ≤ 0 + left (pos 4320000000) 0 + total (3 ∷ 5 ∷ 0 ∷ []))
clearance-reached_example = clearance-reached (pos 4320000000) (3 ∷ 5 ∷ 0 ∷ []) 0 (omega arith)

check-bounds_example :
    (1 ≤ 700) × (700 < 2 ^ 31) × (left (pos 1000) (300 + 700) < left (pos 1000) 300)
unfolding check
check-bounds_example = check-bounds (pos 1000) 300 700 refl

abbrev signed_out : GateState
signed_out = record { value = ""; error = none; checking = none; token = none }

-- A key that is refused, and a second one that is accepted.
abbrev sign_in : List GateEvent
sign_in =
    typed "bad"
    ∷ submitted
    ∷ verified (some (other_error "no"))
    ∷ typed " good"
    ∷ submitted
    ∷ verified none
    ∷ []

gate_run-accepted_example :
    (front : List GateEvent) × (back : List GateEvent) × (((sign_in ≡ front ++ verified none ∷ back)
        × ((gate_run operator_gate front signed_out).checking ≡ some "good"))
      ⊎ (sign_in ≡ front ++ adopted (some "good") ∷ back))
unfolding gate_run gate_step is_space
gate_run-accepted_example = gate_run-accepted operator_gate sign_in signed_out "good" refl refl refl

abbrev module_file : File
module_file = record { file_name = "discount.wasm"; bytes = 0x00 ∷ 0x61 ∷ 0x73 ∷ 0x6d ∷ 0x01 ∷ [] }

abbrev text_file : File
text_file = record { file_name = "readme.txt"; bytes = 0x23 ∷ [] }

abbrev upload : List UploadEvent
upload = opened ∷ chosen (some text_file) ∷ chosen (some module_file) ∷ Upload.submitted ∷ []

upload_run-Passes_example : All Passes (upload_run upload closed_dialog).1
upload_run-Passes_example = upload_run-Passes upload closed_dialog tt

abbrev in_doubt : UploadState
in_doubt = record {
  is_open = true;
  step = unconfirmed;
  file = some module_file;
  error = none;
  is_pending = false;
}

upload_run-unconfirmed_example :
    All
      (λ sent. sent ≡ none)
      (upload_run (Upload.submitted ∷ opened ∷ Upload.submitted ∷ []) in_doubt).1
upload_run-unconfirmed_example =
    upload_run-unconfirmed (Upload.submitted ∷ opened ∷ Upload.submitted ∷ []) in_doubt
      (tt, (tt, (tt, tt))) (refl, refl)

abbrev version : String → String → String → Module
version id hash at = record {
  id = id;
  hook = "checkout.discount";
  content_hash = seed_hash hash;
  size_bytes = 131204;
  status = validated;
  validation_report = none;
  uploaded_at = at;
}

-- A version that is ready, while another is in use.
panel_state-IsTrue_example :
    IsTrue
      (some "mod_02")
      none
      (panel_state (version "mod_05" "3f1a9c2e" "2026-09-20T09:12:00Z" ∷ []) (some "mod_02") none)
panel_state-IsTrue_example =
    panel_state-IsTrue (version "mod_05" "3f1a9c2e" "2026-09-20T09:12:00Z" ∷ []) (some "mod_02")
      none

abbrev first_version : PendingModule
first_version = record {
  base = record (version "mod_01" "3f1a9c2e" "2026-09-10T09:12:00Z") {
    validation_report = some passed_report;
  };
  validates_at = 0;
  reject_reason = none;
}

action-put_binding_example :
    status_of (put_binding "checkout.discount" (activation_of "mod_01") noon start).0
    ≡ (if is_activation (action (some "mod_02") none first_version.base) then 200 else 409)
action-put_binding_example =
    action-put_binding start "checkout.discount" first_version (some "mod_02") none noon refl refl
      refl

-- The hook of the initial state, with its effect taken out, or so it is tried, and a name added.
abbrev attempts : List ListEvent
attempts = removed "order.flag" ∷ StringList.typed "kv_get" ∷ added ∷ []

abbrev hook : OperatorHook
hook = record {
  name = "checkout.discount";
  def_version = 3;
  spec = validate_spec;
  created_at = "2026-09-01T10:00:00Z";
  updated_at = "2026-09-01T10:00:00Z";
}

abbrev json_text : JsonText
json_text = record { parse = λ s. none; pretty = λ v. stringify v }

edited-narrowed_example :
    narrowed hook.spec (spec_from_form json_text (edited hook attempts attempts json_text)) ≡ []
edited-narrowed_example = edited-narrowed hook attempts attempts json_text

-- An empty name, and one that is typed with white space.
abbrev issue : List IssueKey.IssueEvent
issue =
    IssueKey.opened ∷ IssueKey.submitted ∷ IssueKey.typed " shop-backend " ∷ IssueKey.submitted ∷ []

abbrev draws : Draws
draws = record { id_bytes = 1 ∷ []; token_bytes = 2 ∷ [] }

abbrev closed_issue : IssueKey.IssueState
closed_issue = record {
  is_open = false;
  name = "";
  field_error = none;
  issue = IssueKey.unsent;
  copied = none;
}

issue_run-IsGranted_example :
    All (IsGranted start draws noon) (IssueKey.issue_run issue closed_issue)
issue_run-IsGranted_example = issue_run-IsGranted start draws noon issue closed_issue
