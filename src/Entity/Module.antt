-- ===== src/Entity/Module.antt =====
-- web/src/entities/module/model: uploaded modules and their validation.
use wasm_hooks.Common.{ℕ, ◌*◌, String, Bool, true, false, not, List, Option, none, some, find}

abbrev pub max_module_bytes : ℕ
max_module_bytes = 10 * 1024 * 1024

pub data ModuleStatus : Type 0 where
  uploaded validating validated rejected archived : ModuleStatus

pub data CheckName : Type 0 where
  fetch compile exports imports sample_call : CheckName

pub record ValidationCheck : Type 0 where
  pub name : CheckName
  pub ok : Bool
  pub detail : Option String

pub record ValidationReport : Type 0 where
  pub ok : Bool
  pub checks : List ValidationCheck

pub record Module : Type 0 where
  pub id : String
  pub hook : String
  pub content_hash : String
  pub size_bytes : ℕ
  pub status : ModuleStatus
  pub validation_report : Option ValidationReport
  pub uploaded_at : String

unfoldable pub is_pending : ModuleStatus → Bool
is_pending uploaded = true
is_pending validating = true
is_pending validated = false
is_pending rejected = false
is_pending archived = false

-- The value in the source's text, as templates print it.
unfoldable pub status_text : ModuleStatus → String
status_text uploaded = "uploaded"
status_text validating = "validating"
status_text validated = "validated"
status_text rejected = "rejected"
status_text archived = "archived"

abbrev pub status_is : ModuleStatus → ModuleStatus → Bool
status_is uploaded uploaded = true
status_is validating validating = true
status_is validated validated = true
status_is rejected rejected = true
status_is archived archived = true
status_is _ _ = false

first_failed : Option ValidationReport → Option ValidationCheck
first_failed none = none
first_failed (some r) = find (λ c. not c.ok) r.checks

unfoldable pub first_failed_check : Module → Option ValidationCheck
unfolding first_failed
first_failed_check m = first_failed m.validation_report
