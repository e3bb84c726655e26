-- ===== src/Examples/Dialogs.antt =====
-- The dialogs and the cache of the console at concrete events.
use wasm_hooks.Common.{
  ◌+◌, ◌≤◌, ◌≡◌, refl, true, List, [], ◌∷◌, none, some, All, ◌⊎◌, if◌then◌else◌,
}
use wasm_hooks.Common.Int.{pos}
use wasm_hooks.Json.{Json, lookup}
use wasm_hooks.Json.Stringify.{stringify}
use wasm_hooks.Clock.{to_iso_string}
use wasm_hooks.Text.{trim, concat, decimal, text_le, is_space}
use wasm_hooks.Api.Client.{other_error}
use wasm_hooks.Entity.Hook.{Binding}
use wasm_hooks.Entity.Tenant.{Tenant}
use wasm_hooks.Form.Tenant.{form_from_tenant}
use wasm_hooks.Form.Tenant.Schema.{integer, not_a_number}
use wasm_hooks.Mock.ApiKeys.{Draws, revoke_api_key}
use wasm_hooks.Mock.Bindings.{put_binding, config_changed}
use wasm_hooks.Mock.Seed.{seed_binding, seed_hash}
use wasm_hooks.Dialog.Tenant as TenantDialog
use wasm_hooks.Dialog.Tenant.{tenant_run, first_state, default_inputs}
use wasm_hooks.Dialog.Tenant.Laws.{IsSaved, tenant_run-IsSaved, IsUnsent, tenant_run-IsUnsent}
use wasm_hooks.Dialog.Confirm as ConfirmDialog
use wasm_hooks.Dialog.Confirm.{confirm_run, closed_confirm}
use wasm_hooks.Dialog.Confirm.Laws.{sends, answers, waiting, confirm_run-sends}
use wasm_hooks.Dialog.Config as ConfigDialog
use wasm_hooks.Dialog.Config.{editor_run, first_editor, saved_text}
use wasm_hooks.Dialog.Config.Laws.{IsStored, editor_run-IsStored, saved_text-put_binding}
use wasm_hooks.Queries.{
  tenant_list, Mutation, key_revocation, perform, set_data, is_invalidated, read,
}
use wasm_hooks.Queries.Fresh.{cache-coherent}
use wasm_hooks.Examples.Data.{start, browser, noon}

-- A new tenant, with a second try for the number.
abbrev entry : List TenantDialog.TenantEvent
entry =
    TenantDialog.opened
    ∷ TenantDialog.typed_external_id "merchant-c"
    ∷ TenantDialog.typed_name "Shop C"
    ∷ TenantDialog.typed_rate_limit_rps not_a_number
    ∷ TenantDialog.submitted
    ∷ TenantDialog.typed_rate_limit_rps (integer (pos 5))
    ∷ TenantDialog.submitted
    ∷ []

tenant_run-IsSaved_example : All (IsSaved start noon) (tenant_run none entry (first_state none))
tenant_run-IsSaved_example = tenant_run-IsSaved start noon none tt entry (first_state none)

abbrev spaced : Tenant
spaced = record {
  external_id = "merchant-d ";
  name = "Shop D";
  rate_limit_rps = pos 0;
  concurrency_limit = pos 0;
  created_at = "2026-09-05T09:00:00Z";
  updated_at = "2026-09-05T09:00:00Z";
}

abbrev rename : List TenantDialog.TenantEvent
rename = TenantDialog.opened ∷ TenantDialog.typed_name "D" ∷ TenantDialog.submitted ∷ []

tenant_run-IsUnsent_example :
    All IsUnsent (tenant_run (some spaced) rename (first_state (some spaced)))
unfolding default_inputs form_from_tenant is_space trim
tenant_run-IsUnsent_example =
    tenant_run-IsUnsent spaced refl rename (first_state (some spaced)) refl

-- An activation that is clicked twice, fails, and is clicked again.
abbrev clicks : List ConfirmDialog.ConfirmEvent
clicks =
    ConfirmDialog.opened
    ∷ ConfirmDialog.confirmed
    ∷ ConfirmDialog.confirmed
    ∷ ConfirmDialog.refused (other_error "Failed to fetch")
    ∷ ConfirmDialog.confirmed
    ∷ []

confirm_run-sends_example :
    waiting closed_confirm + sends (confirm_run "mod_01" clicks closed_confirm).1
    ≤ waiting (confirm_run "mod_01" clicks closed_confirm).0 + answers clicks
confirm_run-sends_example = confirm_run-sends "mod_01" clicks closed_confirm

-- A value that is changed, and a row that is added.
abbrev edits : List ConfigDialog.EditorEvent
edits =
    ConfigDialog.typed_value 0 "15"
    ∷ ConfigDialog.appended
    ∷ ConfigDialog.typed_key 2 "currency"
    ∷ ConfigDialog.submitted
    ∷ []

editor_run-IsStored_example :
    All
      (IsStored start "checkout.discount" noon)
      (editor_run text_le edits (first_editor text_le (some seed_binding)))
editor_run-IsStored_example =
    editor_run-IsStored start "checkout.discount" noon refl text_le edits
      (first_editor text_le (some seed_binding))

abbrev doubled : Binding
doubled = record {
  active_module_id = some "mod_02";
  active_module_hash = some (seed_hash "9b7d04f1");
  config = ("threshold", "2000") ∷ [];
  config_version = 8;
  updated_at = "2026-09-25T00:00:00.000Z";
}

saved_text-put_binding_example : saved_text (some seed_binding) doubled ≡ (
    if config_changed (some (("threshold", "2000") ∷ [])) (some seed_binding)
    then concat ("Сохранено. Версия конфига: " ∷ decimal 8 ∷ [])
    else "Изменений нет")
unfolding put_binding lookup stringify to_iso_string
saved_text-put_binding_example =
    saved_text-put_binding start "checkout.discount" noon seed_binding doubled
      (("threshold", "2000") ∷ []) refl refl

abbrev draws : Draws
draws = record { id_bytes = []; token_bytes = [] }

abbrev revoke : Mutation
revoke = key_revocation "key_5f2c9a1e0b7d4c3a"

-- The list of tenants after a revocation of a key.
cache-coherent_example :
    let after = (perform browser revoke draws noon start).1 in
    (is_invalidated revoke tenant_list ≡ true)
    ⊎ (((v : Json) × (set_data browser revoke noon start ≡ some (tenant_list, v))
          × (read browser tenant_list noon after ≡ (200, some v)))
        ⊎ (read browser tenant_list noon after ≡ read browser tenant_list noon start))
unfolding perform revoke_api_key
cache-coherent_example =
    cache-coherent browser draws noon noon start revoke tenant_list refl refl refl
