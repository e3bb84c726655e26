-- ===== src/Examples/Config.antt =====
-- The rows of a configuration's form.
use wasm_hooks.Common.{◌≡◌, refl, String, [], ◌∷◌, some}
use wasm_hooks.Text.{trim}
use wasm_hooks.Json.{lookup}
use wasm_hooks.Form.Config.{
  Row, is_blank, config_issues, config_from_form, form_from_config, same_config, BindingConfig,
}
use wasm_hooks.Form.Config.Reopen.{same_config-form_from_config}
use wasm_hooks.Form.Config.Rows.{config_from_form-lookup}
use wasm_hooks.Text.{text_le}
use wasm_hooks.Common.{true, distinct}

abbrev row : String → String → Row
row key value = record { key = key; value = value }

config_from_form-lookup_example :
    lookup "percent"
      (config_from_form (row "threshold " "1000" ∷ row "" "" ∷ row " percent" "10" ∷ []))
    ≡ some "10"
unfolding config_issues is_blank trim
config_from_form-lookup_example =
    config_from_form-lookup (row "threshold " "1000" ∷ row "" "" ∷ []) [] (row " percent" "10") refl
      refl

abbrev discount : BindingConfig
discount = ("threshold", "1000") ∷ ("percent", "10") ∷ []

same_config-form_from_config_example :
    same_config discount (config_from_form (form_from_config text_le (some discount))) ≡ true
unfolding trim
same_config-form_from_config_example =
    same_config-form_from_config text_le discount ((distinct _ _ refl, tt), (tt, tt))
      ((refl, refl), ((refl, refl), tt))
