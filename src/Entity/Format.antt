-- ===== src/Entity/Format.antt =====
-- web/src/shared/lib/format.ts, less what formats dates and fractions, and web/src/entities/module/model/labels.ts.
use wasm_hooks.Common.{ℕ, zero, suc, String, Option, none, some}
use wasm_hooks.Text.{strip}
use wasm_hooks.Entity.Module.{
  ModuleStatus, uploaded, validating, validated, rejected, archived, CheckName, fetch, compile,
  exports, imports, sample_call, ValidationCheck,
}

-- `s.slice(0, n)` of a text without letters beyond U+FFFF.
pub front : ℕ → String → String
front zero s = ""
front (suc n) String.[] = ""
front (suc n) (String.◌∷◌ c s) = String.◌∷◌ c (front n s)

without_prefix : Option String → String → String
without_prefix none hash = hash
without_prefix (some rest) hash = rest

-- `shortHash`
unfoldable pub short_hash : String → String
unfolding front without_prefix strip
short_hash hash = front 12 (without_prefix (strip "sha256:" hash) hash)

-- `moduleStatusLabels`
abbrev pub module_status_label : ModuleStatus → String
module_status_label uploaded = "Загружен"
module_status_label validating = "Проверяется"
module_status_label validated = "Проверка пройдена"
module_status_label rejected = "Отклонён"
module_status_label archived = "В архиве"

pub record CheckFailure : Type 0 where
  pub title : String
  pub hint : String

-- `checkFailures`
abbrev pub check_failure : CheckName → CheckFailure
check_failure fetch = record {
  title = "файл не удалось получить";
  hint = "Платформа не смогла прочитать загруженный файл. Загрузите его ещё раз.";
}
check_failure compile = record {
  title = "модуль не компилируется";
  hint =
      "Проверьте, что это скомпилированный WebAssembly-модуль, пересоберите .wasm и загрузите снова.";
}
check_failure exports = record {
  title = "нет функции обработчика";
  hint =
      "Модуль должен экспортировать функцию обработчика хука. Пересоберите .wasm и загрузите снова.";
}
check_failure imports = record {
  title = "запрещённая возможность";
  hint = "Уберите вызов, который хук не разрешает, пересоберите .wasm и загрузите снова.";
}
check_failure sample_call = record {
  title = "пробный вызов не прошёл";
  hint =
      "На примере входа обработчик упал или вернул ответ не по схеме выхода. Исправьте и загрузите снова.";
}

-- `describeCheckFailure`
abbrev pub describe_check_failure : ValidationCheck → CheckFailure
describe_check_failure check = check_failure check.name
