-- ===== src/Versions.antt =====
-- web/src/widgets/module-versions/ui/module-versions.tsx: the versions of a hook's module, what may be done with each,
-- and the panel that says what to do next. The texts and buttons are modelled, without classes.
pub mod Laws
use wasm_hooks.Common.{
  ◌==◌, String, Bool, true, false, not, ◌&&◌, List, [], ◌∷◌, ◌++◌, map, find, Option, none, some,
  get_or_else, sort, if◌then◌else◌,
}
use wasm_hooks.Text.{concat, is_empty}
use wasm_hooks.Api.Client.{Thrown}
use wasm_hooks.Entity.Format.{short_hash, module_status_label, CheckFailure, describe_check_failure}
use wasm_hooks.Entity.Module.{
  Module, ModuleStatus, uploaded, validating, validated, rejected, archived, status_is, is_pending,
  ValidationCheck, first_failed_check,
}
use wasm_hooks.Entity.Hook.{Binding}
use wasm_hooks.Mock.Bindings.{active_id, active_hash}

pub data FocusKind : Type 0 where
  on_activated on_rejected : FocusKind

-- `Focus`, where it is not null.
pub record Focus : Type 0 where
  pub kind : FocusKind
  pub id : String

-- `newestFirst`; `collate a b` is whether `a.localeCompare(b) <= 0`.
unfoldable pub newest_first : (String → String → Bool) → List Module → List Module
newest_first collate = sort (λ a b. collate b.uploaded_at a.uploaded_at)

pub data PanelState : Type 0 where
  saved checking ready rejected_panel : Module → PanelState
  idle : PanelState

-- `m.id === activeId`
abbrev pub is_active : Option String → Module → Bool
is_active none m = false
is_active (some id) m = m.id == id

-- The panel without a focus, by the latest version.
pub latest_panel : List Module → Option String → PanelState
unfolding is_pending
latest_panel [] active = idle
latest_panel (latest ∷ modules) active =
    if is_pending latest.status
    then checking latest
    else if status_is latest.status rejected
    then rejected_panel latest
    else if status_is latest.status validated && not (is_active active latest)
    then ready latest
    else idle

pub focused_panel : List Module → Option String → FocusKind → Option Module → PanelState
unfolding latest_panel
focused_panel modules active kind none = latest_panel modules active
focused_panel modules active on_activated (some m) =
    let other = latest_panel modules active in if is_active active m then saved m else other
focused_panel modules active on_rejected (some m) = rejected_panel m

-- `panelState`
unfoldable pub panel_state : List Module → Option String → Option Focus → PanelState
unfolding focused_panel latest_panel
panel_state modules active none = latest_panel modules active
panel_state modules active (some focus) =
    focused_panel modules active focus.kind (find (λ m. m.id == focus.id) modules)

-- `explainedId`
unfoldable pub explained_id : PanelState → Option String
explained_id (rejected_panel m) = some m.id
explained_id _ = none

-- What a row offers: a dash, the dialog of activation, a note, or the button that shows the reason.
pub data Action : Type 0 where
  dash : Action
  activation : Module → Action
  reason_below : Action
  show_reason : Focus → Action

-- `action`
unfoldable pub action : Option String → Option String → Module → Action
action active explained m =
    if is_active active m
    then dash
    else if status_is m.status validated
    then activation m
    else if status_is m.status rejected
    then (if is_active explained m
        then reason_below
        else show_reason (record { kind = on_rejected; id = m.id }))
    else dash

-- A panel: its title, its texts, and the text of the button that opens the upload.
pub record InfoPanel : Type 0 where
  pub is_status : Bool
  pub title : String
  pub paragraphs : List String
  pub upload : Option String

failure_of : Option ValidationCheck → Option CheckFailure
failure_of none = none
failure_of (some check) = some (describe_check_failure check)

rejected_title : Option CheckFailure → String
rejected_title none = "Модуль отклонён"
rejected_title (some f) = concat ("Модуль отклонён: " ∷ f.title ∷ [])

hints : Option CheckFailure → List String
hints none = []
hints (some f) = f.hint ∷ []

detail_of : Option String → String
detail_of none = ""
detail_of (some d) = if is_empty d then "" else concat (": " ∷ d ∷ [])

failed_detail : Option ValidationCheck → String
failed_detail none = ""
failed_detail (some check) = detail_of check.detail

-- `RejectedPanel`
unfoldable pub rejected_info : Module → InfoPanel
unfolding failure_of rejected_title hints failed_detail detail_of first_failed_check short_hash
rejected_info m =
    let failed = first_failed_check m in
    record {
      is_status = true;
      title = rejected_title (failure_of failed);
      paragraphs =
          concat (short_hash m.content_hash ∷ failed_detail failed ∷ [])
          ∷ (hints (failure_of failed) ++ "Активная версия не изменилась." ∷ []);
      upload = some "Загрузить исправленный файл";
    }

-- `StatusPanel`
unfoldable pub status_panel : PanelState → InfoPanel
unfolding rejected_info short_hash
status_panel (saved m) = record {
  is_status = true;
  title = "Активная версия сохранена";
  paragraphs =
      concat (
        "Выбрана версия "
        ∷ short_hash m.content_hash
        ∷ ". Обновление исполнителей может занять некоторое время. Активация не запускает обработчик."
        ∷ [])
      ∷ [];
  upload = none;
}
status_panel (checking m) = record {
  is_status = true;
  title = concat ("Проверяем модуль " ∷ short_hash m.content_hash ∷ []);
  paragraphs =
      "Проверяем модуль и выполняем пробный вызов. Активировать можно после успешной проверки. Текущая активная версия не меняется."
      ∷ [];
  upload = none;
}
status_panel (rejected_panel m) = rejected_info m
status_panel (ready m) = record {
  is_status = true;
  title = "Модуль готов к активации";
  paragraphs =
      "Проверка пройдена на примере входа. Это не гарантирует работу на всех данных. Версия ещё не активна."
      ∷ [];
  upload = none;
}
status_panel idle = record {
  is_status = false;
  title = "Новая версия не включается автоматически";
  paragraphs = "После загрузки модуль проходит проверку. Вы сами выбираете момент активации." ∷ [];
  upload = none;
}

-- What the query of the versions has given: it may keep data beside an error.
pub record Listing : Type 0 where
  pub is_loading : Bool
  pub error : Option Thrown
  pub data_given : Option (List Module)

pub record VersionRow : Type 0 where
  pub full_hash : String
  pub hash : String
  pub status : String
  pub usage : String
  pub offer : Action

pub data VersionTable : Type 0 where
  loading_rows no_versions : VersionTable
  error_state : Thrown → VersionTable
  rows : List VersionRow → VersionTable

version_row : Option String → Option String → Module → VersionRow
unfolding action short_hash
version_row active explained m = record {
  full_hash = m.content_hash;
  hash = short_hash m.content_hash;
  status = module_status_label m.status;
  usage = if is_active active m then "Активна" else "Не активна";
  offer = action active explained m;
}

table_of : Option String → Option String → List Module → VersionTable
unfolding version_row
table_of active explained [] = no_versions
table_of active explained (m ∷ ms) = rows (map (version_row active explained) (m ∷ ms))

shown_table : Bool → Option Thrown → VersionTable → VersionTable
shown_table true error table = loading_rows
shown_table false (some e) table = error_state e
shown_table false none table = table

panel_of : Option (List Module) → PanelState → Option InfoPanel
unfolding status_panel
panel_of none panel = none
panel_of (some ms) panel = some (status_panel panel)

-- `ModuleVersions`: the table, and the panel where there is data.
unfoldable pub module_versions :
    (String → String → Bool)
    → Option Binding
    → Option Focus
    → Listing
    → VersionTable × Option InfoPanel
unfolding table_of shown_table panel_of newest_first panel_state explained_id
module_versions collate binding focus listing =
    let modules = newest_first collate (get_or_else listing.data_given []) in
    let panel = panel_state modules (active_id binding) focus in
    (
      shown_table listing.is_loading listing.error
          (table_of (active_id binding) (explained_id panel) modules),
      panel_of listing.data_given panel,
    )
