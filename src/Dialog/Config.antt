-- ===== src/Dialog/Config.antt =====
-- web/src/features/edit-binding-config/ui/binding-config-editor.tsx: the editor of the configuration of a binding. What
-- react-hook-form documents is written out: a submit checks the rows and sends only rows without a complaint; after a
-- first submit the rows are checked again when they change.
pub mod Laws
use wasm_hooks.Common.{
  ℕ, zero, suc, ◌+◌, nat_eq, String, Bool, true, false, not, ◌&&◌, List, [], ◌∷◌, ◌++◌, Option,
  none, some, is_some, get_or_else, if◌then◌else◌, ◌==◌,
}
use wasm_hooks.Text.{concat, decimal}
use wasm_hooks.Api.Client.{Thrown}
use wasm_hooks.Entity.Hook.{Binding}
use wasm_hooks.Form.Config.{
  BindingConfig, Row, Issue, config_issues, form_from_config, config_from_form, same_config,
}
use wasm_hooks.Gate.Errors.{describe_error}
use wasm_hooks.Dialog.Confirm.{Sending, unsent, pending, succeeded, failed, is_pending}
use wasm_hooks.Dialog.Shown.{Button, button}

-- The state, with the binding that the parent gives; `compared` is the binding at the time of the last submit, which
-- `onSubmit` still sees when the answer comes; `defaults` are the rows of the last `reset`.
pub record EditorState : Type 0 where
  pub binding : Option Binding
  pub compared : Option Binding
  pub defaults : List Row
  pub rows : List Row
  pub issues : List Issue
  pub was_submitted : Bool
  pub notice : Option String
  pub save : Sending

-- `given` is a new binding of the parent.
pub data EditorEvent : Type 0 where
  typed_key typed_value : (index : ℕ) → String → EditorEvent
  removed : (index : ℕ) → EditorEvent
  appended submitted : EditorEvent
  given : Option Binding → EditorEvent
  saved : Binding → EditorEvent
  refused : Thrown → EditorEvent

abbrev pub config_of : Option Binding → Option BindingConfig
config_of none = none
config_of (some b) = some b.config

-- `binding?.config ?? {}`
abbrev pub current_config : EditorState → BindingConfig
current_config s = get_or_else (config_of s.binding) []

-- The row at an index, changed.
abbrev pub change_row : ℕ → (Row → Row) → List Row → List Row
change_row index f [] = []
change_row zero f (r ∷ rows) = f r ∷ rows
change_row (suc n) f (r ∷ rows) = r ∷ change_row n f rows

abbrev pub remove_row : ℕ → List Row → List Row
remove_row index [] = []
remove_row zero (r ∷ rows) = rows
remove_row (suc n) (r ∷ rows) = r ∷ remove_row n rows

abbrev pub blank_row : Row
blank_row = record { key = ""; value = "" }

-- The rows change.
with_rows : List Row → EditorState → EditorState
unfolding config_issues
with_rows rows s = record s {
  rows = rows;
  issues = if s.was_submitted then config_issues rows else s.issues;
}

-- `reset`; the end of the submit that it belongs to marks the form as submitted.
abbrev pub reset : List Row → EditorState → EditorState
reset rows s = record s { defaults = rows; rows = rows; issues = [] }

abbrev pub same_rows : List Row → List Row → Bool
same_rows [] [] = true
same_rows (a ∷ rows) (b ∷ others) = (a.key == b.key && a.value == b.value) && same_rows rows others
same_rows _ _ = false

-- `formState.isDirty`
abbrev pub is_dirty : EditorState → Bool
is_dirty s = not (same_rows s.rows s.defaults)

unfoldable pub saved_text : Option Binding → Binding → String
unfolding decimal
saved_text none b = concat ("Сохранено. Версия конфига: " ∷ decimal b.config_version ∷ [])
saved_text (some old) b =
    if nat_eq b.config_version old.config_version
    then "Изменений нет"
    else concat ("Сохранено. Версия конфига: " ∷ decimal b.config_version ∷ [])

module _ (collate : String → String → Bool) where
  -- The first state, for a binding.
  abbrev pub first_editor : Option Binding → EditorState
  unfolding form_from_config
  first_editor binding = record {
    binding = binding;
    compared = none;
    defaults = form_from_config collate (config_of binding);
    rows = form_from_config collate (config_of binding);
    issues = [];
    was_submitted = false;
    notice = none;
    save = unsent;
  }

  -- `onSubmit`, up to an answer: the state, and the configuration that is sent.
  unfoldable pub on_submit : EditorState → EditorState × Option BindingConfig
  unfolding config_from_form same_config form_from_config
  on_submit s =
      let config = config_from_form s.rows in
      if same_config config (current_config s)
      then (
        record (reset (form_from_config collate (some (current_config s))) s) {
          was_submitted = true;
          notice = some "Изменений нет";
          save = unsent;
        },
        none,
      )
      else (
        record s {
          compared = s.binding;
          issues = [];
          was_submitted = true;
          notice = none;
          save = pending;
        },
        some config,
      )

  -- `handleSubmit(onSubmit)`
  unfoldable pub submit_checked : List Issue → EditorState → EditorState × Option BindingConfig
  unfolding on_submit
  submit_checked [] s = on_submit s
  submit_checked (i ∷ issues) s = (record s { issues = i ∷ issues; was_submitted = true }, none)

  -- The rest of `onSubmit`, after an answer.
  unfoldable pub on_saved : Binding → EditorState → EditorState
  unfolding form_from_config saved_text
  on_saved b s = record (reset (form_from_config collate (some b.config)) s) {
    notice = some (saved_text s.compared b);
    save = succeeded;
  }

  -- One event, and the configuration that it sends: the button is disabled while a submit runs.
  unfoldable pub editor_step : EditorEvent → EditorState → EditorState × Option BindingConfig
  unfolding submit_checked on_saved config_issues with_rows
  editor_step (typed_key index key) s =
      (with_rows (change_row index (λ r. record r { key = key }) s.rows) s, none)
  editor_step (typed_value index value) s =
      (with_rows (change_row index (λ r. record r { value = value }) s.rows) s, none)
  editor_step (removed index) s = (with_rows (remove_row index s.rows) s, none)
  editor_step appended s = (with_rows (s.rows ++ blank_row ∷ []) s, none)
  editor_step submitted s =
      let next = submit_checked (config_issues s.rows) s in
      if is_pending s.save then (s, none) else next
  editor_step (given b) s = (record s { binding = b }, none)
  editor_step (saved b) s = let next = on_saved b s in (if is_pending s.save then next else s, none)
  editor_step (refused e) s = (if is_pending s.save then record s { save = failed e } else s, none)

  -- The configurations that a history sends.
  unfoldable pub editor_run : List EditorEvent → EditorState → List (Option BindingConfig)
  unfolding editor_step
  editor_run [] s = []
  editor_run (e ∷ es) s = let (next, sent) = editor_step e s in sent ∷ editor_run es next

-- What the editor shows: the rows with their complaints, and the lines under them.
pub record RowView : Type 0 where
  pub key_label : String
  pub value_label : String
  pub remove_label : String
  pub row : Row
  pub complaint : Option String

pub record EditorView : Type 0 where
  pub intro : String
  pub placeholder : Option String
  pub rows : List RowView
  pub save : Button EditorEvent
  pub notice : Option String
  pub alert : Option String

-- The complaint about the row at an index: the first, as the form keeps it.
abbrev issue_at : ℕ → List Issue → Option String
issue_at index [] = none
issue_at index (i ∷ issues) =
    let rest = issue_at index issues in if nat_eq i.index index then some i.message else rest

numbered : String → ℕ → String
unfolding decimal
numbered text index = concat (text ∷ decimal (index + 1) ∷ [])

row_views : ℕ → List Issue → List Row → List RowView
unfolding numbered
row_views index issues [] = []
row_views index issues (r ∷ rows) =
    record {
      key_label = numbered "Ключ " index;
      value_label = numbered "Значение " index;
      remove_label = numbered "Удалить параметр " index;
      row = r;
      complaint = issue_at index issues;
    }
    ∷ row_views (index + 1) issues rows

intro_of : Option Binding → String
unfolding decimal
intro_of none =
    "Скрипт читает их через config_get. Значения — строки: числа вводите как текст, скрипт разберёт их сам. Параметры можно задать до активации версии."
intro_of (some b) = concat (
    "Скрипт читает их через config_get. Значения — строки: числа вводите как текст, скрипт разберёт их сам. Версия конфига: "
    ∷ decimal b.config_version
    ∷ "."
    ∷ [])

failure_of : Sending → Option String
unfolding describe_error
failure_of (failed e) = some (describe_error e)
failure_of _ = none

placeholder_of : List Row → Option String
placeholder_of [] = some "Параметров нет."
placeholder_of (r ∷ rows) = none

-- `BindingConfigEditor`
unfoldable pub editor_view : EditorState → EditorView
unfolding row_views intro_of failure_of placeholder_of
editor_view s = record {
  intro = intro_of s.binding;
  placeholder = placeholder_of s.rows;
  rows = row_views 0 s.issues s.rows;
  save =
      button (if is_pending s.save then "Сохранение…" else "Сохранить параметры")
        (is_pending s.save) submitted;
  notice = if is_dirty s then none else s.notice;
  alert = failure_of s.save;
}
