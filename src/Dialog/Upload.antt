-- ===== src/Dialog/Upload.antt =====
-- web/src/features/upload-module/ui/upload-module-dialog.tsx: the upload of a module.
pub mod Laws
use wasm_hooks.Common.{
  String, Bool, true, false, not, ◌&&◌, ◌||◌, List, [], ◌∷◌, ◌++◌, Option, none, some, is_some,
  if◌then◌else◌,
}
use wasm_hooks.Text.{concat, is_empty}
use wasm_hooks.Api.Client.{Thrown}
use wasm_hooks.Entity.Format.{short_hash}
use wasm_hooks.Gate.Errors.{describe_error}
use wasm_hooks.Mock.Modules.{File}
use wasm_hooks.Upload.{check_wasm_file, is_upload_unconfirmed}
use wasm_hooks.Dialog.Shown.{Button, DialogView, button}

pub record UploadProps : Type 0 where
  pub hook : String
  pub active_hash : Option String

pub data UploadStep : Type 0 where
  pick picked unconfirmed : UploadStep

-- The state, with `open`, which the parent keeps, and `upload.isPending`.
pub record UploadState : Type 0 where
  pub is_open : Bool
  pub step : UploadStep
  pub file : Option File
  pub error : Option String
  pub is_pending : Bool

-- What happens: the parent opens the dialog; the dialog is asked to close; a file is chosen, or none; the buttons; the
-- end of the upload.
pub data UploadEvent : Type 0 where
  opened closed choose_file submitted back : UploadEvent
  chosen : Option File → UploadEvent
  uploaded : UploadEvent
  refused : Thrown → UploadEvent

abbrev pub closed_dialog : UploadState
closed_dialog = record {
  is_open = false;
  step = pick;
  file = none;
  error = none;
  is_pending = false;
}

-- `reset`
abbrev pub reset : UploadState → UploadState
reset s = record closed_dialog { is_open = s.is_open }

-- `changeOpen`
unfoldable pub change_open : Bool → UploadState → UploadState
change_open next s =
    if s.is_pending then s else if next then record s { is_open = true } else closed_dialog

pub checked : Option String → File → UploadState → UploadState
checked none f s = record s { file = some f; error = none; step = picked }
checked (some problem) f s = record s { file = none; error = some problem; step = pick }

-- `onFileChosen`
unfoldable pub on_file_chosen : Option File → UploadState → UploadState
unfolding checked check_wasm_file
on_file_chosen none s = s
on_file_chosen (some f) s = checked (check_wasm_file f) f s

pub start : Option File → UploadState → UploadState
start none s = s
start (some f) s = record s { error = none; is_pending = true }

-- `submit`: the state, and the file that is sent.
unfoldable pub submit : UploadState → UploadState × Option File
unfolding start
submit s = (start s.file s, s.file)

-- `onError`
unfoldable pub on_error : Thrown → UploadState → UploadState
unfolding is_upload_unconfirmed describe_error
on_error e s =
    if is_upload_unconfirmed e
    then record s { step = unconfirmed; is_pending = false }
    else record s { error = some (describe_error e); is_pending = false }

active_text : String → Option String → String → String
active_text before none after = ""
active_text before (some hash) after =
    if is_empty hash then "" else concat (before ∷ short_hash hash ∷ after ∷ [])

pub pick_view : UploadProps → UploadState → DialogView UploadEvent
unfolding active_text short_hash
pick_view p s = record {
  title = "Загрузить модуль";
  paragraphs =
      concat ("Хук: " ∷ p.hook ∷ [])
      ∷ concat (
          "Выберите скомпилированный файл .wasm. После загрузки начнётся проверка."
          ∷ active_text " Текущая версия " p.active_hash " продолжит работать."
          ∷ [])
      ∷ [];
  alert = s.error;
  buttons = button "Отмена" false closed ∷ button "Выбрать файл" false choose_file ∷ [];
}

send_button : UploadState → Button UploadEvent
send_button s =
    if is_some s.error
    then button "Выбрать другой файл" false choose_file
    else button (if s.is_pending then "Загрузка…" else "Загрузить и проверить") s.is_pending
        submitted

pub picked_view : UploadProps → File → UploadState → DialogView UploadEvent
unfolding active_text send_button short_hash
picked_view p f s = record {
  title = "Файл выбран";
  paragraphs =
      concat ("Хук: " ∷ p.hook ∷ [])
      ∷ concat ("Файл: " ∷ f.file_name ∷ [])
      ∷ concat (
          "После загрузки начнётся проверка."
          ∷ active_text " Версия " p.active_hash " продолжит работать до вашей команды активации."
          ∷ [])
      ∷ [];
  alert = s.error;
  buttons = button "Отмена" s.is_pending closed ∷ send_button s ∷ [];
}

abbrev pub unconfirmed_view : DialogView UploadEvent
unconfirmed_view = record {
  title = "Не удалось подтвердить загрузку";
  paragraphs =
      "Ответ сервера не получен. Файл мог загрузиться — проверьте список версий перед повторной попыткой."
      ∷ "Активная версия не изменилась." ∷ [];
  alert = none;
  buttons = button "К версиям" false back ∷ [];
}

pub step_view :
    UploadProps → UploadStep → Option File → UploadState → Option (DialogView UploadEvent)
unfolding pick_view picked_view
step_view p pick file s = some (pick_view p s)
step_view p picked none s = none
step_view p picked (some f) s = some (picked_view p f s)
step_view p unconfirmed file s = some unconfirmed_view

-- What is shown: nothing while the dialog is closed.
unfoldable pub upload_view : UploadProps → UploadState → Option (DialogView UploadEvent)
unfolding step_view
upload_view p s = let shown = step_view p s.step s.file s in if s.is_open then shown else none

abbrev pub is_picked : UploadStep → Bool
is_picked picked = true
is_picked pick = false
is_picked unconfirmed = false

-- Whether the button that sends is there and enabled.
unfoldable pub can_submit : UploadState → Bool
can_submit s =
    s.is_open && is_picked s.step && is_some s.file && not (is_some s.error) && not s.is_pending

-- One event, and the file that it sends. An answer comes only to an upload that is pending, and a file is sent
-- only by the button. The input for a file is there in every step, and its check may end in any: `chosen` is the end.
unfoldable pub upload_step : UploadEvent → UploadState → UploadState × Option File
unfolding change_open on_file_chosen submit on_error can_submit
upload_step opened s = (change_open true s, none)
upload_step closed s = (change_open false s, none)
upload_step back s = (change_open false s, none)
upload_step choose_file s = (s, none)
upload_step (chosen f) s = (on_file_chosen f s, none)
upload_step submitted s = let next = submit s in if can_submit s then next else (s, none)
upload_step uploaded s = (if s.is_pending then closed_dialog else s, none)
upload_step (refused e) s = let next = on_error e s in (if s.is_pending then next else s, none)

-- The files that a history sends, and the state that it leaves.
unfoldable pub upload_run : List UploadEvent → UploadState → UploadState × List (Option File)
unfolding upload_step
upload_run [] s = (s, [])
upload_run (e ∷ es) s =
    let (next, sent) = upload_step e s in
    let (last, more) = upload_run es next in (last, sent ∷ more)
