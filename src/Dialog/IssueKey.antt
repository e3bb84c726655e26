-- ===== src/Dialog/IssueKey.antt =====
-- web/src/features/issue-api-key/ui/issue-api-key-dialog.tsx: the issue of an installation key, whose token is shown once.
pub mod Laws
use wasm_hooks.Common.{
  ℕ, ltb, String, Bool, true, false, not, ◌&&◌, List, [], ◌∷◌, Option, none, some, is_some,
  if◌then◌else◌,
}
use wasm_hooks.Text.{concat, decimal, is_empty, trim, utf16_length}
use wasm_hooks.Api.Client.{Thrown, api_error, other_error}
use wasm_hooks.Entity.ApiKey.{ApiKeyCreated, key_name_max}
use wasm_hooks.Gate.Errors.{describe_error, is_status}
use wasm_hooks.Dialog.Shown.{DialogView, button}

-- `nameError`
unfoldable pub name_error : String → Option String
unfolding utf16_length decimal
name_error name =
    if is_empty name
    then some "Укажите имя ключа"
    else if ltb key_name_max (utf16_length name)
    then some (concat ("Не длиннее " ∷ decimal key_name_max ∷ " символов" ∷ []))
    else none

-- `useIssueApiKey`: where the mutation is.
pub data Issuance : Type 0 where
  unsent pending : Issuance
  failed : Thrown → Issuance
  issued : ApiKeyCreated → Issuance

-- The state, with that of `IssuedToken`.
pub record IssueState : Type 0 where
  pub is_open : Bool
  pub name : String
  pub field_error : Option String
  pub issue : Issuance
  pub copied : Option Bool

pub data IssueEvent : Type 0 where
  opened closed submitted copy_asked : IssueEvent
  typed : String → IssueEvent
  answered : ApiKeyCreated → IssueEvent
  refused : Thrown → IssueEvent
  copy_ended : Bool → IssueEvent

abbrev pub is_pending : Issuance → Bool
is_pending pending = true
is_pending _ = false

abbrev pub is_issued : Issuance → Bool
is_issued (issued k) = true
is_issued _ = false

-- `changeOpen`
unfoldable pub change_open : Bool → IssueState → IssueState
change_open next s =
    if is_pending s.issue
    then s
    else if next
    then record { is_open = true; name = ""; field_error = none; issue = unsent; copied = none }
    else record s { is_open = false; copied = none }

pub checked_submit : String → Option String → IssueState → IssueState × Option String
checked_submit trimmed (some invalid) s = (record s { field_error = some invalid }, none)
checked_submit trimmed none s = (record s { field_error = none; issue = pending }, some trimmed)

-- `submit`: the state, and the name that is sent.
unfoldable pub submit : IssueState → IssueState × Option String
unfolding checked_submit name_error trim
submit s = checked_submit (trim s.name) (name_error (trim s.name)) s

conflict_text : Thrown → Option String → Option String
conflict_text (api_error status message detail) old =
    if is_status 409 (api_error status message detail) then some message else old
conflict_text (other_error message) old = old

-- `onError`
unfoldable pub on_refused : Thrown → IssueState → IssueState
unfolding conflict_text
on_refused e s = record s { field_error = conflict_text e s.field_error; issue = failed e }

-- `issue.isError && !conflict`
alert_of : Issuance → Option String
unfolding describe_error
alert_of (failed e) = if is_status 409 e then none else some (describe_error e)
alert_of _ = none

copy_alert : Option Bool → Option String
copy_alert (some false) = some "Не удалось скопировать. Выделите токен и скопируйте вручную."
copy_alert _ = none

copy_text : Option Bool → String
copy_text (some true) = "Скопировано"
copy_text _ = "Скопировать"

-- `IssuedToken`
unfoldable pub issued_view : ApiKeyCreated → Option Bool → DialogView IssueEvent
unfolding copy_alert copy_text
issued_view k copied = record {
  title = concat ("Ключ " ∷ k.name ∷ " выпущен" ∷ []);
  paragraphs =
      "Скопируйте токен сейчас: больше его не покажут. Если он потеряется, выпустите новый ключ, а этот отзовите."
      ∷ k.token ∷ [];
  alert = copy_alert copied;
  buttons = button (copy_text copied) false copy_asked ∷ button "Готово" false closed ∷ [];
}

-- The text under the input.
hint : Option String → String
hint none = "Например shop-backend: по имени видно, где ключ используется."
hint (some e) = e

unfoldable pub form_view : IssueState → DialogView IssueEvent
unfolding alert_of hint
form_view s = record {
  title = "Новый ключ установки";
  paragraphs =
      "Ключ даёт полный доступ к API оператора и к вызовам хуков. Токен покажем один раз."
      ∷ "Имя ключа"
      ∷ hint s.field_error
      ∷ [];
  alert = alert_of s.issue;
  buttons =
      button "Отмена" (is_pending s.issue) closed
      ∷ button (if is_pending s.issue then "Выпускаем…" else "Выпустить") (is_pending s.issue)
          submitted
      ∷ [];
}

pub content_view : Issuance → IssueState → DialogView IssueEvent
unfolding issued_view form_view
content_view (issued k) s = issued_view k s.copied
content_view _ s = form_view s

-- What is shown beside the button "Выпустить ключ": nothing while the dialog is closed.
unfoldable pub issue_view : IssueState → Option (DialogView IssueEvent)
unfolding content_view
issue_view s = let shown = content_view s.issue s in if s.is_open then some shown else none

-- Whether the form is there with its button enabled.
unfoldable pub can_issue : IssueState → Bool
can_issue s = s.is_open && not (is_pending s.issue) && not (is_issued s.issue)

-- One event, and the name that it sends.
unfoldable pub issue_step : IssueEvent → IssueState → IssueState × Option String
unfolding change_open submit on_refused can_issue
issue_step opened s = (change_open true s, none)
issue_step closed s = (change_open false s, none)
issue_step (typed text) s = (record s { name = text; field_error = none }, none)
issue_step submitted s = let next = submit s in if can_issue s then next else (s, none)
issue_step (answered k) s = (if is_pending s.issue then record s { issue = issued k } else s, none)
issue_step (refused e) s =
    let next = on_refused e s in (if is_pending s.issue then next else s, none)
issue_step copy_asked s = (s, none)
issue_step (copy_ended ok) s =
    (if is_issued s.issue then record s { copied = some ok } else s, none)

-- The names that a history sends.
unfoldable pub issue_run : List IssueEvent → IssueState → List (Option String)
unfolding issue_step
issue_run [] s = []
issue_run (e ∷ es) s = let (next, sent) = issue_step e s in sent ∷ issue_run es next
