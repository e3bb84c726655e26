-- ===== src/Dialog/Confirm.antt =====
-- The dialogs that ask before they send: web/src/features/activate-module/ui/activate-module-dialog.tsx and
-- web/src/features/revoke-api-key/ui/revoke-api-key-dialog.tsx, which have the same state and handlers. The queries that
-- are fetched again after a success are part of the answer.
pub mod Laws
use wasm_hooks.Common.{
  ℕ, String, Bool, true, false, not, ◌&&◌, List, [], ◌∷◌, Option, none, some, is_some,
  if◌then◌else◌,
}
use wasm_hooks.Text.{concat, is_empty}
use wasm_hooks.Api.Client.{Thrown}
use wasm_hooks.Entity.ApiKey.{ApiKey}
use wasm_hooks.Entity.Format.{short_hash}
use wasm_hooks.Entity.Module.{Module}
use wasm_hooks.Gate.Errors.{describe_error}
use wasm_hooks.Dialog.Shown.{DialogView, button}

-- Where the mutation is.
pub data Sending : Type 0 where
  unsent pending succeeded : Sending
  failed : Thrown → Sending

pub record ConfirmState : Type 0 where
  pub is_open : Bool
  pub sending : Sending

pub data ConfirmEvent : Type 0 where
  opened closed confirmed answered : ConfirmEvent
  refused : Thrown → ConfirmEvent

abbrev pub is_pending : Sending → Bool
is_pending pending = true
is_pending _ = false

abbrev pub closed_confirm : ConfirmState
closed_confirm = record { is_open = false; sending = unsent }

-- `changeOpen`
unfoldable pub change_open : Bool → ConfirmState → ConfirmState
change_open next s =
    if is_pending s.sending
    then s
    else if next
    then record s { is_open = true }
    else record { is_open = false; sending = unsent }

-- Whether the button that sends is there and enabled.
unfoldable pub can_confirm : ConfirmState → Bool
can_confirm s = s.is_open && not (is_pending s.sending)

-- One event, and the identifier that it sends: that of the module or of the key.
unfoldable pub confirm_step : String → ConfirmEvent → ConfirmState → ConfirmState × Option String
unfolding change_open can_confirm
confirm_step id opened s = (change_open true s, none)
confirm_step id closed s = (change_open false s, none)
confirm_step id confirmed s =
    if can_confirm s then (record s { sending = pending }, some id) else (s, none)
confirm_step id answered s =
    (if is_pending s.sending then record { is_open = false; sending = succeeded } else s, none)
confirm_step id (refused e) s =
    (if is_pending s.sending then record s { sending = failed e } else s, none)

-- The identifiers that a history sends, and the state that it leaves.
unfoldable pub confirm_run :
    String → List ConfirmEvent → ConfirmState → ConfirmState × List (Option String)
unfolding confirm_step
confirm_run id [] s = (s, [])
confirm_run id (e ∷ es) s =
    let (next, sent) = confirm_step id e s in
    let (last, more) = confirm_run id es next in (last, sent ∷ more)

alert_of : Sending → Option String
unfolding describe_error
alert_of (failed e) = some (describe_error e)
alert_of _ = none

-- A hash that counts as true.
abbrev current_of : Option String → Option String
current_of none = none
current_of (some hash) = if is_empty hash then none else some (short_hash hash)

instead_of : Option String → String
instead_of none = "."
instead_of (some current) = concat (" вместо " ∷ current ∷ "." ∷ [])

keeps_text : Option String → String
keeps_text none = ""
keeps_text (some current) = " Предыдущая версия останется в списке."

activation_content : String → Module → Option String → ConfirmState → DialogView ConfirmEvent
unfolding alert_of instead_of keeps_text short_hash
activation_content hook m active_hash s = record {
  title = concat ("Активировать " ∷ short_hash m.content_hash ∷ "?" ∷ []);
  paragraphs =
      concat (
        "Для "
        ∷ hook
        ∷ " будет выбрана версия "
        ∷ short_hash m.content_hash
        ∷ instead_of (current_of active_hash)
        ∷ [])
      ∷ concat (
          "Обновление исполнителей может занять некоторое время."
          ∷ keeps_text (current_of active_hash)
          ∷ [])
      ∷ [];
  alert = alert_of s.sending;
  buttons =
      button "Отмена" (is_pending s.sending) closed
      ∷ button (if is_pending s.sending then "Активация…" else "Активировать")
          (is_pending s.sending) confirmed
      ∷ [];
}

-- `ActivateModuleDialog`: what is shown beside the trigger.
unfoldable pub activation_view :
    String → Module → Option String → ConfirmState → Option (DialogView ConfirmEvent)
unfolding activation_content
activation_view hook m active_hash s =
    let shown = activation_content hook m active_hash s in if s.is_open then some shown else none

revocation_content : ApiKey → ConfirmState → DialogView ConfirmEvent
unfolding alert_of
revocation_content k s = record {
  title = concat ("Отозвать ключ " ∷ k.name ∷ "?" ∷ []);
  paragraphs =
      "Запросы с этим ключом сразу начнут получать 401: и к API оператора, и вызовы хуков через data plane. Вернуть ключ нельзя, только выпустить новый."
      ∷ "Если вы вошли в консоль этим ключом, консоль попросит войти заново." ∷ [];
  alert = alert_of s.sending;
  buttons =
      button "Отмена" (is_pending s.sending) closed
      ∷ button (if is_pending s.sending then "Отзываем…" else "Отозвать") (is_pending s.sending)
          confirmed
      ∷ [];
}

-- `RevokeApiKeyDialog`
unfoldable pub revocation_view : ApiKey → ConfirmState → Option (DialogView ConfirmEvent)
unfolding revocation_content
revocation_view k s = let shown = revocation_content k s in if s.is_open then some shown else none
