-- ===== src/Api/Session.antt =====
-- web/src/shared/api/session.ts: one token for each console, in the browser's session storage. The listeners, which
-- are told of a change and take no part in it, are not modelled.
pub mod Laws
use text.Mathlib.Text.{starts_with}
use wasm_hooks.Common.{◌≡◌, String, Bool, false, ◌||◌, Option, none, some, if◌then◌else◌, ◌==◌}
use wasm_hooks.Text.{is_empty}

pub data ConsoleKind : Type 0 where
  operator tenant : ConsoleKind

-- `storageKeys`
unfoldable pub storage_key : ConsoleKind → String
storage_key operator = "wasmhooks.operator.key"
storage_key tenant = "wasmhooks.tenant.token"

-- `consoleForPath`
unfoldable pub console_for_path : String → ConsoleKind
console_for_path path =
    if path == "/tenant" || starts_with "/tenant/" path then tenant else operator

-- `sessionStorage` of a browser, as operations on its state,
pub record Storage (S : Type 0) : Type 0 where
  pub get_item : String → S → Option String
  pub set_item : String → String → S → S
  pub remove_item : String → S → S

-- and what the Storage standard says of them.
pub record StorageLaws {S : Type 0} (storage : Storage S) : Type 0 where
  pub get-set : (k v : String) (s : S) → storage.get_item k (storage.set_item k v s) ≡ some v
  pub get-set_other :
      (k j v : String) (s : S)
      → (k == j) ≡ false
      → storage.get_item j (storage.set_item k v s) ≡ storage.get_item j s
  pub get-remove : (k : String) (s : S) → storage.get_item k (storage.remove_item k s) ≡ none
  pub get-remove_other :
      (k j : String) (s : S)
      → (k == j) ≡ false
      → storage.get_item j (storage.remove_item k s) ≡ storage.get_item j s

-- `value || null`
pub non_empty : Option String → Option String
non_empty none = none
non_empty (some token) = if is_empty token then none else some token

module _ {S : Type 0} (storage : Storage S) where
  -- `getToken`; the state is `none` where there is no storage: on the server, or where the browser forbids it.
  unfoldable pub get_token : ConsoleKind → Option S → Option String
  unfolding non_empty storage_key
  get_token kind none = none
  get_token kind (some s) = non_empty (storage.get_item (storage_key kind) s)

  -- `setToken`
  unfoldable pub set_token : ConsoleKind → String → Option S → Option S
  unfolding storage_key
  set_token kind token none = none
  set_token kind token (some s) = some (storage.set_item (storage_key kind) token s)

  -- `clearToken`
  unfoldable pub clear_token : ConsoleKind → Option S → Option S
  unfolding storage_key
  clear_token kind none = none
  clear_token kind (some s) = some (storage.remove_item (storage_key kind) s)
