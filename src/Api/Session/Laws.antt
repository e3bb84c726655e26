-- ===== src/Api/Session/Laws.antt =====
-- The tokens of the two consoles do not disturb each other.
use wasm_hooks.Common.{◌≡◌, refl, String, false, Option, none, some, ◌==◌}
use wasm_hooks.Text.{is_empty}
use wasm_hooks.Api.Session.{
  ConsoleKind, operator, tenant, Storage, StorageLaws, storage_key, non_empty, get_token, set_token,
  clear_token,
}

-- The console beside this one.
abbrev pub beside : ConsoleKind → ConsoleKind
beside operator = tenant
beside tenant = operator

storage_key-beside : (kind : ConsoleKind) → (storage_key kind == storage_key (beside kind)) ≡ false
unfolding storage_key
storage_key-beside operator = refl
storage_key-beside tenant = refl

module _ {S : Type 0} (storage : Storage S) (laws : StorageLaws storage) (kind : ConsoleKind) where
  -- A token that is stored is read back, if it is not empty; the other console's token stays.
  pub get_token-set_token :
      (token : String) (s : S)
      → is_empty token ≡ false
      → (get_token storage kind (set_token storage kind token (some s)) ≡ some token)
        × (get_token storage (beside kind) (set_token storage kind token (some s))
            ≡ get_token storage (beside kind) (some s))
  unfolding get_token set_token non_empty
  get_token-set_token token s h = (
    rw (laws.get-set (storage_key kind) token s) (rw h refl),
    rw
        (laws.get-set_other (storage_key kind) (storage_key (beside kind)) token s
          (storage_key-beside kind))
        refl,
  )

  -- After a clearance the console has no token; the other console's token stays. This holds without a
  -- storage too.
  pub get_token-clear_token :
      (s : Option S)
      → (get_token storage kind (clear_token storage kind s) ≡ none)
        × (get_token storage (beside kind) (clear_token storage kind s)
            ≡ get_token storage (beside kind) s)
  unfolding get_token clear_token non_empty
  get_token-clear_token none = (refl, refl)
  get_token-clear_token (some s) = (
    rw (laws.get-remove (storage_key kind) s) refl,
    rw
        (laws.get-remove_other (storage_key kind) (storage_key (beside kind)) s
          (storage_key-beside kind))
        refl,
  )
