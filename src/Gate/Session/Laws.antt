-- ===== src/Gate/Session/Laws.antt =====
-- What an end of a session leaves.
use wasm_hooks.Common.{◌≡◌, refl, Bool, true, false, not, [], ◌∷◌, Option, none, keep}
use wasm_hooks.Api.Session.{ConsoleKind, operator, tenant, Storage, StorageLaws, get_token}
use wasm_hooks.Api.Session.Laws.{beside, get_token-clear_token}
use wasm_hooks.Queries.{
  Query, api_key_list, operator_hook_list, tenant_hook_list, tenant_list, operator_hook_detail,
  tenant_hook_detail, module_list, invocation_list, key_of, console_of, begins_with,
}
use wasm_hooks.Gate.Session.{console_key, Cache, remove_queries, sign_out}

abbrev pub same_console : ConsoleKind → ConsoleKind → Bool
same_console operator operator = true
same_console tenant tenant = true
same_console operator tenant = false
same_console tenant operator = false

-- The key of a query begins with the name of its console.
begins_with-console_key :
    (kind : ConsoleKind) (q : Query)
    → begins_with (console_key kind) (key_of q) ≡ same_console kind (console_of q)
begins_with-console_key operator api_key_list = refl
begins_with-console_key operator operator_hook_list = refl
begins_with-console_key operator (operator_hook_detail n) = refl
begins_with-console_key operator tenant_list = refl
begins_with-console_key operator tenant_hook_list = refl
begins_with-console_key operator (tenant_hook_detail n) = refl
begins_with-console_key operator (module_list h) = refl
begins_with-console_key operator (invocation_list f) = refl
begins_with-console_key tenant api_key_list = refl
begins_with-console_key tenant operator_hook_list = refl
begins_with-console_key tenant (operator_hook_detail n) = refl
begins_with-console_key tenant tenant_list = refl
begins_with-console_key tenant tenant_hook_list = refl
begins_with-console_key tenant (tenant_hook_detail n) = refl
begins_with-console_key tenant (module_list h) = refl
begins_with-console_key tenant (invocation_list f) = refl

remove_queries-console :
    (kind : ConsoleKind) (cache : Cache)
    → remove_queries kind cache ≡ keep (λ e. not (same_console kind (console_of e.0))) cache
unfolding remove_queries
remove_queries-console kind [] = refl
remove_queries-console kind ((q, v) ∷ cache) =
    rw (begins_with-console_key kind q, remove_queries-console kind cache) refl

module _ {S : Type 0} (storage : Storage S) (laws : StorageLaws storage) where
  -- A sign-out, in a storage that keeps the laws of the Storage standard, leaves no token of its console and the token of the
  -- other one, and of the cache exactly the entries of the other console's queries.
  pub sign_out-get_token :
      (kind : ConsoleKind) (s : Option S) (cache : Cache)
      → (get_token storage kind (sign_out storage kind s cache).0 ≡ none)
        × (get_token storage (beside kind) (sign_out storage kind s cache).0
            ≡ get_token storage (beside kind) s)
        × ((sign_out storage kind s cache).1
            ≡ keep (λ e. not (same_console kind (console_of e.0))) cache)
  unfolding sign_out
  sign_out-get_token kind s cache =
      let (gone, stays) = get_token-clear_token storage laws kind s in
      (gone, stays, remove_queries-console kind cache)
