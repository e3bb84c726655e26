-- ===== src/Examples/Api.antt =====
-- The client of the API, its tokens, and the upload of a file.
use wasm_hooks.Common.{
  ℕ, ◌≡◌, refl, String, not, ◌&&◌, [], ◌∷◌, Option, none, some, any, keep, if◌then◌else◌, ◌==◌,
  eq_refl, is_some,
}
use wasm_hooks.Json.{Json, str}
use wasm_hooks.Mock.Http.{has_bearer, is_truthy, status_of}
use wasm_hooks.Mock.Http.Bearer.{no_space, has_bearer-authorization_of}
use wasm_hooks.Api.Session.{Storage, StorageLaws, get_token, console_for_path, operator, tenant}
use wasm_hooks.Gate.Fragment.{SearchParams, Location}
use wasm_hooks.Gate.Session.{Cache, sign_out}
use wasm_hooks.Gate.Session.Laws.{same_console, sign_out-get_token}
use wasm_hooks.Queries.{tenant_list, tenant_hook_list, console_of}
use wasm_hooks.Api.Session.Laws.{beside}
use wasm_hooks.Api.Client.{
  Options, Sent, Fetched, answered, Parsed, parsed, unfit, get, no_body, api_request,
  authorization_of, outgoing,
}
use wasm_hooks.Api.Client.Laws.{api_request-returned, api_request-get_token, Brings}
use wasm_hooks.Mock.Modules.{File, file, upload_module, knows_hook, has_content, content_hash_of}
use wasm_hooks.Text.{is_space}
use wasm_hooks.Upload.{check_wasm_file}
use wasm_hooks.Upload.Laws.{check_wasm_file-upload_module}
use wasm_hooks.Examples.Data.{start, browser, noon}

-- A storage that is a function on keys.
abbrev Items : Type 0
Items = String → Option String

abbrev cells : Storage Items
cells = record {
  get_item = λ k s. s k;
  set_item = λ k v s j. if k == j then some v else s j;
  remove_item = λ k s j. if k == j then none else s j;
}

cells-StorageLaws : StorageLaws cells
cells-StorageLaws = record {
  get-set = λ k v s. rw (eq_refl k) refl;
  get-set_other = λ k j v s h. rw h refl;
  get-remove = λ k s. rw (eq_refl k) refl;
  get-remove_other = λ k j s h. rw h refl;
}

-- A browser that is signed in to both consoles.
abbrev signed_in : Option Items
signed_in = some (λ k. some "whk_mockBootstrapKey000000000000000")

abbrev text_schema : Option Json → Parsed String
text_schema (some (str s)) = parsed s
text_schema v = unfit "not a text"

abbrev plain : Options String
plain = record { schema = text_schema; method = get; body = no_body; query = []; token = none }

-- A server that answers a request with a token, and refuses the others.
abbrev server : Sent → ℕ → Fetched × ℕ
server sent n =
    if is_some sent.authorization
    then (answered (record { status = 200; payload = some (str "yes") }), n)
    else (answered (record { status = 401; payload = none }), n)

abbrev closed_server : Sent → ℕ → Fetched × ℕ
closed_server sent n = (answered (record { status = 401; payload = none }), n)

api_request-returned_example :
    Brings "/tenant/hooks" plain "yes" (server (outgoing cells "/tenant/hooks" plain signed_in) 0).0
unfolding api_request
api_request-returned_example =
    api_request-returned cells server "/tenant/hooks" plain signed_in 0 "yes" refl

api_request-get_token_example :
    let kind = console_for_path "/tenant/hooks" in
    let s' = (api_request cells closed_server "/tenant/hooks" plain signed_in 0).1 in
    (get_token cells kind s' ≡ none)
    × (get_token cells (beside kind) s' ≡ get_token cells (beside kind) signed_in)
api_request-get_token_example =
    api_request-get_token cells closed_server "/tenant/hooks" plain signed_in 0 cells-StorageLaws

has_bearer-authorization_of_example :
    has_bearer start.api_keys (authorization_of (some "whk_mockRevokedKey00000000000000000"))
    ≡ not (
        any
          (λ k. is_truthy k.revoked_at && k.token == "whk_mockRevokedKey00000000000000000")
          start.api_keys)
unfolding no_space is_space
has_bearer-authorization_of_example =
    has_bearer-authorization_of start.api_keys "whk_mockRevokedKey00000000000000000" refl refl

abbrev wasm_file : File
wasm_file = record { file_name = "a.wasm"; bytes = 0 ∷ 97 ∷ 115 ∷ 109 ∷ 1 ∷ [] }

check_wasm_file-upload_module_example :
    status_of (upload_module browser.digest "order.validate" (file wasm_file) noon start).0 ≡ (
      if not (knows_hook "order.validate" start)
      then 404
      else if any
          (has_content "order.validate" (content_hash_of browser.digest wasm_file.bytes))
          start.modules
      then 409
      else 201)
unfolding check_wasm_file
check_wasm_file-upload_module_example =
    check_wasm_file-upload_module start browser.digest "order.validate" wasm_file noon refl

-- Parameters as a browser reads and writes those of "#token=jwt" and of an empty address.
abbrev parameters : SearchParams
parameters = record {
  read = λ text. if text == "token=jwt" then ("token", "jwt") ∷ [] else [];
  write = λ params. "";
}

abbrev linked : Location
linked = record { pathname = "/tenant"; search = ""; hash = "#token=jwt" }

-- The storage of a browser that is signed in.
abbrev stored : Items
stored k = some "whk_mockBootstrapKey000000000000000"

abbrev cached : Cache
cached = (tenant_list, str "tenants") ∷ (tenant_hook_list, str "hooks") ∷ []

sign_out-get_token_example :
    (get_token cells operator (sign_out cells operator signed_in cached).0 ≡ none)
    × (get_token cells tenant (sign_out cells operator signed_in cached).0
        ≡ get_token cells tenant signed_in)
    × ((sign_out cells operator signed_in cached).1
        ≡ keep (λ e. not (same_console operator (console_of e.0))) cached)
sign_out-get_token_example = sign_out-get_token cells cells-StorageLaws operator signed_in cached
