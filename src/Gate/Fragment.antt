-- ===== src/Gate/Fragment.antt =====
-- web/src/features/console-session/model/tenant-token.ts: the token that the shop hands over in the fragment of the
-- address, and the check of a token that is pasted.
pub mod Laws
use wasm_hooks.Common.{
  ℕ, nat_eq, String, Bool, not, List, [], ◌∷◌, keep, Option, none, some, code, any, if◌then◌else◌,
  ◌==◌,
}
use wasm_hooks.Json.{Json, lookup}
use wasm_hooks.Text.{concat, is_empty, trim}
use wasm_hooks.Api.Session.{Storage, set_token, tenant}
use wasm_hooks.Api.Client.{
  Parsed, get, no_body, Result, returned, thrown, Thrown, other_error, Sent, Fetched, api_request,
}
use wasm_hooks.Gate.Jwt.{Codec, is_jwt_expired}
use wasm_hooks.Gate.Errors.{is_status}

abbrev pub mock_tenant_token : String
mock_tenant_token = "mock"

abbrev pub mock_tenant : String
mock_tenant = "merchant-a"

-- `URLSearchParams`, as its reader and its writer.
pub record SearchParams : Type 0 where
  pub read : String → List (String × String)
  pub write : List (String × String) → String

-- The address, less its origin. The hash is empty or begins with "#".
pub record Location : Type 0 where
  pub pathname : String
  pub search : String
  pub hash : String

-- `hash.replace(/^#/, "")`
unfoldable pub without_mark : String → String
without_mark String.[] = ""
without_mark (String.◌∷◌ c s) = if nat_eq (code c) 0x23 then s else String.◌∷◌ c s

abbrev pub with_mark : String → String
with_mark rest = if is_empty rest then "" else concat ("#" ∷ rest ∷ [])

-- `token || null`
abbrev pub token_or_null : String → Option String
token_or_null token = if is_empty token then none else some token

-- `params.get("token")?.trim() ?? ""`
abbrev pub token_text : Option String → String
token_text none = ""
token_text (some s) = trim s

abbrev pub is_token : String × String → Bool
is_token e = e.0 == "token"

pub take_params : SearchParams → List (String × String) → Location → Option String × Location
unfolding trim lookup
take_params url params at =
    if any is_token params
    then (
      token_or_null (token_text (lookup "token" params)),
      record at { hash = with_mark (url.write (keep (λ e. not (is_token e)) params)) },
    )
    else (none, at)

-- `takeTokenFromFragment`: the token, and the address that is left.
unfoldable pub take_token_from_fragment : SearchParams → Location → Option String × Location
unfolding take_params without_mark
take_token_from_fragment url at =
    let taken = take_params url (url.read (without_mark at.hash)) at in
    if is_empty (without_mark at.hash) then (none, at) else taken

module _ {S : Type 0} (storage : Storage S) where
  unfoldable pub adopt : Option String → Option S → Option S
  unfolding set_token
  adopt none s = s
  adopt (some token) s = set_token storage tenant token s

  -- `adoptTokenFromFragment`
  unfoldable pub adopt_token_from_fragment :
      SearchParams → Location → Option S → Option S × Location
  unfolding adopt take_token_from_fragment
  adopt_token_from_fragment url at s =
      let taken = take_token_from_fragment url at in (adopt taken.0 s, taken.1)

  -- Whether `verifyTenantToken` throws what its request threw: only a 401.
  pub refusal : {T : Type 0} → Result T → Option Thrown
  refusal (returned v) = none
  refusal (thrown e) = if is_status 401 e then some e else none

  -- `verifyTenantToken`: what it throws.
  unfoldable pub verify_tenant_token :
      {T W : Type 0}
      → Codec
      → (Option Json → Parsed T)
      → (Sent → W → Fetched × W)
      → String
      → ℕ
      → Option S
      → W
      → Option Thrown × Option S × W
  unfolding refusal is_jwt_expired api_request
  verify_tenant_token codec tenant_hook_list fetch token now s w =
      let (result, s', w') =
        api_request storage fetch "/tenant/hooks"
          (record {
            schema = tenant_hook_list;
            method = get;
            body = no_body;
            query = [];
            token = some token;
          })
          s w in
      if is_jwt_expired codec token now
      then (some (other_error "Срок действия токена истёк"), s, w)
      else (refusal result, s', w')
